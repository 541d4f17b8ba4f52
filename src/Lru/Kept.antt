-- ===== src/Lru/Kept.antt =====
-- uvloop/lru.pyx: what is true of every entry stays true.
use mathlib.Core.List.{lookup}
use mathlib.Core.Logic.{ite}
use mathlib.Core.Path.{subst}
use uvloop.Prelude.{
  ℕ, zero, suc, ◌-◌, ◌≡◌, refl, sym, ap, List, [], ◌∷◌, ◌++◌, Option, none, some, length, drop, All,
  ◌⊎◌, inl, inr,
}
use uvloop.Python.{Outcome, ok, bind}
use uvloop.Lru.{LruCache, get, move_to_end, setitem}
use uvloop.Lru.Entries.{remove, touch}
use uvloop.Lru.Eviction.{with_dict, setitem_lem}

pub setitem_returns :
    {K V : Type 0} (dec : Discrete K) (k : K) (v : V) (c : LruCache K V)
    → (setitem dec k v c).0 ≡ ok tt
setitem_returns dec k v c = ap (λ r. r.0) (setitem_lem dec c k v)

module _ {K V : Type 0} (dec : Discrete K) (P : K × V → Type 0) where
  All-remove : (k : K) (d : List (K × V)) → All P d → All P (remove dec k d)
  unfolding remove
  All-remove k [] h = tt
  All-remove k ((j, w) ∷ d) h = elim (dec k j) as (λ x. All P (ite x d ((j, w) ∷ remove dec k d))) [
    | yes e ↦ h.1
    | no n ↦ (h.0, All-remove k d h.1)
  ]

  All-append : (d e : List (K × V)) → All P d → All P e → All P (d ++ e)
  All-append [] e h k = k
  All-append (x ∷ d) e h k = (h.0, All-append d e h.1 k)

  All-drop : (n : ℕ) (d : List (K × V)) → All P d → All P (drop n d)
  All-drop zero d h = h
  All-drop (suc n) [] h = h
  All-drop (suc n) (x ∷ d) h = All-drop n d h.1

  All-lookup : (k : K) (v : V) (d : List (K × V)) → All P d → lookup dec k d ≡ some v → P (k, v)
  unfolding lookup
  All-lookup k v [] h e = absurd (cc e)
  All-lookup k v ((j, w) ∷ d) h e = step (λ q. All-lookup k v d h.1 q) (dec k j) e
    where
      value_or : V → Option V → V
      value_or u none = u
      value_or u (some x) = x

      step :
          (lookup dec k d ≡ some v → P (k, v))
          → (x : Dec (k ≡ j)) → ite x (some w) (lookup dec k d) ≡ some v
          → P (k, v)
      step f (yes p) e =
          subst (λ z. P (z, v)) (sym p) (subst (λ o. P (j, o)) (ap (value_or w) e) h.0)
      step f (no n) e = f e

  -- What `get` finds has the property, and so have the entries after it.
  pub record Got (k : K) (default : V) (r : Outcome V × LruCache K V) : Type 0 where
    pub value : V
    pub returns : r.0 ≡ ok value
    pub is_good : (value ≡ default) ⊎ P (k, value)
    pub kept : All P r.1.dict

  pub get_lem :
      (k : K) (default : V) (c : LruCache K V) → All P c.dict → Got k default (get dec k default c)
  unfolding get move_to_end
  get_lem k default c h = go (lookup dec k c.dict) refl
    where
      found : Option V → Outcome V × LruCache K V
      found l = elim l [
        | none ↦ (ok default, c)
        | some o ↦ bind (move_to_end dec k c) (λ _ t. (ok o, t))
      ]

      go : (l : Option V) → lookup dec k c.dict ≡ l → Got k default (found l)
      go none e = record { value = default; returns = refl; is_good = inl refl; kept = h }
      go (some o) e =
          subst (λ r. Got k default (bind r (λ _ t. (ok o, t)))) (sym (moved e))
            (record {
              value = o;
              returns = refl;
              is_good = inr (All-lookup k o c.dict h e);
              kept =
                  All-append (remove dec k c.dict) ((k, o) ∷ []) (All-remove k c.dict h)
                    (All-lookup k o c.dict h e, tt);
            })
        where
          moved :
              lookup dec k c.dict ≡ some o
              → move_to_end dec k c ≡ (ok tt, with_dict c (remove dec k c.dict ++ (k, o) ∷ []))
          moved e = rw (e, move_to_end) refl

  pub setitem-All :
      (k : K) (v : V) (c : LruCache K V)
      → P (k, v)
      → All P c.dict
      → All P (setitem dec k v c).1.dict
  setitem-All k v c p h =
      subst (λ r. All P r.1.dict) (sym (setitem_lem dec c k v))
        (All-drop (length (touch dec k v c.dict) - c.maxsize) (touch dec k v c.dict)
          (All-append (remove dec k c.dict) ((k, v) ∷ []) (All-remove k c.dict h) (p, tt)))
