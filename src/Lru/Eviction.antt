-- ===== src/Lru/Eviction.antt =====
-- uvloop/lru.pyx: what the cache holds, against a history that forgets nothing.
use mathlib.Core.List.{lookup}
use mathlib.Core.Logic.{if_pos, if_neg}
use uvloop.Prelude.{
  ℕ, zero, suc, ◌-◌, ◌≤◌, ◌<◌, ◌≡◌, refl, sym, ap, ◌∙◌, List, [], ◌∷◌, ◌++◌, none, some, length,
  drop, length-append, length-drop, arith, Option-cases, Bool-cases, inl, inr, ltb→lt, ltb,
}
use uvloop.Python.{ok}
use uvloop.Lru.{LruCache, move_to_end, getitem, contains, cleanup, store, setitem}
use uvloop.Lru.Entries.{
  remove, od_set, od_set_absent, remove_absent, remove-od_set, lookup-od_set, Unique, touch,
  touch-Unique, lookup-remove_self, lookup-append_absent, length-touch-le,
}

-- The last `n` entries.
abbrev pub newest {ℓ} : {A : Type ℓ} → ℕ → List A → List A
newest n l = drop (length l - n) l

-- The cache `c` with the dictionary `d`.
abbrev pub with_dict : {K V : Type 0} → LruCache K V → List (K × V) → LruCache K V
with_dict c d = record c { dict = d }

pub newest_all {ℓ} : {A : Type ℓ} (n : ℕ) (l : List A) → length l ≤ n → newest n l ≡ l
newest_all n l h = rw (zero_sub (length l) n h)
  where
    zero_sub : (a b : ℕ) → a ≤ b → a - b ≡ 0
    zero_sub a b h = omega arith

pub length-newest-le {ℓ} : {A : Type ℓ} (n : ℕ) (l : List A) → length (newest n l) ≤ n
length-newest-le n l = omega (arith, length-drop (length l - n) l)

module _ {K V : Type 0} (dec : Discrete K) where
  drop_step :
      (n : ℕ) (e : K × V) (d : List (K × V)) → n < suc (length d) → newest n (e ∷ d) ≡ newest n d
  drop_step n e d h = rw (rewrite_sub n (length d) h)
    where
      rewrite_sub : (n m : ℕ) → n < suc m → suc m - n ≡ suc (m - n)
      rewrite_sub n m h = omega arith

  cleanup_from :
      (fuel : ℕ) (m : ℕ) (d : List (K × V))
      → length d ≤ fuel
      → cleanup dec fuel (record { dict = d; maxsize = m })
        ≡ (ok tt, record { dict = newest m d; maxsize = m })
  unfolding cleanup
  cleanup_from zero m [] h = rw (newest_all {A = K × V} m [] (omega arith))
  cleanup_from zero m (e ∷ d) h = absurd (omega arith)
  cleanup_from (suc fuel) m [] h = elim (Bool-cases (ltb m 0)) [
    | inl over ↦ absurd (omega (arith, ltb→lt m 0 over))
    | inr fits ↦ rw (fits, newest_all {A = K × V} m [] (omega arith)) refl
  ]
  cleanup_from (suc fuel) m (e ∷ d) h = elim (Bool-cases (ltb m (suc (length d)))) [
    | inl over ↦ rw over (
        cleanup_from fuel m d (omega arith)
        ∙ ap (λ l. (ok tt, record { dict = l; maxsize = m }))
            (sym (drop_step m e d (ltb→lt m (suc (length d)) over))))
    | inr fits ↦ rw fits (
        ap (λ l. (ok tt, record { dict = l; maxsize = m }))
          (sym (newest_all m (e ∷ d) (ground arith))))
  ]

  -- A `__setitem__` never raises: it makes the entry the newest, whether or not the key was there,
  -- and drops the oldest entries until `maxsize` are left.
  pub setitem_lem :
      (c : LruCache K V) (key : K) (o : V)
      → setitem dec key o c ≡ (ok tt, with_dict c (newest c.maxsize (touch dec key o c.dict)))
  unfolding setitem contains store move_to_end lookup remove od_set
  setitem_lem c key o = elim (Option-cases (lookup dec key c.dict)) [
    | inl e ↦
        rw (e, od_set_absent dec key o c.dict e, remove_absent dec key c.dict e)
          (cleanup_from (length d) c.maxsize d (omega arith))
    | inr (w, e) ↦
        rw (e, lookup-od_set dec key o c.dict, remove-od_set dec key o c.dict w e)
          (cleanup_from _ c.maxsize (touch dec key o c.dict) (omega arith))
  ]
    where
      d : List (K × V)
      d = c.dict ++ (key, o) ∷ []

  newest-Unique : (n : ℕ) (d : List (K × V)) → Unique dec d → Unique dec (drop n d)
  newest-Unique zero d u = u
  newest-Unique (suc n) [] u = tt
  newest-Unique (suc n) ((k, v) ∷ d) u = newest-Unique n d u.1

  -- What holds of the cache between two calls.
  pub record IsValid (c : LruCache K V) : Type 0 where
    pub bounded : length c.dict ≤ c.maxsize
    pub positive : 0 < c.maxsize
    pub unique : Unique dec c.dict

  -- The last entry is found behind those of other keys.
  lookup-drop :
      (k : K) (v : V) (m : ℕ) (d : List (K × V))
      → m ≤ length d
      → lookup dec k d ≡ none
      → lookup dec k (drop m (d ++ (k, v) ∷ [])) ≡ some v
  unfolding lookup
  lookup-drop k v zero d p h =
      lookup-append_absent dec k d ((k, v) ∷ []) h ∙ if_pos (dec k k) refl _ _
  lookup-drop k v (suc m) [] p h = absurd (omega arith)
  lookup-drop k v (suc m) ((j, w) ∷ d) p h = lookup-drop k v m d (omega arith) (ground arith)

  newest-touch_older :
      (n : ℕ) (k : K) (v : V) (j : K) (w : V) (h : List (K × V))
      → Unique dec ((j, w) ∷ h)
      → n ≤ length h
      → newest n (touch dec k v h) ≡ newest n (touch dec k v ((j, w) ∷ h))
  unfolding remove
  newest-touch_older n k v j w h u p = elim (dec k j) [
    | yes e ↦ rw (if_pos _ e) (rw (remove_absent dec k h (rw e u.0)))
    | no e ↦
        rw (if_neg _ e)
          (sym (drop_step n (j, w) (touch dec k v h) (omega (arith, length-touch-le dec k v h))))
  ]

  -- To make an entry the newest, only the newest `n` of the others matter.
  pub newest-touch :
      (n : ℕ) (k : K) (v : V) (h : List (K × V))
      → Unique dec h
      → newest n (touch dec k v (newest n h)) ≡ newest n (touch dec k v h)
  newest-touch n k v [] u = rw (newest_all {A = K × V} n [] (omega arith)) refl
  newest-touch n k v ((j, w) ∷ h) u = elim (Bool-cases (ltb (length h) n)) [
    | inl fits ↦ ap (λ l. newest n (touch dec k v l)) (newest_all n ((j, w) ∷ h) (ltb→lt _ _ fits))
    | inr over ↦
        ap (λ l. newest n (touch dec k v l)) (drop_step n (j, w) h (ground arith))
        ∙ newest-touch n k v h u.1
        ∙ newest-touch_older n k v j w h u (ground arith)
  ]

  -- A `__setitem__` keeps the cache valid: never more than `maxsize` entries, `maxsize` positive,
  -- no key twice.
  pub setitem-IsValid :
      (c : LruCache K V) (key : K) (o : V) → IsValid c → IsValid (setitem dec key o c).1
  setitem-IsValid c key o h = rw (setitem_lem c key o) (record {
    bounded = length-newest-le c.maxsize (touch dec key o c.dict);
    positive = h.positive;
    unique = newest-Unique _ (touch dec key o c.dict) (touch-Unique dec key o c.dict h.unique);
  })

  -- After a `__setitem__` on a valid cache, one with `maxsize` positive, no more entries than that
  -- and no key twice, `__getitem__` of the key gives the value, whatever was evicted.
  pub getitem-setitem :
      (c : LruCache K V) (key : K) (o : V)
      → IsValid c
      → (getitem dec key (setitem dec key o c).1).0 ≡ ok o
  unfolding getitem move_to_end
  getitem-setitem c key o h =
      rw (setitem_lem c key o) (rw (found, getitem, move_to_end, found) refl)
    where
      found : lookup dec key (newest c.maxsize (touch dec key o c.dict)) ≡ some o
      found =
          lookup-drop key o _ (remove dec key c.dict)
            (omega (arith, h.positive, length-append (remove dec key c.dict) ((key, o) ∷ [])))
            (lookup-remove_self dec key c.dict h.unique)
