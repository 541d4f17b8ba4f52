-- ===== src/Lru/Entries.antt =====
-- The entries of an `OrderedDict`, the oldest first. Python's dictionaries hold a key at most once;
-- the functions act on the first entry with the key.
use mathlib.Core.List.{lookup}
use mathlib.Core.Logic.{ite, if_pos, if_neg}
use uvloop.Prelude.{
  suc, ◌≤◌, ◌≡◌, ◌≢◌, refl, ap, List, [], ◌∷◌, ◌++◌, none, some, length, length-append, arith, sym,
  ◌∙◌, Option-cases, inl, inr,
}

module _ {K V : Type 0} (dec : Discrete K) where
  -- `del d[key]`, of a key that is there.
  unfoldable pub remove : K → List (K × V) → List (K × V)
  remove k [] = []
  remove k ((j, w) ∷ d) = ite (dec k j) d ((j, w) ∷ remove k d)

  -- `d[key] = value`: a key that is there keeps its place, a new one goes to the end.
  unfoldable pub od_set : K → V → List (K × V) → List (K × V)
  od_set k v [] = (k, v) ∷ []
  od_set k v ((j, w) ∷ d) = ite (dec k j) ((k, v) ∷ d) ((j, w) ∷ od_set k v d)

  pub od_set_absent :
      (k : K) (v : V) (d : List (K × V)) → lookup dec k d ≡ none → od_set k v d ≡ d ++ (k, v) ∷ []
  unfolding lookup od_set
  od_set_absent k v [] h = refl
  od_set_absent k v ((j, w) ∷ d) h = ground (arith, od_set_absent k v d)

  pub remove_absent : (k : K) (d : List (K × V)) → lookup dec k d ≡ none → remove k d ≡ d
  unfolding lookup remove
  remove_absent k [] h = refl
  remove_absent k ((j, w) ∷ d) h = ground (arith, remove_absent k d)

  pub remove-od_set :
      (k : K) (v : V) (d : List (K × V)) (w : V)
      → lookup dec k d ≡ some w
      → remove k (od_set k v d) ≡ remove k d
  unfolding lookup remove od_set
  remove-od_set k v [] w h = cc
  remove-od_set k v ((j, x) ∷ d) w h = ground (arith, remove-od_set k v d w)

  pub lookup-od_set : (k : K) (v : V) (d : List (K × V)) → lookup dec k (od_set k v d) ≡ some v
  unfolding lookup od_set
  lookup-od_set k v [] = if_pos (dec k k) refl _ _
  lookup-od_set k v ((j, x) ∷ d) = ground (arith, lookup-od_set k v d)

  pub lookup-remove_ne :
      (k q : K) (d : List (K × V)) → q ≢ k → lookup dec q (remove k d) ≡ lookup dec q d
  unfolding lookup remove
  lookup-remove_ne k q [] h = refl
  lookup-remove_ne k q ((j, x) ∷ d) h = ground (arith, lookup-remove_ne k q d)

  pub length-remove :
      (k : K) (d : List (K × V)) (v : V)
      → lookup dec k d ≡ some v
      → suc (length (remove k d)) ≡ length d
  unfolding lookup remove
  length-remove k [] v h = cc
  length-remove k ((j, x) ∷ d) v h = ground (arith, length-remove k d v)

  -- No key stands twice, as in every Python dictionary.
  abbrev pub Unique : List (K × V) → Type 0
  Unique [] = Unit {0}
  Unique ((k, v) ∷ d) = (lookup dec k d ≡ none) × Unique d

  pub lookup-remove_self : (k : K) (d : List (K × V)) → Unique d → lookup dec k (remove k d) ≡ none
  unfolding lookup remove
  lookup-remove_self k [] u = refl
  lookup-remove_self k ((j, x) ∷ d) u = ground (arith, lookup-remove_self k d u.1)

  pub remove-Unique : (k : K) (d : List (K × V)) → Unique d → Unique (remove k d)
  unfolding lookup remove
  remove-Unique k [] u = tt
  remove-Unique k ((j, x) ∷ d) u = elim (dec k j) [
    | yes p ↦ rw (if_pos _ p) u.1
    | no p ↦
        rw (if_neg _ p) (rw (lookup-remove_ne k j d (λ e. p (sym e))) u.0, remove-Unique k d u.1)
  ]

  pub lookup-append_absent :
      (k : K) (d f : List (K × V)) → lookup dec k d ≡ none → lookup dec k (d ++ f) ≡ lookup dec k f
  unfolding lookup
  lookup-append_absent k [] f h = refl
  lookup-append_absent k ((j, x) ∷ d) f h = ground (arith, lookup-append_absent k d f)

  append-Unique :
      (k : K) (v : V) (d : List (K × V))
      → Unique d
      → lookup dec k d ≡ none
      → Unique (d ++ (k, v) ∷ [])
  unfolding lookup
  append-Unique k v [] u h = (refl, tt)
  append-Unique k v ((j, x) ∷ d) u h = elim (dec k j) [
    | yes p ↦ absurd (ground arith)
    | no p ↦ (
      rw (lookup-append_absent j d ((k, v) ∷ []) u.0) (ground arith),
      append-Unique k v d u.1 (ground arith),
    )
  ]

  -- The entry becomes the newest.
  abbrev pub touch : K → V → List (K × V) → List (K × V)
  touch k v d = remove k d ++ (k, v) ∷ []

  pub touch-Unique : (k : K) (v : V) (d : List (K × V)) → Unique d → Unique (touch k v d)
  touch-Unique k v d u =
      append-Unique k v (remove k d) (remove-Unique k d u) (lookup-remove_self k d u)

  pub lookup-touch_self :
      (k : K) (v : V) (d : List (K × V)) → Unique d → lookup dec k (touch k v d) ≡ some v
  unfolding lookup
  lookup-touch_self k v d u =
      lookup-append_absent k (remove k d) ((k, v) ∷ []) (lookup-remove_self k d u)
      ∙ if_pos (dec k k) refl _ _

  pub length-touch-le : (k : K) (v : V) (d : List (K × V)) → length d ≤ length (touch k v d)
  unfolding lookup
  length-touch-le k v d = elim (Option-cases (lookup dec k d)) [
    | inl e ↦ omega (
      arith,
      length-append d ((k, v) ∷ []),
      ap length (remove_absent k d e),
      length-append (remove k d) ((k, v) ∷ []),
    )
    | inr (w, e) ↦ omega (arith, length-remove k d w e, length-append (remove k d) ((k, v) ∷ []))
  ]
