-- ===== src/Lru.antt =====
-- uvloop/lru.pyx: the cache of converted socket addresses. The `OrderedDict` is a list of entries,
-- the oldest first; a method leaves the new dictionary beside its value or its exception.
pub mod Entries
pub mod Kept
mod Eviction
mod History
mod Tests
use mathlib.Core.List.{lookup}
use uvloop.Prelude.{
  ℕ, zero, suc, Bool, true, false, List, [], ◌∷◌, ◌++◌, Option, none, some, if◌then◌else◌, ltb,
  length, map, ℤ, pos, is_some,
}
use uvloop.Errors.{Exception, overflow_error, key_error, value_error}
use uvloop.Python.{M, Outcome, ok, raise, ◌>>=◌, ◌>>◌, pure, throw, get_state, modify, branch}
use Entries.{remove, od_set}

pub record LruCache (K V : Type 0) : Type 0 where
  pub dict : List (K × V)
  pub maxsize : ℕ

-- `LruCache(maxsize=...)`; the argument is any Python integer, and `_maxsize` a C `int`.
unfoldable pub init : {K V : Type 0} → ℤ → Outcome (LruCache K V)
init (pos (suc n)) =
    if ltb (suc n) 2147483648
    then ok (record { dict = []; maxsize = suc n })
    else raise overflow_error
init _ = raise value_error

module _ {K V : Type 0} (dec : Discrete K) where
  -- `OrderedDict.move_to_end(key)`
  unfoldable pub move_to_end : K → M (LruCache K V) (Unit {0})
  move_to_end key c = elim (lookup dec key c.dict) [
    | none ↦ (raise key_error, c)
    | some v ↦ (ok tt, record c { dict = remove dec key c.dict ++ (key, v) ∷ [] })
  ]

  -- `get(key, default)`: `none` stands for the marker of a missing key.
  unfoldable pub get : K → V → M (LruCache K V) V
  unfolding move_to_end
  get key default c = elim (lookup dec key c.dict) [
    | none ↦ (ok default, c)
    | some o ↦ (do move_to_end key; pure o) c
  ]

  unfoldable pub getitem : K → M (LruCache K V) V
  unfolding move_to_end
  getitem key c = elim (lookup dec key c.dict) [
    | none ↦ (raise key_error, c)
    | some o ↦ (do move_to_end key; pure o) c
  ]

  unfoldable pub contains : K → LruCache K V → Bool
  contains key c = is_some (lookup dec key c.dict)

  unfoldable pub needs_cleanup : LruCache K V → Bool
  needs_cleanup c = ltb c.maxsize (length c.dict)

  -- `popitem(last=False)` raises on an empty dictionary.
  unfoldable pub cleanup_one : M (LruCache K V) K
  cleanup_one c = elim c.dict [
    | [] ↦ (raise key_error, c)
    | (k, _) ∷ rest ↦ (ok k, record c { dict = rest })
  ]

  -- The `while` loop of `__setitem__`, on fuel: each round drops one entry.
  unfoldable pub cleanup : ℕ → M (LruCache K V) (Unit {0})
  unfolding needs_cleanup cleanup_one
  cleanup zero c = (ok tt, c)
  cleanup (suc fuel) c =
      let rest : M (LruCache K V) (Unit {0}) = cleanup fuel in
      branch (needs_cleanup c) (do _ ← cleanup_one; rest) (pure tt) c

  unfoldable pub store : K → V → LruCache K V → LruCache K V
  store key o c = record c { dict = od_set dec key o c.dict }

  unfoldable pub setitem : K → V → M (LruCache K V) (Unit {0})
  unfolding contains store move_to_end cleanup
  setitem key o = do
    c ← get_state
    branch (contains key c) (do modify (store key o); move_to_end key) (modify (store key o))
    c' ← get_state
    cleanup (length c'.dict)

  unfoldable pub delitem : K → M (LruCache K V) (Unit {0})
  delitem key c = elim (lookup dec key c.dict) [
    | none ↦ (raise key_error, c)
    | some v ↦ (ok tt, record c { dict = remove dec key c.dict })
  ]

  unfoldable pub len : LruCache K V → ℕ
  len c = length c.dict

  -- `iter(cache)`: the keys, the oldest first.
  unfoldable pub iter : LruCache K V → List K
  iter c = map (λ e. e.0) c.dict
