-- ===== src/Lru/History.antt =====
-- uvloop/lru.pyx: a run of lookups and stores, against a log of every entry ever used.
use mathlib.Core.List.{lookup}
use uvloop.Prelude.{
  ℕ, ◌≤◌, ◌≡◌, sym, ap, ◌∙◌, List, [], ◌∷◌, none, some, length, length-append, arith, Option-cases,
  inl, inr,
}
use mathlib.Core.Path.{subst}
use uvloop.Lru.{LruCache, move_to_end, get, setitem}
use uvloop.Lru.Entries.{remove, length-remove, Unique, touch, touch-Unique}
use uvloop.Lru.Eviction.{newest, newest_all, length-newest-le, newest-touch, setitem_lem}

pub data Call (K V : Type 0) : Type 0 where
  reads : K → V → Call K V
  stores : K → V → Call K V

module _ {K V : Type 0} (dec : Discrete K) where
  -- The cache after a call of `get(key, default)` or `__setitem__`.
  unfoldable pub step : LruCache K V → Call K V → LruCache K V
  step c (reads key default) = (get dec key default c).1
  step c (stores key o) = (setitem dec key o c).1

  unfoldable pub run : LruCache K V → List (Call K V) → LruCache K V
  unfolding step
  run c [] = c
  run c (call ∷ calls) = run (step c call) calls

  -- The log, the latest use last: a store is a use, and so is a read of an entry among the newest
  -- `n`.
  unfoldable pub note : ℕ → List (K × V) → Call K V → List (K × V)
  note n h (reads key default) = elim (lookup dec key (newest n h)) [
    | none ↦ h
    | some v ↦ touch dec key v h
  ]
  note n h (stores key o) = touch dec key o h

  unfoldable pub log : ℕ → List (K × V) → List (Call K V) → List (K × V)
  unfolding note
  log n h [] = h
  log n h (call ∷ calls) = log n (note n h call) calls

  note-Unique :
      (n : ℕ) (h : List (K × V)) (call : Call K V) → Unique dec h → Unique dec (note n h call)
  unfolding note
  note-Unique n h (reads key default) u = elim (Option-cases (lookup dec key (newest n h))) [
    | inl miss ↦ rw (miss, note) u
    | inr (v, hit) ↦ rw (hit, note) (touch-Unique dec key v h u)
  ]
  note-Unique n h (stores key o) u = touch-Unique dec key o h u

  step-maxsize : (c : LruCache K V) (call : Call K V) → (step c call).maxsize ≡ c.maxsize
  unfolding step get move_to_end
  step-maxsize c (reads key default) = ground arith
  step-maxsize c (stores key o) = ap (λ r. r.1.maxsize) (setitem_lem dec c key o)

  abbrev Window : LruCache K V → List (K × V) → Type 0
  Window c h = c.dict ≡ newest c.maxsize h

  read-Window :
      (n : ℕ) (h : List (K × V)) (key : K) (v : V)
      → Unique dec h
      → lookup dec key (newest n h) ≡ some v
      → touch dec key v (newest n h) ≡ newest n (touch dec key v h)
  read-Window n h key v u hit =
      sym (newest_all n (touch dec key v (newest n h)) fits) ∙ newest-touch dec n key v h u
    where
      fits : length (touch dec key v (newest n h)) ≤ n
      fits = omega (
        arith,
        length-append (remove dec key (newest n h)) ((key, v) ∷ []),
        length-remove dec key (newest n h) v hit,
        length-newest-le n h,
      )

  get_miss :
      (c : LruCache K V) (key : K) (default : V)
      → lookup dec key c.dict ≡ none
      → (get dec key default c).1 ≡ c
  unfolding get
  get_miss c key default e = ground arith

  get_hit :
      (c : LruCache K V) (key : K) (default v : V)
      → lookup dec key c.dict ≡ some v
      → (get dec key default c).1.dict ≡ touch dec key v c.dict
  unfolding get move_to_end
  get_hit c key default v e = ground arith

  step-Window :
      (c : LruCache K V) (h : List (K × V)) (call : Call K V)
      → Unique dec h
      → Window c h
      → (step c call).dict ≡ newest c.maxsize (note c.maxsize h call)
  unfolding step note
  step-Window c h (reads key default) u w =
      elim (Option-cases (lookup dec key (newest c.maxsize h))) [
        | inl miss ↦
            ap (λ d. d.dict) (get_miss c key default (ap (lookup dec key) w ∙ miss))
            ∙ rw (miss, note) w
        | inr (v, hit) ↦
            get_hit c key default v (ap (lookup dec key) w ∙ hit)
            ∙ ap (touch dec key v) w
            ∙ read-Window c.maxsize h key v u hit
            ∙ rw (hit, note)
      ]
  step-Window c h (stores key o) u w =
      ap (λ r. r.1.dict) (setitem_lem dec c key o)
      ∙ ap (λ d. newest c.maxsize (touch dec key o d)) w
      ∙ newest-touch dec c.maxsize key o h u

  -- If a cache holds the newest `maxsize` entries of a log without double keys, then after any run
  -- of `get`s and `__setitem__`s it holds the newest `maxsize` entries of the log in which every
  -- store, and every read of an entry that the cache holds, made its entry the newest: what is
  -- evicted is what was used least recently.
  pub run-Window :
      (n : ℕ) (c : LruCache K V) (h : List (K × V)) (calls : List (Call K V))
      → Unique dec h
      → c.maxsize ≡ n
      → c.dict ≡ newest n h
      → (run c calls).dict ≡ newest n (log n h calls)
  unfolding run log
  run-Window n c h [] u e w = w
  run-Window n c h (call ∷ calls) u e w =
      run-Window n (step c call) (note n h call) calls (note-Unique n h call u)
        (step-maxsize c call ∙ e)
        (subst (λ k. (step c call).dict ≡ newest k (note k h call)) e
          (step-Window c h call u (w ∙ ap (λ k. newest k h) (sym e))))
