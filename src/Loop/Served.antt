-- ===== src/Loop/Served.antt =====
-- uvloop/loop.pyx: a round of `_on_idle` takes the handles that waited when it began, in order.

use mathlib.Core.Path.{subst}
use uvloop.Prelude.{
  ℕ, ◌≤◌, ◌<◌, ◌≡◌, refl, sym, ap, ◌⊎◌, inl, inr, Bool, true, false, List, [], ◌∷◌, ◌++◌, Option,
  none, some, take, drop, arith, Bool-cases,
}
use uvloop.Errors.{Exception, is_interrupt}
use uvloop.Python.{M, Outcome, ok, raise, bind, handle, ◌>>◌, pure, branch, catch}
use uvloop.Python.Frames.{Keeps, branch-Keeps, throw-Keeps}
use uvloop.Loop.State.{Env, Loop, Target, python, stop_method, method}
use uvloop.Loop.Queue.{stop_now, run_handle, perform, call_target, run_code, reporting}
use uvloop.Loop.Rounds.{popleft, run_one}
use uvloop.Loop.Grow.{Grows, Grows-refl, Grows-trans, grows}
use uvloop.Loop.Grow.Methods.{more_run, stop_now-Grows}
use uvloop.Loop.Code.{call_exception_handler-Keeps, call_target-Keeps}
use uvloop.Loop.Grow.Code.{grows_code}

module _ {W : Type 0} where
  -- The outcome of a handle's turn or of the whole loop: it goes on, or the loop is to stop.
  abbrev pub Goes : Outcome Bool × Loop W → Type 0
  Goes r = (r.0 ≡ ok true) ⊎ ((r.0 ≡ ok false) × (r.1.stopping ≡ true))

  -- The `try` of a handle's turn.
  guard : Outcome (Unit {0}) × Loop W → Outcome Bool × Loop W
  guard r = handle (bind r (λ _. pure true)) (λ ex. do stop_now (some ex); pure false)

  stopped_idle :
      (e : Exception) (t : Loop W)
      → t.idle_running ≡ true
      → ((stop_now (some e) t).0 ≡ ok tt) × ((stop_now (some e) t).1.stopping ≡ true)
  unfolding stop_now
  stopped_idle e t i = ground arith

  then_false :
      (s : Loop W) (r : Outcome (Unit {0}) × Loop W)
      → r.0 ≡ ok tt
      → r.1.stopping ≡ true
      → Grows s r.1
      → Goes (bind r (λ _. pure false)) × Grows s (bind r (λ _. pure false)).1
  then_false s (ok _, t) e h g = (inr (refl, h), g)
  then_false s (raise x, t) e h g = absurd (cc e)

  guard_lem :
      (s : Loop W) (r : Outcome (Unit {0}) × Loop W)
      → s.idle_running ≡ true
      → Grows s r.1
      → Goes (guard r) × Grows s (guard r).1
  unfolding guard
  guard_lem s (ok _, t) i g = (inl refl, g)
  guard_lem s (raise e, t) i g =
      let (a, b) = stopped_idle e t (g.idle i) in
      then_false s (stop_now (some e) t) a b
        (Grows-trans s t (stop_now (some e) t).1 g ((stop_now-Grows (some e)).keeps t))

module _ {W : Type 0} (env : Env W) where
  -- The state when the callback of a handle was called in `s`, with its arguments, and ended; if
  -- the handle has no callback, none is called.
  abbrev pub invoked : Option Target → Loop W → Loop W
  invoked none s = s
  invoked (some (python callback)) s = (perform env (env.callback callback s.world) s).1
  invoked (some stop_method) s = (stop_now none s).1
  invoked (some (method m)) s = (perform env (env.bound_method m s.world) s).1

  -- The state when the first handle was taken out.
  abbrev pub taken_out : Loop W → ℕ → List ℕ → Loop W
  taken_out s n rest = record s { ready = rest; popped = s.popped ++ n ∷ [] }

  -- The state with the record that `_run` was called.
  abbrev noted : ℕ → Loop W → Loop W
  noted n s = record s { ran = s.ran ++ n ∷ [] }

  -- The turn of the first handle `n` of the queue, from `s` to `t`: it is taken out, and is skipped
  -- if it is cancelled; else its callback is called, and what follows only adds to what that did.
  pub record Turn (n : ℕ) (s t : Loop W) : Type 0 where
    pub rest : List ℕ
    pub first : s.ready ≡ n ∷ rest
    pub turn :
        (((s.handles n).cancelled ≡ true) × (t ≡ taken_out s n rest))
        ⊎ (((s.handles n).cancelled ≡ false)
            × Grows (invoked (s.handles n).target (noted n (taken_out s n rest))) t)

  -- The turns of the handles, one after the other.
  abbrev pub Served : List ℕ → Loop W → Loop W → Type 0
  Served [] s t = t ≡ s
  Served (n ∷ l) s t = (u : Loop W) × (Turn n s u × Served l u t)

  -- From `s` to `t` the first `k` handles of the queue had their turns.
  pub record Took (k : ℕ) (s t : Loop W) : Type 0 where
    pub added : List ℕ
    pub ready : t.ready ≡ drop k s.ready ++ added
    pub appended : t.appended ≡ s.appended ++ added
    pub popped : t.popped ≡ s.popped ++ take k s.ready
    pub idle : t.idle_running ≡ true
    pub more : List ℕ
    pub ran : t.ran ≡ s.ran ++ more
    pub next : s.next_handle ≤ t.next_handle
    pub cancelled :
        (n : ℕ)
        → n < s.next_handle
        → (s.handles n).cancelled ≡ true
        → (t.handles n).cancelled ≡ true
    pub served : Served (take k s.ready) s t

  -- The turn of a handle that was taken out of the queue.
  pub turn : ℕ → M (Loop W) Bool
  turn n s =
      branch (s.handles n).cancelled (pure true)
        (catch (do run_handle env n; pure true) (λ ex. do stop_now (some ex); pure false)) s

  pub caught-Grows :
      (r : Outcome (Unit {0}) × Loop W) (h : Exception → M (Loop W) (Unit {0}))
      → ((e : Exception) → Keeps grows (h e))
      → Grows r.1 (handle r h).1
  caught-Grows (ok a, t) h k = Grows-refl t
  caught-Grows (raise e, t) h k = (k e).keeps t

  call_target-invoked : (o : Option Target) (s : Loop W) → (call_target env o s).1 ≡ invoked o s
  unfolding call_target run_code
  call_target-invoked none s = refl
  call_target-invoked (some (python callback)) s = refl
  call_target-invoked (some stop_method) s = refl
  call_target-invoked (some (method m)) s = refl

  run_handle_eq :
      (n : ℕ) (s : Loop W)
      → (s.handles n).cancelled ≡ false
      → run_handle env n s ≡ reporting env (call_target env (s.handles n).target) (noted n s)
  unfolding run_handle
  run_handle_eq n s c = rw (c, run_handle) refl

  -- The callback is called, and what follows only adds to what it did.
  run_handle_runs :
      (n : ℕ) (s : Loop W)
      → (s.handles n).cancelled ≡ false
      → Grows (noted n s) (invoked (s.handles n).target (noted n s))
        × Grows (invoked (s.handles n).target (noted n s)) (run_handle env n s).1
  unfolding reporting
  run_handle_runs n s c =
      let o = (s.handles n).target in
      let r = call_target env o (noted n s) in
      let e : r.1 ≡ invoked o (noted n s) = call_target-invoked o (noted n s) in
      (
        subst (Grows (noted n s)) e
            ((call_target-Keeps env grows (grows_code env) o).keeps (noted n s)),
        subst (λ x. Grows (invoked o (noted n s)) x.1) (sym (run_handle_eq n s c))
            (subst (λ v. Grows v (reporting env (call_target env o) (noted n s)).1) e
              (caught-Grows r _ (λ x.
                branch-Keeps grows (is_interrupt x) (throw-Keeps grows x)
                  (call_exception_handler-Keeps env grows (grows_code env) x)))),
      )

  turn_skipped : (n : ℕ) (s : Loop W) → (s.handles n).cancelled ≡ true → turn n s ≡ (ok true, s)
  unfolding turn
  turn_skipped n s c = ground arith

  turn_runs :
      (n : ℕ) (s : Loop W) → (s.handles n).cancelled ≡ false → turn n s ≡ guard (run_handle env n s)
  unfolding turn guard
  turn_runs n s o = rw (o, branch) refl

  -- What a turn that ends in `r` does.
  abbrev pub Turned : ℕ → Loop W → Outcome Bool × Loop W → Type 0
  Turned n s r =
      Goes r
      × Grows s r.1
      × ((((s.handles n).cancelled ≡ true) × (r.1 ≡ s))
          ⊎ (((s.handles n).cancelled ≡ false)
              × Grows (invoked (s.handles n).target (noted n s)) r.1))

  pub turn_lem : (n : ℕ) (s : Loop W) → s.idle_running ≡ true → Turned n s (turn n s)
  turn_lem n s i = elim (Bool-cases (s.handles n).cancelled) [
    | inl c ↦ subst (Turned n s) (sym (turn_skipped n s c)) (inl refl, Grows-refl s, inl (c, refl))
    | inr o ↦
        let v = invoked (s.handles n).target (noted n s) in
        let (x, y) = run_handle_runs n s o in
        let (a, g) = guard_lem v (run_handle env n s) (x.idle i) y in
        subst (Turned n s) (sym (turn_runs n s o)) (
          a,
          Grows-trans s (noted n s) (guard (run_handle env n s)).1 ((more_run n).keeps s)
              (Grows-trans (noted n s) v (guard (run_handle env n s)).1 x g),
          inr (o, g),
        )
  ]

  popleft_lem :
      (s : Loop W) (n : ℕ) (rest : List ℕ)
      → s.ready ≡ n ∷ rest
      → popleft env s ≡ (ok n, taken_out s n rest)
  unfolding popleft
  popleft_lem s n rest e = ground arith

  pub run_one_lem :
      (s : Loop W) (n : ℕ) (rest : List ℕ)
      → s.ready ≡ n ∷ rest
      → run_one env s ≡ turn n (taken_out s n rest)
  unfolding run_one turn
  run_one_lem s n rest e = ap (λ r. bind r turn) (popleft_lem s n rest e)
