-- ===== src/Loop/Steady.antt =====
-- uvloop/loop.pyx: what stays true of the loop whatever happens to it: it does not sleep while
-- there is work, and its queue is a queue.
use mathlib.Core.List.{append_assoc}
use uvloop.Prelude.{ℕ, ◌≡◌, refl, sym, ap, ◌∙◌, false, List, [], ◌∷◌, ◌++◌, some, arith}
use uvloop.Errors.{Exception}
use uvloop.Python.{M, catch, handle, ok, raise, Outcome}
use uvloop.Python.Frames.{Keeps, preserves}
use uvloop.Loop.State.{Env, Loop, idle_start}
use uvloop.Loop.Queue.{run_timer}
use uvloop.Loop.Rounds.{
  Event, popleft, on_wake, async_callback, timer_callback, guarded, handle_exception, run,
}
use uvloop.Loop.Code.{Code, Code-map}
use uvloop.Loop.Grow.{asleep, unwritten}
use uvloop.Loop.Grow.Code.{run_timer-Grows}
use uvloop.Loop.Later.{Later, Later-of, later_code, later-Writes}
use uvloop.Loop.Turns.{Turns, Writes-map, run_keeps, handle_exception-Keeps}

module _ {W : Type 0} (env : Env W) where
  -- The state when the first handle of the queue is taken out of it.
  popleft-empty : (s : Loop W) → s.ready ≡ [] → (popleft env s).1 ≡ s
  unfolding popleft
  popleft-empty s e = ground arith

  popleft-full :
      (s : Loop W) (n : ℕ) (rest : List ℕ)
      → s.ready ≡ n ∷ rest
      → (popleft env s).1 ≡ record s { ready = rest; popped = s.popped ++ n ∷ [] }
  unfolding popleft
  popleft-full s n rest e = ground arith

  pub popleft_by :
      (P : Loop W → Loop W → Type 0)
      → ((s : Loop W) → P s s)
      → ((s : Loop W) (n : ℕ) (rest : List ℕ)
          → s.ready ≡ n ∷ rest
          → P s (record s { ready = rest; popped = s.popped ++ n ∷ [] }))
      → (s : Loop W) → P s (popleft env s).1
  popleft_by P h0 h1 s = go s.ready refl
    where
      go : (l : List ℕ) → s.ready ≡ l → P s (popleft env s).1
      go [] e = rw (popleft-empty s e) (h0 s)
      go (n ∷ rest) e = rw (popleft-full s n rest e) (h1 s n rest e)

  on_wake_lem : (s : Loop W) → asleep (on_wake env s).1 ≡ false
  unfolding on_wake idle_start
  on_wake_lem s = ground arith

  caught :
      (P : Loop W → Type 0) (m : M (Loop W) (Unit {0})) (h : Exception → M (Loop W) (Unit {0}))
      (s : Loop W)
      → P (m s).1
      → ((e : Exception) → Keeps (preserves P) (h e))
      → P (catch m h s).1
  caught P m h s p k = go (m s) p
    where
      go : (r : Outcome (Unit {0}) × Loop W) → P r.1 → P (handle r h).1
      go (ok u, t) q = q
      go (raise e, t) q = (k e).keeps t q

  -- A property of the state that a frame of the whole loop keeps.
  module _ (P : Loop W → Type 0) (f : (s t : Loop W) → Later s t → P s → P t)
      (ends : (e : Exception) (s : Loop W) → P s → P (record s { last_error = some e })) where
    code_of : Code env (preserves P)
    code_of = Code-map (preserves P) f (later_code env)

    Turns-of :
        Keeps (preserves P) (popleft env)
        → Keeps (preserves P) (on_wake env)
        → ((s : Loop W) → P s → P (on_wake env (record s { async_sent = false })).1)
        → Turns env (preserves P)
    unfolding async_callback timer_callback guarded
    Turns-of pops woken async = record {
      code = code_of;
      writes = Writes-map (preserves P) f later-Writes;
      pops = pops;
      ends = λ e. record { keeps = ends e };
      woken = woken;
      async = record {
        keeps = λ s h.
            caught P (on_wake env) (handle_exception env) (record s { async_sent = false })
              (async s h)
              (handle_exception-Keeps env (preserves P) code_of (λ e. record { keeps = ends e }));
      };
      fires = λ n s _ h.
          caught P (run_timer env n) (handle_exception env) s
            (f s (run_timer env n s).1
              (Later-of s (run_timer env n s).1 ((run_timer-Grows env n).keeps s)) h)
            (handle_exception-Keeps env (preserves P) code_of (λ e. record { keeps = ends e }));
    }

  abbrev pub IsAwake : Loop W → Type 0
  IsAwake s = asleep s ≡ false

  abbrev pub WillWrite : Loop W → Type 0
  WillWrite s = unwritten s ≡ false

  abbrev pub IsQueue : Loop W → Type 0
  IsQueue s = s.popped ++ s.ready ≡ s.appended

  IsAwake-Turns : Turns env (preserves IsAwake)
  IsAwake-Turns =
      Turns-of IsAwake (λ s t l h. l.awake h) (λ e s h. h)
        (record {
          keeps =
              popleft_by (λ s t. IsAwake s → IsAwake t) (λ s h. h) (λ s n rest e h. ground arith);
        })
        (record { keeps = λ s h. on_wake_lem s })
        (λ s h. on_wake_lem (record s { async_sent = false }))

  write-Turns : Turns env (preserves WillWrite)
  unfolding on_wake idle_start
  write-Turns =
      Turns-of WillWrite (λ s t l h. l.writes h) (λ e s h. h)
        (record {
          keeps = popleft_by (λ s t. WillWrite s → WillWrite t) (λ s h. h) (λ s n rest e h. h);
        })
        (record { keeps = λ s h. ground arith }) (λ s h. ground arith)

  IsQueue-Later : (s t : Loop W) → Later s t → IsQueue s → IsQueue t
  IsQueue-Later s t l h =
      rw (l.popped, l.ready, l.appended, sym h) (sym (append_assoc s.popped s.ready l.added))

  on_wake-IsQueue : (s : Loop W) → IsQueue s → IsQueue (on_wake env s).1
  unfolding on_wake idle_start
  on_wake-IsQueue s h = ground arith

  IsQueue-Turns : Turns env (preserves IsQueue)
  IsQueue-Turns =
      Turns-of IsQueue IsQueue-Later (λ e s h. h)
        (record {
          keeps =
              popleft_by (λ s t. IsQueue s → IsQueue t) (λ s h. h)
                (λ s n rest e h.
                  append_assoc s.popped (n ∷ []) rest ∙ ap (λ l. s.popped ++ l) (sym e) ∙ h);
        })
        (record { keeps = on_wake-IsQueue })
        (λ s h. on_wake-IsQueue (record s { async_sent = false }) h)

  -- If it is so before, then it is so after any sequence of events, whatever user code does in
  -- them: while the loop is open and callbacks wait or it is to stop, the idle handler runs, or the
  -- async handler was sent, or `uv_stop` was called; and while the loop is open and the set of
  -- queued streams is not empty, the check handler runs.
  pub run-awake :
      (s : Loop W) (es : List Event)
      → asleep s ≡ false
      → unwritten s ≡ false
      → (asleep (run env s es) ≡ false) × (unwritten (run env s es) ≡ false)
  run-awake s es h w = (
    run_keeps env (preserves IsAwake) IsAwake-Turns s es h,
    run_keeps env (preserves WillWrite) write-Turns s es w,
  )

  -- If the handles taken out of the queue so far and then those in it are the handles put into it,
  -- in order, then so they are after any sequence of events, whatever user code does in them: the
  -- queue is first in, first out, and no handle that was put into it leaves it but at its front.
  pub run-queue :
      (s : Loop W) (es : List Event)
      → s.popped ++ s.ready ≡ s.appended
      → (run env s es).popped ++ (run env s es).ready ≡ (run env s es).appended
  run-queue s es h = run_keeps env (preserves IsQueue) IsQueue-Turns s es h
