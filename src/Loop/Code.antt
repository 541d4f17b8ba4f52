-- ===== src/Loop/Code.antt =====
-- uvloop/loop.pyx and uvloop/cbhandles.pyx: rules for running user code. What the loop's own
-- methods keep, callbacks keep too, whatever they call and however they end.
use uvloop.Prelude.{ℕ, ◌∷◌, [], ◌++◌, Option, none, some}
use uvloop.Errors.{Exception, is_interrupt, runtime_error}
use uvloop.Python.{M, throw, modify, branch, catch}
use uvloop.Python.Frames.{
  Frame, Keeps, pure-Keeps, throw-Keeps, branch-Keeps, catch-Keeps, bind-Keeps, finally-Keeps,
  Keeps-map,
}
use uvloop.Loop.State.{Action, Program, done, call, Target, python, stop_method, method, Env, Loop}
use uvloop.Loop.Queue.{
  stop_now, clear_timer, act, perform, run_code, default_handler, call_exception_handler, reporting,
  call_target, run_handle, call_timer, run_timer,
}

-- What the methods that a callback calls keep, and the records of what happens.
pub record Code {W : Type 0} (env : Env W) (F : Frame (Loop W)) : Type 0 where
  pub acts : (action : Action) → Keeps F (act env action)
  pub worlds : (w : W) → Keeps F (modify (λ s. record s { world = w }))
  pub reports :
      (e : Exception) → Keeps F (modify (λ s. record s { reported = s.reported ++ e ∷ [] }))
  pub runs : (n : ℕ) → Keeps F (modify (λ s. record s { ran = s.ran ++ n ∷ [] }))
  pub stops : (exc : Option Exception) → Keeps F (stop_now exc)

-- A frame that says less keeps as much.
pub Code-map :
    {W : Type 0} {env : Env W} {F : Frame (Loop W)} (G : Frame (Loop W))
    → ((s t : Loop W) → F.Rel s t → G.Rel s t)
    → Code env F
    → Code env G
Code-map {F = F} G f k = record {
  acts = λ a. Keeps-map F G f (k.acts a);
  worlds = λ w. Keeps-map F G f (k.worlds w);
  reports = λ e. Keeps-map F G f (k.reports e);
  runs = λ n. Keeps-map F G f (k.runs n);
  stops = λ e. Keeps-map F G f (k.stops e);
}

module _ {W : Type 0} (env : Env W) (F : Frame (Loop W)) (k : Code env F) where
  perform-Keeps : (p : Program W) (s : Loop W) → F.Rel s (perform env p s).1
  unfolding perform
  perform-Keeps (done outcome w) s = (k.worlds w).keeps s
  perform-Keeps (call action next) s =
      F.both s (act env action s).1 (perform env (next (act env action s).0) (act env action s).1).1
        ((k.acts action).keeps s) (perform-Keeps (next (act env action s).0) (act env action s).1)

  pub run_code-Keeps : (f : W → Program W) → Keeps F (run_code env f)
  unfolding run_code
  run_code-Keeps f = record { keeps = λ s. perform-Keeps (f s.world) s }

  default_handler-Keeps : (exc : Exception) → Keeps F (default_handler env exc)
  unfolding default_handler
  default_handler-Keeps exc =
      catch-Keeps F (run_code-Keeps (env.default_exception_handler exc))
        (λ e. branch-Keeps F (is_interrupt e) (throw-Keeps F e) (pure-Keeps F tt))

  handled : Option (Exception → W → Program W) → Exception → M (Loop W) (Unit {0})
  handled o exc = elim o [
    | none ↦ default_handler env exc
    | some handler ↦
        catch (run_code env (handler exc))
          (λ e. branch (is_interrupt e) (throw e) (default_handler env e))
  ]

  handled-Keeps :
      (o : Option (Exception → W → Program W)) (exc : Exception) → Keeps F (handled o exc)
  unfolding handled
  handled-Keeps none exc = default_handler-Keeps exc
  handled-Keeps (some handler) exc =
      catch-Keeps F (run_code-Keeps (handler exc))
        (λ e. branch-Keeps F (is_interrupt e) (throw-Keeps F e) (default_handler-Keeps e))

  pub call_exception_handler-Keeps : (exc : Exception) → Keeps F (call_exception_handler env exc)
  unfolding call_exception_handler handled
  call_exception_handler-Keeps exc =
      bind-Keeps F (k.reports exc) (λ _. handled-Keeps env.exception_handler exc)

  pub reporting-Keeps : {m : M (Loop W) (Unit {0})} → Keeps F m → Keeps F (reporting env m)
  unfolding reporting
  reporting-Keeps h =
      catch-Keeps F h
        (λ e. branch-Keeps F (is_interrupt e) (throw-Keeps F e) (call_exception_handler-Keeps e))

  pub call_target-Keeps : (t : Option Target) → Keeps F (call_target env t)
  unfolding call_target
  call_target-Keeps none = throw-Keeps F runtime_error
  call_target-Keeps (some (python callback)) = run_code-Keeps (env.callback callback)
  call_target-Keeps (some stop_method) = k.stops none
  call_target-Keeps (some (method m)) = run_code-Keeps (env.bound_method m)

  pub run_handle-Keeps : (n : ℕ) → Keeps F (run_handle env n)
  unfolding run_handle
  run_handle-Keeps n = record {
    keeps = λ s.
        (branch-Keeps F (s.handles n).cancelled (pure-Keeps F tt) (
            bind-Keeps F (k.runs n)
              (λ _. reporting-Keeps (call_target-Keeps (s.handles n).target)))).keeps
          s;
  }

-- A timer's callback.
module _ {W : Type 0} (env : Env W) (F : Frame (Loop W)) (k : Code env F)
    (fires : (n : ℕ) → Keeps F (modify (λ s. record s { ran_timers = s.ran_timers ++ n ∷ [] })))
    (clears : (n : ℕ) → Keeps F (clear_timer n)) where
  call_timer-Keeps : (n : ℕ) (c : Option ℕ) → Keeps F (call_timer env n c)
  unfolding call_timer
  call_timer-Keeps n none = throw-Keeps F runtime_error
  call_timer-Keeps n (some callback) = bind-Keeps F (fires n) (λ _.
      finally-Keeps F (reporting-Keeps env F k (run_code-Keeps env F k (env.callback callback)))
        (clears n))

  pub run_timer-Keeps : (n : ℕ) → Keeps F (run_timer env n)
  unfolding run_timer
  run_timer-Keeps n = record {
    keeps = λ s.
        (branch-Keeps F (s.timer_handles n).cancelled (pure-Keeps F tt)
            (call_timer-Keeps n (s.timer_handles n).callback)).keeps
          s;
  }
