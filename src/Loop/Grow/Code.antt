-- ===== src/Loop/Grow/Code.antt =====
-- uvloop/loop.pyx and uvloop/cbhandles.pyx: the methods that callbacks call.
use uvloop.Prelude.{ℕ, refl, true, ◌∷◌, [], ◌++◌, ◌==◌, arith, ℤ}
use uvloop.Errors.{runtime_error}
use uvloop.Python.{M, modify}
use uvloop.Python.Frames.{Keeps, pure-Keeps, throw-Keeps, branch-Keeps, branch_of-Keeps, bind-Keeps}
use uvloop.Loop.State.{
  Action, calls_soon, calls_soon_threadsafe, calls_later, cancels, cancels_timer, stops,
  queues_write, Env, Loop, update, check_closed,
}
use uvloop.Loop.Queue.{
  clear_timer, cancel_timer, new_timer_handle, to_delay, call_later, returns_zero, act, run_timer,
}
use uvloop.Loop.Code.{Code, run_timer-Keeps}
use uvloop.Loop.Grow.{grows, aside, aside-Grows}
use uvloop.Loop.Grow.Methods.{
  cancel-Grows, call_soon-Grows, call_soon_threadsafe-Grows, stop-Grows, stop_now-Grows,
  queue_write-Grows, more_run,
}

module _ {W : Type 0} where
  pub clear_timer-Grows : (n : ℕ) → Keeps grows (clear_timer {W = W} n)
  unfolding clear_timer
  clear_timer-Grows n = record { keeps = λ s. aside s (clear_timer n s).1 (ground arith) }

  set_cancelled : ℕ → Loop W → Loop W
  set_cancelled n t = record t {
    timer_handles = update t.timer_handles n (record (t.timer_handles n) { cancelled = true });
  }

  pub cancel_timer-Grows : (n : ℕ) → Keeps grows (cancel_timer {W = W} n)
  unfolding cancel_timer set_cancelled
  cancel_timer-Grows n =
      branch_of-Keeps grows (λ s. (s.timer_handles n).cancelled) (pure-Keeps grows tt)
        (bind-Keeps grows (aside-Grows (set_cancelled n) (λ s. refl)) (λ _. clear_timer-Grows n))

module _ {W : Type 0} (env : Env W) where
  returns_zero-Grows :
      {m : M (Loop W) (Unit {0})} → Keeps grows m → Keeps grows (returns_zero env m)
  unfolding returns_zero
  returns_zero-Grows h = bind-Keeps grows h (λ _. pure-Keeps grows 0)

  new_timer_handle-Grows : (delay callback : ℕ) → Keeps grows (new_timer_handle env delay callback)
  unfolding new_timer_handle
  new_timer_handle-Grows delay callback = record {
    keeps = λ s. aside s (new_timer_handle env delay callback s).1 refl;
  }

  call_later-Grows : (delay : ℤ) (callback : ℕ) → Keeps grows (call_later env delay callback)
  unfolding call_later check_closed
  call_later-Grows delay callback =
      bind-Keeps grows
        (branch_of-Keeps grows (λ s. s.closed) (throw-Keeps grows runtime_error)
          (pure-Keeps grows tt))
        (λ _.
          branch-Keeps grows (to_delay env delay == 0) (call_soon-Grows callback)
            (new_timer_handle-Grows (to_delay env delay) callback))

  pub act-Grows : (action : Action) → Keeps grows (act env action)
  unfolding act
  act-Grows (calls_soon callback) = call_soon-Grows callback
  act-Grows (calls_soon_threadsafe callback) = call_soon_threadsafe-Grows callback
  act-Grows (calls_later delay callback) = call_later-Grows delay callback
  act-Grows (cancels n) = returns_zero-Grows (cancel-Grows n)
  act-Grows (cancels_timer n) = returns_zero-Grows (cancel_timer-Grows n)
  act-Grows stops = returns_zero-Grows stop-Grows
  act-Grows (queues_write stream) = returns_zero-Grows (queue_write-Grows stream)

  pub grows_code : Code env grows
  grows_code = record {
    acts = act-Grows;
    worlds = λ w. aside-Grows (λ s. record s { world = w }) (λ s. refl);
    reports = λ e. aside-Grows (λ s. record s { reported = s.reported ++ e ∷ [] }) (λ s. refl);
    runs = more_run;
    stops = stop_now-Grows;
  }

  pub fires-Grows :
      (n : ℕ)
      → Keeps (grows {W = W}) (modify (λ s. record s { ran_timers = s.ran_timers ++ n ∷ [] }))
  fires-Grows n = aside-Grows (λ s. record s { ran_timers = s.ran_timers ++ n ∷ [] }) (λ s. refl)

  pub run_timer-Grows : (n : ℕ) → Keeps grows (run_timer env n)
  run_timer-Grows n = run_timer-Keeps env grows grows_code fires-Grows clear_timer-Grows n
