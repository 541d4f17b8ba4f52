-- ===== src/Loop/Tests.antt =====
-- uvloop/loop.pyx and uvloop/cbhandles.pyx: the theorems on a concrete loop, and tests.
use uvloop.Prelude.{
  ℕ, zero, suc, ◌≤◌, ◌<◌, ◌≡◌, refl, ◌⊎◌, true, false, List, [], ◌∷◌, ◌++◌, none, some, length, All,
  pos, arith,
}
use uvloop.Errors.{value_error}
use uvloop.Python.{ok, raise}
use uvloop.Loop.State.{
  calls_soon, calls_soon_threadsafe, calls_later, cancels, stops, queues_write, Program, done, call,
  Env, Loop, contains,
}
use uvloop.Loop.Queue.{cancel_timer}
use uvloop.Loop.Rounds.{Event, idles, checks, wakes, timer_fires, acts, run, react, on_idle}
use uvloop.Loop.Grow.{Grows, asleep, unwritten}
use uvloop.Loop.Steady.{run-awake, run-queue}
use uvloop.Loop.Timers.{called, Once, run-Once, react-fires, cancel_timer-clears}
use uvloop.Loop.Known.{run-Known}
use uvloop.Loop.Round.{Passed, on_idle_lem}

-- Callback 1 schedules callback 0 and cancels handle 1; callback 2 raises; callback 3 stops the
-- loop; callback 4 queues a write of stream 7 and schedules callback 2 for later.
abbrev program : ℕ → ℕ → Program ℕ
program zero w = done (ok tt) (suc w)
program (suc zero) w = call (calls_soon 0) (λ _. call (cancels 1) (λ _. done (ok tt) (suc w)))
program (suc (suc zero)) w = done (raise value_error) w
program (suc (suc (suc zero))) w = call stops (λ _. done (ok tt) w)
program (suc (suc (suc (suc n)))) w =
    call (queues_write 7) (λ _. call (calls_later (pos 5) 2) (λ _. done (ok tt) (suc w)))

abbrev test_env : Env ℕ
test_env = record {
  callback = program;
  bound_method = λ m. program 0;
  exec_write = λ stream. program 0;
  default_exception_handler = λ e w. done (ok tt) w;
  exception_handler = none;
  in_order = λ l. l;
  now = λ w. w;
}

abbrev new_loop : Loop ℕ
new_loop = record {
  world = 0;
  closed = false;
  stopping = false;
  last_error = none;
  ready = [];
  handles = λ n. record { cancelled = false; target = none };
  next_handle = 0;
  timer_handles = λ n. record { cancelled = false; callback = none; timer = false; when = 0 };
  next_timer = 0;
  timers = [];
  queued_streams = [];
  executing_streams = [];
  idle_running = false;
  check_running = false;
  async_sent = false;
  uv_stopped = false;
  appended = [];
  popped = [];
  ran = [];
  ran_timers = [];
  written = [];
  reported = [];
}

abbrev events : List Event
events =
    acts (calls_soon 1)
    ∷ acts (calls_soon_threadsafe 0)
    ∷ wakes
    ∷ idles
    ∷ acts (calls_soon 4)
    ∷ idles
    ∷ timer_fires 0
    ∷ acts (calls_soon 3)
    ∷ checks
    ∷ idles
    ∷ []

scheduled : Loop ℕ
scheduled =
    run test_env new_loop (acts (calls_soon 1) ∷ acts (calls_soon 0) ∷ acts (calls_soon 2) ∷ [])

timed : Loop ℕ
timed = run test_env new_loop (acts (calls_later (pos 5) 2) ∷ [])

-- Handle 1 is cancelled by the callback of handle 0 and is not called; callback 2 of the timer
-- raises.
popped_test : (run test_env new_loop events).popped ≡ 0 ∷ 1 ∷ 2 ∷ 3 ∷ 4 ∷ []
unfolding run
popped_test = refl

ran_test : (run test_env new_loop events).ran ≡ 0 ∷ 2 ∷ 3 ∷ 4 ∷ []
unfolding run
ran_test = refl

ran_timers_test : (run test_env new_loop events).ran_timers ≡ 0 ∷ []
unfolding run
ran_timers_test = refl

written_test : (run test_env new_loop events).written ≡ 7 ∷ []
unfolding run
written_test = refl

reported_test : (run test_env new_loop events).reported ≡ value_error ∷ []
unfolding run
reported_test = refl

run-awake_example :
    (asleep (run test_env new_loop events) ≡ false)
    × (unwritten (run test_env new_loop events) ≡ false)
run-awake_example = run-awake test_env new_loop events refl refl

run-queue_example :
    (run test_env new_loop events).popped ++ (run test_env new_loop events).ready
    ≡ (run test_env new_loop events).appended
run-queue_example = run-queue test_env new_loop events refl

new_loop-Once : Once new_loop
new_loop-Once = record {
  timed = record {
    known = λ n. refl;
    armed = λ n h. absurd (cc h);
    quiet = λ n h. refl;
    made = λ n l. refl;
  };
  once = λ n. omega arith;
  fresh = λ n h. refl;
  unmade = λ n l. refl;
}

run-Once_example : Once (run test_env new_loop events)
run-Once_example = run-Once test_env new_loop events new_loop-Once

timed-Once : Once timed
unfolding timed
timed-Once = run-Once test_env new_loop (acts (calls_later (pos 5) 2) ∷ []) new_loop-Once

timed-timer : (timed.timer_handles 0).timer ≡ true
unfolding timed run
timed-timer = refl

react-fires_example :
    ((c : ℕ) × (((timed.timer_handles 0).callback ≡ some c)
        × Grows (called test_env 0 c timed) (react test_env (timer_fires 0) timed).1))
    × ((react test_env (timer_fires 0) timed).1.ran_timers ≡ timed.ran_timers ++ 0 ∷ [])
    × (((react test_env (timer_fires 0) timed).1.timer_handles 0).timer ≡ false)
    × (contains 0 (react test_env (timer_fires 0) timed).1.timers ≡ false)
react-fires_example = react-fires test_env 0 timed timed-Once timed-timer

cancel_timer-clears_example :
    ((cancel_timer 0 timed).0 ≡ ok tt)
    × (((cancel_timer 0 timed).1.timer_handles 0).cancelled ≡ true)
    × (((cancel_timer 0 timed).1.timer_handles 0).timer ≡ false)
    × (contains 0 (cancel_timer 0 timed).1.timers ≡ false)
cancel_timer-clears_example = cancel_timer-clears test_env 0 timed timed-Once

scheduled-Known : All (λ n. n < scheduled.next_handle) scheduled.ready
unfolding scheduled
scheduled-Known =
    run-Known test_env new_loop
      (acts (calls_soon 1) ∷ acts (calls_soon 0) ∷ acts (calls_soon 2) ∷ []) tt

scheduled-idle : scheduled.idle_running ≡ true
unfolding scheduled run
scheduled-idle = refl

on_idle_example :
    (k : ℕ) × ((k ≤ length scheduled.ready)
      × Passed test_env k scheduled (on_idle test_env scheduled).1
      × ((k ≡ length scheduled.ready) ⊎ ((on_idle test_env scheduled).1.stopping ≡ true)))
on_idle_example = on_idle_lem test_env scheduled scheduled-idle scheduled-Known
