-- ===== src/Loop/Rounds.antt =====
-- uvloop/loop.pyx: what the loop does when libuv calls it back, and a run of the loop.
use uvloop.Prelude.{
  ℕ, zero, suc, Bool, true, false, not, ◌&&◌, ◌||◌, List, [], ◌∷◌, ◌++◌, none, some, ◌==◌, ltb,
  length,
}
use uvloop.Errors.{Exception, index_error, is_exception}
use uvloop.Python.{
  M, ok, raise, ◌>>=◌, ◌>>◌, pure, get_state, modify, branch, whenever, catch, finally,
}
use uvloop.Loop.State.{Action, Env, Loop, idle_start, idle_stop, check_stop}
use uvloop.Loop.Queue.{
  stop_now, run_code, call_exception_handler, run_handle, run_timer, reporting, act,
}

-- What happens while `uv_run` runs: libuv calls an idle or a check callback only of a running
-- handle, an async callback after a send, a timer's callback while the timer exists; and other
-- handles call user code, as do other threads.
pub data Event : Type 0 where
  idles checks wakes : Event
  timer_fires : ℕ → Event
  acts : Action → Event

module _ {W : Type 0} (env : Env W) where
  unfoldable pub handle_exception : Exception → M (Loop W) (Unit {0})
  unfolding call_exception_handler stop_now
  handle_exception ex =
      branch (is_exception ex) (call_exception_handler env ex)
        (do modify (λ s. record s { last_error = some ex }); stop_now none)

  -- `UVHandle._error(ex, False)` round a callback of libuv.
  unfoldable pub guarded : M (Loop W) (Unit {0}) → M (Loop W) (Unit {0})
  unfolding handle_exception
  guarded m = catch m handle_exception

  -- `self._ready.popleft()`
  unfoldable pub popleft : M (Loop W) ℕ
  popleft s = elim s.ready [
    | [] ↦ (raise index_error, s)
    | n ∷ rest ↦ (ok n, record s { ready = rest; popped = s.popped ++ n ∷ [] })
  ]

  -- One handle of a round: whether the round goes on.
  unfoldable pub run_one : M (Loop W) Bool
  unfolding popleft run_handle stop_now
  run_one = do
    n ← popleft
    s ← get_state
    branch (s.handles n).cancelled (pure true)
        (catch (do run_handle env n; pure true) (λ ex. do stop_now (some ex); pure false))

  -- The `for` loop of `_on_idle`; `false` stands for its `return`.
  unfoldable pub run_ready : ℕ → M (Loop W) Bool
  unfolding run_one
  run_ready zero = pure true
  run_ready (suc ntodo) = do goes_on ← run_one; branch goes_on (run_ready ntodo) (pure false)

  unfoldable pub write_each : List ℕ → M (Loop W) (Unit {0})
  unfolding run_code
  write_each [] = pure tt
  write_each (stream ∷ streams) = do
    modify (λ s. record s { written = s.written ++ stream ∷ [] })
    run_code env (env.exec_write stream)
    write_each streams

  -- The sets change places: what is queued during the writes goes into the other set.
  unfoldable pub exec_queued_writes : M (Loop W) (Unit {0})
  unfolding check_stop write_each
  exec_queued_writes s =
      branch (length s.queued_streams == 0) (whenever s.check_running check_stop)
        (do
          modify (λ t. record t {
            queued_streams = t.executing_streams;
            executing_streams = t.queued_streams;
          })
          finally (write_each (env.in_order s.queued_streams))
              (modify (λ t. record t { executing_streams = [] }))
          t ← get_state
          whenever (t.check_running && length t.queued_streams == 0) check_stop)
        s

  -- The end of `_on_idle`.
  unfoldable pub finish_round : M (Loop W) (Unit {0})
  unfolding exec_queued_writes idle_stop
  finish_round = do
    s ← get_state
    branch (length s.queued_streams == 0) (pure tt) exec_queued_writes
    t ← get_state
    whenever (length t.ready == 0 && t.idle_running) idle_stop
    u ← get_state
    whenever u.stopping (modify (λ v. record v { uv_stopped = true }))

  unfoldable pub on_idle : M (Loop W) (Unit {0})
  unfolding run_ready finish_round
  on_idle s = (do goes_on ← run_ready (length s.ready); whenever goes_on finish_round) s

  unfoldable pub on_wake : M (Loop W) (Unit {0})
  unfolding idle_start
  on_wake s = whenever ((ltb 0 (length s.ready) || s.stopping) && not s.idle_running) idle_start s

  -- The callbacks of libuv. `_on_idle` and `_exec_queued_writes` run as methods of a `Handle`.
  unfoldable pub idle_callback : M (Loop W) (Unit {0})
  unfolding guarded reporting on_idle
  idle_callback = guarded (reporting env on_idle)

  unfoldable pub check_callback : M (Loop W) (Unit {0})
  unfolding guarded reporting exec_queued_writes
  check_callback = guarded (reporting env exec_queued_writes)

  unfoldable pub async_callback : M (Loop W) (Unit {0})
  unfolding guarded on_wake
  async_callback = do modify (λ s. record s { async_sent = false }); guarded on_wake

  unfoldable pub timer_callback : ℕ → M (Loop W) (Unit {0})
  unfolding guarded run_timer
  timer_callback n = guarded (run_timer env n)

  unfoldable pub react : Event → M (Loop W) (Unit {0})
  unfolding idle_callback check_callback async_callback timer_callback act
  react idles s = whenever s.idle_running idle_callback s
  react checks s = whenever s.check_running check_callback s
  react wakes s = whenever s.async_sent async_callback s
  react (timer_fires n) s = whenever (s.timer_handles n).timer (timer_callback n) s
  react (acts action) s = (do _ ← act env action; pure tt) s

  unfoldable pub step : Loop W → Event → Loop W
  unfolding react
  step s e = (react e s).1

  unfoldable pub run : Loop W → List Event → Loop W
  unfolding step
  run s [] = s
  run s (e ∷ es) = run (step s e) es
