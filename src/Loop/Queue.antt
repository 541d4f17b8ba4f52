-- ===== src/Loop/Queue.antt =====
-- uvloop/loop.pyx and uvloop/cbhandles.pyx: how callbacks get into the loop, and how user code
-- runs.
use uvloop.Prelude.{
  ℕ, suc, ◌+◌, ◌*◌, true, false, [], ◌∷◌, ◌++◌, Option, none, some, ◌==◌, ltb, if◌then◌else◌, ℤ,
  pos, negsuc,
}
use uvloop.Errors.{Exception, runtime_error, key_error, is_interrupt}
use uvloop.Python.{
  M, ok, ◌>>=◌, ◌>>◌, pure, throw, get_state, modify, branch, whenever, catch, finally,
}
use uvloop.Loop.State.{
  Action, calls_soon, calls_soon_threadsafe, calls_later, cancels, cancels_timer, stops,
  queues_write, Program, done, call, Target, python, stop_method, method, Env, Loop, update,
  contains, add, remove, idle_start, check_start, async_send, check_closed,
}

module _ {W : Type 0} where
  -- `new_Handle` and its kin
  unfoldable pub new_handle : Target → M (Loop W) ℕ
  new_handle target s = (
    ok s.next_handle,
    record s {
      handles = update s.handles s.next_handle (record { cancelled = false; target = some target });
      next_handle = suc s.next_handle;
    },
  )

  unfoldable pub append_ready_handle : ℕ → M (Loop W) (Unit {0})
  unfolding check_closed
  append_ready_handle n = do
    check_closed
    modify (λ s. record s { ready = s.ready ++ n ∷ []; appended = s.appended ++ n ∷ [] })

  unfoldable pub call_soon_handle : ℕ → M (Loop W) (Unit {0})
  unfolding append_ready_handle idle_start
  call_soon_handle n = do
    append_ready_handle n
    s ← get_state
    branch s.idle_running (pure tt) idle_start

  unfoldable pub call_soon : ℕ → M (Loop W) ℕ
  unfolding new_handle call_soon_handle
  call_soon callback = do n ← new_handle (python callback); call_soon_handle n; pure n

  unfoldable pub call_soon_threadsafe : ℕ → M (Loop W) ℕ
  unfolding new_handle append_ready_handle async_send
  call_soon_threadsafe callback = do
    n ← new_handle (python callback)
    append_ready_handle n
    async_send
    pure n

  -- `stop()`
  unfoldable pub stop : M (Loop W) (Unit {0})
  unfolding new_handle call_soon_handle
  stop = do n ← new_handle stop_method; call_soon_handle n

  unfoldable pub stop_now : Option Exception → M (Loop W) (Unit {0})
  unfolding idle_start
  stop_now exc = do
    modify (λ s. record s { last_error = elim exc [ none ↦ s.last_error | some e ↦ some e ] })
    s ← get_state
    branch s.stopping (pure tt)
        (do modify (λ t. record t { stopping = true }); branch s.idle_running (pure tt) idle_start)

  -- `Handle._cancel`
  unfoldable pub cancel : ℕ → M (Loop W) (Unit {0})
  cancel n =
      modify (λ s. record s {
        handles = update s.handles n (record { cancelled = true; target = none });
      })

  unfoldable pub queue_write : ℕ → M (Loop W) (Unit {0})
  unfolding check_start
  queue_write stream = do
    modify (λ s. record s { queued_streams = add stream s.queued_streams })
    s ← get_state
    branch s.check_running (pure tt) check_start

  -- `TimerHandle._clear`: `set.remove` raises where the handle is not in the set.
  unfoldable pub clear_timer : ℕ → M (Loop W) (Unit {0})
  clear_timer n s =
      whenever (s.timer_handles n).timer
        (do
          modify (λ t. record t {
            timer_handles =
                update t.timer_handles n (record (t.timer_handles n) { callback = none });
          })
          finally
              (branch (contains n s.timers) (modify (λ t. record t { timers = remove n t.timers }))
                (throw key_error))
              (modify (λ t. record t {
                timer_handles =
                    update t.timer_handles n (record (t.timer_handles n) { timer = false });
              })))
        s

  -- `TimerHandle._cancel`
  unfoldable pub cancel_timer : ℕ → M (Loop W) (Unit {0})
  unfolding clear_timer
  cancel_timer n s =
      branch (s.timer_handles n).cancelled (pure tt)
        (do
          modify (λ t. record t {
            timer_handles =
                update t.timer_handles n (record (t.timer_handles n) { cancelled = true });
          })
          clear_timer n)
        s

module _ {W : Type 0} (env : Env W) where
  -- `TimerHandle(...)`
  unfoldable pub new_timer_handle : ℕ → ℕ → M (Loop W) ℕ
  new_timer_handle delay callback s = (
    ok s.next_timer,
    record s {
      timer_handles = update s.timer_handles s.next_timer (record {
        cancelled = false;
        callback = some callback;
        timer = true;
        when = env.now s.world + delay;
      });
      timers = add s.next_timer s.timers;
      next_timer = suc s.next_timer;
    },
  )

  -- `MAX_SLEEP`, in milliseconds.
  abbrev pub max_sleep : ℕ
  max_sleep = 3155760000 * 1000

  abbrev pub to_delay : ℤ → ℕ
  to_delay (pos n) = if ltb max_sleep n then max_sleep else n
  to_delay (negsuc n) = 0

  unfoldable pub call_later : ℤ → ℕ → M (Loop W) ℕ
  unfolding check_closed call_soon new_timer_handle
  call_later delay callback = do
    check_closed
    branch (to_delay delay == 0) (call_soon callback) (new_timer_handle (to_delay delay) callback)

  unfoldable pub returns_zero : M (Loop W) (Unit {0}) → M (Loop W) ℕ
  returns_zero m = do m; pure 0

  unfoldable pub act : Action → M (Loop W) ℕ
  unfolding call_soon call_soon_threadsafe call_later cancel cancel_timer stop queue_write
      returns_zero
  act (calls_soon callback) = call_soon callback
  act (calls_soon_threadsafe callback) = call_soon_threadsafe callback
  act (calls_later delay callback) = call_later delay callback
  act (cancels n) = returns_zero (cancel n)
  act (cancels_timer n) = returns_zero (cancel_timer n)
  act stops = returns_zero stop
  act (queues_write stream) = returns_zero (queue_write stream)

  -- A run of user code.
  unfoldable pub perform : Program W → M (Loop W) (Unit {0})
  unfolding act
  perform (done outcome w) s = (outcome, record s { world = w })
  perform (call action next) s = perform (next (act action s).0) (act action s).1

  unfoldable pub run_code : (W → Program W) → M (Loop W) (Unit {0})
  unfolding perform
  run_code f s = perform (f s.world) s

  -- The default handler, guarded.
  unfoldable pub default_handler : Exception → M (Loop W) (Unit {0})
  unfolding run_code
  default_handler exc =
      catch (run_code (env.default_exception_handler exc))
        (λ e. branch (is_interrupt e) (throw e) (pure tt))

  unfoldable pub call_exception_handler : Exception → M (Loop W) (Unit {0})
  unfolding run_code default_handler
  call_exception_handler exc = do
    modify (λ s. record s { reported = s.reported ++ exc ∷ [] })
    elim env.exception_handler [
      | none ↦ default_handler exc
      | some handler ↦
          catch (run_code (handler exc))
            (λ e. branch (is_interrupt e) (throw e) (default_handler e))
    ]

  -- `except (KeyboardInterrupt, SystemExit): raise` and `except BaseException`.
  unfoldable pub reporting : M (Loop W) (Unit {0}) → M (Loop W) (Unit {0})
  unfolding call_exception_handler
  reporting m = catch m (λ e. branch (is_interrupt e) (throw e) (call_exception_handler e))

  unfoldable pub call_target : Option Target → M (Loop W) (Unit {0})
  unfolding run_code stop_now
  call_target none = throw runtime_error
  call_target (some (python callback)) = run_code (env.callback callback)
  call_target (some stop_method) = stop_now none
  call_target (some (method m)) = run_code (env.bound_method m)

  -- `Handle._run`
  unfoldable pub run_handle : ℕ → M (Loop W) (Unit {0})
  unfolding reporting call_target
  run_handle n s =
      branch (s.handles n).cancelled (pure tt)
        (do
          modify (λ t. record t { ran = t.ran ++ n ∷ [] })
          reporting (call_target (s.handles n).target))
        s

  unfoldable pub call_timer : ℕ → Option ℕ → M (Loop W) (Unit {0})
  unfolding reporting run_code clear_timer
  call_timer n none = throw runtime_error
  call_timer n (some callback) = do
    modify (λ t. record t { ran_timers = t.ran_timers ++ n ∷ [] })
    finally (reporting (run_code (env.callback callback))) (clear_timer n)

  -- `TimerHandle._run`
  unfoldable pub run_timer : ℕ → M (Loop W) (Unit {0})
  unfolding call_timer
  run_timer n s =
      branch (s.timer_handles n).cancelled (pure tt) (call_timer n (s.timer_handles n).callback) s
