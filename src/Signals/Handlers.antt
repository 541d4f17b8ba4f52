-- ===== src/Signals/Handlers.antt =====
-- uvloop/loop.pyx: how a signal reaches its callback, and `add_signal_handler`.
use uvloop.Prelude.{
  lookup, store, delete, ℕ, zero, suc, Bool, true, false, ◌||◌, List, [], ◌∷◌, ◌++◌, Option, none,
  some, ◌==◌, length, if◌then◌else◌, pos, negsuc,
}
use uvloop.Errors.{Exception, runtime_error, value_error, type_error, is_os_error}
use uvloop.Python.{M, ok, ◌>>=◌, ◌>>◌, pure, throw, get_state, modify, branch, catch}
use uvloop.Signals.{
  Sig, int_sig, Callback, coroutine, child_watcher, callable, sighandler, Received, received,
  interrupted, blocked, fails, SignalEnv, Signals, discard, add_all, is_einval, call, check_signal,
  remove_signal_handler,
}

abbrev pub is_value_error : Exception → Bool
is_value_error value_error = true
is_value_error _ = false

module _ {W : Type 0} (env : SignalEnv W) where
  -- `_ceval_process_signals`, during which `__sighandler` fills `_signals`.
  unfoldable pub ceval_process_signals : M (Signals W) (Unit {0})
  ceval_process_signals s =
      let r = env.process_signals s.world in
      (r.0.1, record s { world = r.1; signals = add_all r.0.0 s.signals })

  -- `_append_ready_handle` and `handler_async.send()`
  unfoldable pub wake_with : ℕ → M (Signals W) (Unit {0})
  wake_with h s =
      branch s.closed (throw runtime_error)
        (modify (λ t. record t { ready = t.ready ++ h ∷ []; async_sent = true })) s

  unfoldable pub handle_registered : ℕ → Option ℕ → M (Signals W) (Unit {0})
  unfolding ceval_process_signals wake_with remove_signal_handler
  handle_registered sig none = ceval_process_signals
  handle_registered sig (some h) = do
    s ← get_state
    branch (s.cancelled h) (do _ ← remove_signal_handler env (int_sig (pos sig)); pure tt)
        (wake_with h)

  unfoldable pub handle_signal : ℕ → M (Signals W) (Unit {0})
  unfolding handle_registered
  handle_signal sig s = handle_registered sig (lookup sig s.signal_handlers) s

  unfoldable pub handle_each : List ℕ → M (Signals W) (Unit {0})
  unfolding handle_signal
  handle_each [] = pure tt
  handle_each (sig ∷ sigs) = do handle_signal sig; handle_each sigs

  -- The bytes that the self-pipe brings, without its null bytes, and the set of signals without
  -- them.
  abbrev pub nonzero : List ℕ → List ℕ
  nonzero [] = []
  nonzero (zero ∷ bytes) = nonzero bytes
  nonzero (suc n ∷ bytes) = suc n ∷ nonzero bytes

  abbrev pub discard_all : List ℕ → List ℕ → List ℕ
  discard_all [] sigs = sigs
  discard_all (n ∷ ns) sigs = discard_all ns (discard n sigs)

  unfoldable pub invoke_signals : List ℕ → M (Signals W) (Unit {0})
  unfolding ceval_process_signals handle_each
  invoke_signals bytes = do
    ceval_process_signals
    s ← get_state
    modify (λ t. record t { signals = [] })
    handle_each (nonzero bytes)
    handle_each (env.in_order (discard_all (nonzero bytes) s.signals))

  -- What the loop of `_read_from_self` reads.
  unfoldable pub read_all : List Received → List ℕ → M (Signals W) (List ℕ)
  read_all [] sigdata = pure sigdata
  read_all (received [] ∷ rs) sigdata = pure sigdata
  read_all (received (n ∷ bytes) ∷ rs) sigdata = read_all rs (sigdata ++ n ∷ bytes)
  read_all (interrupted ∷ rs) sigdata = read_all rs sigdata
  read_all (blocked ∷ rs) sigdata = pure sigdata
  read_all (fails e ∷ rs) sigdata = throw e

  unfoldable pub read_from_self : ℕ → M (Signals W) (Unit {0})
  unfolding read_all invoke_signals
  read_from_self ssock = do
    results ← call (λ w. let r = env.recv ssock w in (ok r.0, r.1))
    sigdata ← read_all results []
    branch (length sigdata == 0) (pure tt) (invoke_signals sigdata)

  -- `except OSError` in `add_signal_handler`. The outcome of `signal.set_wakeup_fd(-1)` is only
  -- logged where it is a `ValueError` or an `OSError`.
  unfoldable pub unregister : ℕ → Exception → M (Signals W) (Unit {0})
  unregister sig exc = do
    modify (λ s. record s { signal_handlers = delete sig s.signal_handlers })
    s ← get_state
    branch (length s.signal_handlers == 0)
        (catch (do _ ← call (env.set_wakeup_fd (negsuc 0)); pure tt)
          (λ e. branch (is_os_error e || is_value_error e) (pure tt) (throw e)))
        (pure tt)
    branch (is_einval exc) (throw runtime_error) (throw exc)

  unfoldable pub register : ℕ → M (Signals W) (Unit {0})
  unfolding unregister
  register sig = do
    modify (λ s. record s {
      signal_handlers = store sig s.next_handle s.signal_handlers;
      cancelled = λ n. if n == s.next_handle then false else s.cancelled n;
      next_handle = suc s.next_handle;
    })
    catch (do call (env.signal sig sighandler); call (env.siginterrupt sig))
        (λ exc. branch (is_os_error exc) (unregister sig exc) (throw exc))

  abbrev pub is_sigchld : Sig → Bool
  is_sigchld (int_sig (pos n)) = n == env.sigchld
  is_sigchld _ = false

  unfoldable pub add_checked : Sig → M (Signals W) (Unit {0})
  unfolding check_signal register
  add_checked arg = do
    sig ← check_signal env arg
    s ← get_state
    branch s.closed (throw runtime_error) (register sig)

  unfoldable pub add_signal_handler : Sig → Callback → M (Signals W) (Unit {0})
  unfolding add_checked
  add_signal_handler arg coroutine =
      branch env.is_main_thread (throw type_error) (throw value_error)
  add_signal_handler arg child_watcher =
      branch env.is_main_thread (branch (is_sigchld arg) (pure tt) (add_checked arg))
        (throw value_error)
  add_signal_handler arg callable =
      branch env.is_main_thread (branch (is_sigchld arg) (throw runtime_error) (add_checked arg))
        (throw value_error)
