-- ===== src/Signals/Pipe.antt =====
-- uvloop/loop.pyx: the self-pipe over a run of the loop's signal methods, and closing the loop.
use uvloop.Prelude.{
  lookup, store, delete, ℕ, suc, ◌≡◌, refl, sym, ap, ◌∙◌, Bool, true, false, ◌&&◌, ◌||◌,
  if◌then◌else◌, List, [], ◌∷◌, ◌++◌, Option, none, some, ◌==◌, ltb, is_some, pos, negsuc, length,
}
use uvloop.Errors.{Exception, runtime_error, type_error, value_error, is_os_error}
use uvloop.Python.{Outcome, ok, modify}
use uvloop.Python.Frames.{
  Frame, Keeps, pure-Keeps, throw-Keeps, get_state-Keeps, branch-Keeps, branch_of-Keeps,
  catch-Keeps, bind-Keeps,
}
use uvloop.Signals.{
  open_pairs, Sig, int_sig, not_int, Callback, coroutine, child_watcher, callable, Received,
  received, interrupted, blocked, fails, default_int_handler, default_action, sighandler, is_einval,
  SignalEnv, Signals, call, check_signal, open_pipe, restore_default, remove_signal_handler,
  remove_each,
}
use uvloop.Signals.Handlers.{
  ceval_process_signals, wake_with, handle_registered, handle_signal, handle_each, invoke_signals,
  read_all, read_from_self, unregister, register, add_checked, add_signal_handler, is_sigchld,
  nonzero, discard_all, is_value_error,
}

-- What happens to a loop: it begins and ends to run, is closed, its self-pipe can be read, and user
-- code adds and removes handlers.
pub data SignalEvent : Type 0 where
  sets_up pauses shuts_down : SignalEvent
  reads : ℕ → SignalEvent
  adds : Sig → Callback → SignalEvent
  removes : Sig → SignalEvent

abbrev pub Pipes : Type 0
Pipes = List (ℕ × ℕ) × List (ℕ × ℕ) × Option (ℕ × ℕ) × Bool

module _ {W : Type 0} where
  -- Each pair of sockets that was made is closed or is the self-pipe; a loop that listens has one.
  pub record NoLeak (s : Signals W) : Type 0 where
    pub pairs : s.made_pairs ≡ s.closed_pairs ++ open_pairs s.self_pipe
    pub piped : s.listening ≡ true → is_some s.self_pipe ≡ true

  abbrev pub pipes : Signals W → Pipes
  pipes s = (s.made_pairs, s.closed_pairs, s.self_pipe, s.listening)

  -- A method that leaves the self-pipe alone.
  abbrev pub same : Frame (Signals W)
  same = record { Rel = λ s t. pipes t ≡ pipes s; stay = λ s. refl; both = λ s t u p q. q ∙ p }

  pub NoLeak-same : (s t : Signals W) → pipes t ≡ pipes s → NoLeak s → NoLeak t
  NoLeak-same s t e n = record {
    pairs = ap (λ p. p.0) e ∙ n.pairs ∙ ap (λ (p : Pipes). p.1 ++ open_pairs p.2) (sym e);
    piped = λ h. ap (λ p. is_some p.2) e ∙ n.piped (ap (λ p. p.3) (sym e) ∙ h);
  }

  pub call-same : {A : Type 0} (f : W → Outcome A × W) → Keeps same (call f)
  call-same f = record { keeps = λ s. refl }

  modify-same :
      (f : Signals W → Signals W)
      → ((s : Signals W) → pipes (f s) ≡ pipes s)
      → Keeps same (modify f)
  modify-same f h = record { keeps = h }

module _ {W : Type 0} (env : SignalEnv W) where
  check_signal-same : (arg : Sig) → Keeps same (check_signal env arg)
  unfolding check_signal
  check_signal-same not_int = throw-Keeps same type_error
  check_signal-same (int_sig (negsuc n)) = throw-Keeps same value_error
  check_signal-same (int_sig (pos n)) =
      branch-Keeps same (ltb 0 n && ltb n env.nsig) (pure-Keeps same n)
        (throw-Keeps same value_error)

  restore_default-same : (sig : ℕ) → Keeps same (restore_default env sig)
  unfolding restore_default
  restore_default-same sig =
      bind-Keeps same
        (catch-Keeps same
          (call-same
            (env.signal sig (if sig == env.sigint then default_int_handler else default_action)))
          (λ e.
            branch-Keeps same (is_os_error e && is_einval e) (throw-Keeps same runtime_error)
              (throw-Keeps same e)))
        (λ _. pure-Keeps same true)

  pub remove_signal_handler-same : (arg : Sig) → Keeps same (remove_signal_handler env arg)
  unfolding remove_signal_handler
  remove_signal_handler-same arg =
      branch-Keeps same env.is_main_thread
        (bind-Keeps same (check_signal-same arg) (λ sig.
          bind-Keeps same (get_state-Keeps same) (λ s.
            branch-Keeps same (s.listening && is_some (lookup sig s.signal_handlers))
              (bind-Keeps same
                (modify-same (λ t. record t { signal_handlers = delete sig t.signal_handlers })
                  (λ t. refl))
                (λ _. restore_default-same sig))
              (pure-Keeps same false))))
        (throw-Keeps same value_error)

  ceval-same : Keeps same (ceval_process_signals env)
  unfolding ceval_process_signals
  ceval-same = record { keeps = λ s. refl }

  wake_with-same : (h : ℕ) → Keeps same (wake_with env h)
  unfolding wake_with
  wake_with-same h =
      branch_of-Keeps same (λ s. s.closed) (throw-Keeps same runtime_error)
        (modify-same (λ t. record t { ready = t.ready ++ h ∷ []; async_sent = true }) (λ t. refl))

  handle_registered-same : (sig : ℕ) (o : Option ℕ) → Keeps same (handle_registered env sig o)
  unfolding handle_registered
  handle_registered-same sig none = ceval-same
  handle_registered-same sig (some h) = bind-Keeps same (get_state-Keeps same) (λ s.
      branch-Keeps same (s.cancelled h)
        (bind-Keeps same (remove_signal_handler-same (int_sig (pos sig))) (λ _. pure-Keeps same tt))
        (wake_with-same h))

  handle_each-same : (sigs : List ℕ) → Keeps same (handle_each env sigs)
  unfolding handle_each handle_signal
  handle_each-same [] = pure-Keeps same tt
  handle_each-same (sig ∷ sigs) =
      bind-Keeps same
        (record {
          keeps = λ s. (handle_registered-same sig (lookup sig s.signal_handlers)).keeps s;
        })
        (λ _. handle_each-same sigs)

  invoke_signals-same : (bytes : List ℕ) → Keeps same (invoke_signals env bytes)
  unfolding invoke_signals
  invoke_signals-same bytes = bind-Keeps same ceval-same (λ _.
      bind-Keeps same (get_state-Keeps same) (λ s.
        bind-Keeps same (modify-same (λ t. record t { signals = [] }) (λ t. refl)) (λ _.
          bind-Keeps same (handle_each-same (nonzero env bytes)) (λ _.
            handle_each-same (env.in_order (discard_all env (nonzero env bytes) s.signals))))))

  read_all-same : (rs : List Received) (bytes : List ℕ) → Keeps same (read_all env rs bytes)
  unfolding read_all
  read_all-same [] bytes = pure-Keeps same bytes
  read_all-same (received [] ∷ rs) bytes = pure-Keeps same bytes
  read_all-same (received (n ∷ more) ∷ rs) bytes = read_all-same rs (bytes ++ n ∷ more)
  read_all-same (interrupted ∷ rs) bytes = read_all-same rs bytes
  read_all-same (blocked ∷ rs) bytes = pure-Keeps same bytes
  read_all-same (fails e ∷ rs) bytes = throw-Keeps same e

  pub read_from_self-same : (ssock : ℕ) → Keeps same (read_from_self env ssock)
  unfolding read_from_self
  read_from_self-same ssock =
      bind-Keeps same (call-same (λ w. (ok (env.recv ssock w).0, (env.recv ssock w).1))) (λ rs.
        bind-Keeps same (read_all-same rs []) (λ bytes.
          branch-Keeps same (length bytes == 0) (pure-Keeps same tt) (invoke_signals-same bytes)))

  unregister-same : (sig : ℕ) (e : Exception) → Keeps same (unregister env sig e)
  unfolding unregister
  unregister-same sig e =
      bind-Keeps same
        (modify-same (λ s. record s { signal_handlers = delete sig s.signal_handlers }) (λ s. refl))
        (λ _. bind-Keeps same (get_state-Keeps same) (λ s.
          bind-Keeps same
            (branch-Keeps same (length s.signal_handlers == 0)
              (catch-Keeps same
                (bind-Keeps same (call-same (env.set_wakeup_fd (negsuc 0)))
                  (λ _. pure-Keeps same tt))
                (λ x.
                  branch-Keeps same (is_os_error x || is_value_error x) (pure-Keeps same tt)
                    (throw-Keeps same x)))
              (pure-Keeps same tt))
            (λ _.
              branch-Keeps same (is_einval e) (throw-Keeps same runtime_error)
                (throw-Keeps same e))))

  add_checked-same : (arg : Sig) → Keeps same (add_checked env arg)
  unfolding add_checked register
  add_checked-same arg = bind-Keeps same (check_signal-same arg) (λ sig.
      bind-Keeps same (get_state-Keeps same) (λ s.
        branch-Keeps same s.closed (throw-Keeps same runtime_error) (
          bind-Keeps same
            (modify-same
              (λ t. record t {
                signal_handlers = store sig t.next_handle t.signal_handlers;
                cancelled = λ n. if n == t.next_handle then false else t.cancelled n;
                next_handle = suc t.next_handle;
              })
              (λ t. refl))
            (λ _.
              catch-Keeps same
                (bind-Keeps same (call-same (env.signal sig sighandler))
                  (λ _. call-same (env.siginterrupt sig)))
                (λ e.
                  branch-Keeps same (is_os_error e) (unregister-same sig e)
                    (throw-Keeps same e))))))

  pub add_signal_handler-same :
      (arg : Sig) (callback : Callback) → Keeps same (add_signal_handler env arg callback)
  unfolding add_signal_handler
  add_signal_handler-same arg coroutine =
      branch-Keeps same env.is_main_thread (throw-Keeps same type_error)
        (throw-Keeps same value_error)
  add_signal_handler-same arg child_watcher =
      branch-Keeps same env.is_main_thread
        (branch-Keeps same (is_sigchld env arg) (pure-Keeps same tt) (add_checked-same arg))
        (throw-Keeps same value_error)
  add_signal_handler-same arg callable =
      branch-Keeps same env.is_main_thread
        (branch-Keeps same (is_sigchld env arg) (throw-Keeps same runtime_error)
          (add_checked-same arg))
        (throw-Keeps same value_error)

  pub remove_each-same : (d : List (ℕ × ℕ)) → Keeps same (remove_each env d)
  unfolding remove_each
  remove_each-same [] = pure-Keeps same tt
  remove_each-same ((sig, h) ∷ d) =
      bind-Keeps same (remove_signal_handler-same (int_sig (pos sig))) (λ _. remove_each-same d)

  pub open_pipe-same : (pipe : ℕ × ℕ) → Keeps same (open_pipe env pipe)
  unfolding open_pipe
  open_pipe-same (ssock, csock) = bind-Keeps same (call-same (env.setblocking ssock)) (λ _.
      bind-Keeps same (call-same (env.setblocking csock)) (λ _.
        bind-Keeps same (call-same (env.set_wakeup_fd (pos (env.fileno csock))))
          (λ old. modify-same (λ s. record s { old_wakeup_id = old }) (λ s. refl))))
