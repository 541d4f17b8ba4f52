-- ===== src/Signals/Shutdown.antt =====
-- uvloop/loop.pyx: `_shutdown_signals`, which closing the loop calls.
use uvloop.Prelude.{
  ℕ, ◌≡◌, refl, ap, ◌∙◌, true, false, ◌&&◌, List, [], ◌∷◌, none, ltb, is_some, arith, pos, All,
}
use uvloop.Errors.{runtime_error}
use uvloop.Python.{ok, bind, pure, throw, branch}
use uvloop.Signals.{
  int_sig, SignalEnv, Signals, check_signal, remove_signal_handler, remove_each, shutdown_signals,
}

module _ {W : Type 0} (env : SignalEnv W) where
  -- `remove_signal_handler` of a loop that does not listen.
  remove_unlistened :
      (sig : ℕ) (s : Signals W)
      → env.is_main_thread ≡ true
      → s.listening ≡ false
      → (ltb 0 sig && ltb sig env.nsig) ≡ true
      → remove_signal_handler env (int_sig (pos sig)) s ≡ (ok false, s)
  unfolding remove_signal_handler check_signal
  remove_unlistened sig s m l v = ground (arith, m, l, v)

  abbrev pub InRange : ℕ × ℕ → Type 0
  InRange entry = (ltb 0 entry.0 && ltb entry.0 env.nsig) ≡ true

  remove_each_unlistened :
      (d : List (ℕ × ℕ)) (s : Signals W)
      → env.is_main_thread ≡ true
      → s.listening ≡ false
      → All InRange d
      → remove_each env d s ≡ (ok tt, s)
  unfolding remove_each
  remove_each_unlistened [] s m l v = refl
  remove_each_unlistened ((sig, h) ∷ d) s m l v =
      ap (λ r. bind r (λ _. remove_each env d)) (remove_unlistened sig s m l v.0)
      ∙ remove_each_unlistened d s m l v.1

  -- If signals are paused in the main thread, there is no self-pipe and the signals with handlers
  -- are in range: `_shutdown_signals`, which closing the loop calls, returns and removes no
  -- handler.
  pub shutdown_signals_keeps :
      (s : Signals W)
      → env.is_main_thread ≡ true
      → s.listening ≡ false
      → s.self_pipe ≡ none
      → All InRange s.signal_handlers
      → shutdown_signals env s ≡ (ok tt, s)
  unfolding shutdown_signals
  shutdown_signals_keeps s m l p v =
      ap
        (λ b.
          branch b
            (branch s.listening (throw runtime_error) (
              branch (is_some s.self_pipe) (throw runtime_error)
                (remove_each env s.signal_handlers)))
            (pure tt) s)
        m
      ∙ ap
          (λ b.
            branch b (throw runtime_error)
              (branch (is_some s.self_pipe) (throw runtime_error)
                (remove_each env s.signal_handlers))
              s)
          l
      ∙ ap (λ o. branch (is_some o) (throw runtime_error) (remove_each env s.signal_handlers) s) p
      ∙ remove_each_unlistened s.signal_handlers s m l v
