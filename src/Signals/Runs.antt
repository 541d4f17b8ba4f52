-- ===== src/Signals/Runs.antt =====
-- uvloop/loop.pyx: runs of the loop's signal methods, and closing the loop.
use uvloop.Prelude.{
  ℕ, ◌≡◌, refl, sym, ap, ◌∙◌, Bool, true, false, List, [], ◌∷◌, ◌++◌, Option, none, some, is_some,
  arith, ℤ,
}
use mathlib.Core.List.{append-nil}
use uvloop.Errors.{Exception, is_exception, runtime_error, value_error}
use uvloop.Python.{M, Outcome, ok, raise, bind, handle, ◌>>=◌, ◌>>◌, pure, throw, modify, branch}
use uvloop.Python.Frames.{
  Keeps, Keeps-of, Keeps-map, preserves, pure-Keeps, throw-Keeps, branch-Keeps, bind-Keeps,
  branch_state, bind_state, Post-of,
}
use uvloop.Signals.{
  SignalEnv, Signals, open_pairs, call, close_pipe, open_pipe, listen_on, setup_or_resume_signals,
  remove_pipe_reader, pause_signals, remove_signal_handler, shutdown_signals,
}
use uvloop.Signals.Handlers.{read_from_self, add_signal_handler}
use uvloop.Signals.Pipe.{
  SignalEvent, sets_up, pauses, shuts_down, reads, adds, removes, NoLeak, NoLeak-same, same, pipes,
  call-same, add_signal_handler-same, remove_each-same, open_pipe-same, read_from_self-same,
  remove_signal_handler-same,
}

module _ {W : Type 0} (env : SignalEnv W) where
  unfoldable pub react : SignalEvent → M (Signals W) (Unit {0})
  unfolding setup_or_resume_signals pause_signals shutdown_signals read_from_self add_signal_handler
      remove_signal_handler
  react sets_up = setup_or_resume_signals env
  react pauses = pause_signals env
  react shuts_down = shutdown_signals env
  react (reads ssock) = read_from_self env ssock
  react (adds arg callback) = add_signal_handler env arg callback
  react (removes arg) = do _ ← remove_signal_handler env arg; pure tt

  unfoldable pub run : Signals W → List SignalEvent → Signals W
  unfolding react
  run s [] = s
  run s (e ∷ es) = run (react e s).1 es

  NoLeak-of : {A : Type 0} {m : M (Signals W) A} → Keeps same m → Keeps (preserves NoLeak) m
  NoLeak-of h = Keeps-map same (preserves NoLeak) NoLeak-same h

  -- The self-pipe is made, and the loop does not listen yet.
  HasPipe : ℕ × ℕ → Signals W → Type 0
  HasPipe p s =
      (s.self_pipe ≡ some p) × (s.listening ≡ false) × (s.made_pairs ≡ s.closed_pairs ++ p ∷ [])

  HasPipe-NoLeak : (p : ℕ × ℕ) (s : Signals W) → HasPipe p s → NoLeak s
  unfolding HasPipe
  HasPipe-NoLeak p s (a, b, c) = record {
    pairs = c ∙ ap (λ x. s.closed_pairs ++ open_pairs x) (sym a);
    piped = λ h. ap is_some a;
  }

  HasPipe-same : (p : ℕ × ℕ) (s t : Signals W) → pipes t ≡ pipes s → HasPipe p s → HasPipe p t
  unfolding HasPipe
  HasPipe-same p s t e (a, b, c) = (
    ap (λ q. q.2) e ∙ a,
    ap (λ q. q.3) e ∙ b,
    ap (λ q. q.0) e ∙ c ∙ ap (λ x. x ++ p ∷ []) (sym (ap (λ q. q.1) e)),
  )

  closes-NoLeak :
      (s : Signals W)
      → s.made_pairs ≡ s.closed_pairs ++ open_pairs s.self_pipe
      → s.listening ≡ false
      → NoLeak (close_pipe s).1
  unfolding close_pipe
  closes-NoLeak s e l = record {
    pairs = e ∙ sym (append-nil (s.closed_pairs ++ open_pairs s.self_pipe));
    piped = λ h. absurd (cc (l, h));
  }

  listens :
      (p : ℕ × ℕ) (r : Outcome (Unit {0}) × Signals W)
      → HasPipe p r.1
      → NoLeak (bind r (λ _. modify (λ t. record t { listening = true }))).1
  unfolding HasPipe
  listens p (ok a, t) (b, c, d) = record {
    pairs = d ∙ ap (λ x. t.closed_pairs ++ open_pairs x) (sym b);
    piped = λ h. ap is_some b;
  }
  listens p (raise e, t) h = HasPipe-NoLeak p t h

  -- The `except` clause.
  failed :
      (p : ℕ × ℕ) (b : Bool) (e : Exception) (k : M (Signals W) (Unit {0})) (t : Signals W)
      → HasPipe p t
      → NoLeak (bind {A = Unit {0}} (branch b (do close_pipe; throw e) (throw e) t) (λ _. k)).1
  unfolding close_pipe HasPipe
  failed p true e k t h = closes-NoLeak t ((HasPipe-NoLeak p t h).pairs) h.1
  failed p false e k t h = HasPipe-NoLeak p t h

  opened :
      (p : ℕ × ℕ) (r : Outcome (Unit {0}) × Signals W)
      → HasPipe p r.1
      → NoLeak
          (bind
            (handle r (λ e. branch (is_exception e) (do close_pipe; throw e) (throw e)))
            (λ _. do call (env.add_reader p.0); modify (λ t. record t { listening = true }))).1
  unfolding close_pipe
  opened p (ok a, t) h = listens p (call (env.add_reader p.0) t) (
      HasPipe-same p t (call (env.add_reader p.0) t).1 ((call-same (env.add_reader p.0)).keeps t) h)
  opened p (raise e, t) h =
      failed p (is_exception e) e
        (do call (env.add_reader p.0); modify (λ u. record u { listening = true })) t h

  listen_on-NoLeak :
      (p : ℕ × ℕ) (s : Signals W)
      → NoLeak s
      → s.self_pipe ≡ none
      → s.listening ≡ false
      → NoLeak (listen_on env p s).1
  unfolding listen_on HasPipe
  listen_on-NoLeak p s n e l =
      let t : Signals W = record s { self_pipe = some p; made_pairs = s.made_pairs ++ p ∷ [] } in
      opened p (open_pipe env p t) (
        HasPipe-same p t (open_pipe env p t).1 ((open_pipe-same env p).keeps t) (
          refl,
          l,
          ap (λ x. x ++ p ∷ []) n.pairs
              ∙ ap (λ x. (s.closed_pairs ++ open_pairs x) ++ p ∷ []) e
              ∙ ap (λ x. x ++ p ∷ []) (append-nil s.closed_pairs),
        ))

  setup-NoLeak : (s : Signals W) → NoLeak s → NoLeak (setup_or_resume_signals env s).1
  unfolding setup_or_resume_signals
  setup-NoLeak s n =
      branch_state NoLeak env.is_main_thread
        (branch s.listening (throw runtime_error) (
          branch (is_some s.self_pipe) (throw runtime_error)
            (do pipe ← call env.socketpair; listen_on env pipe)))
        (pure tt) s
        (λ _.
          branch_state NoLeak s.listening (throw runtime_error)
            (branch (is_some s.self_pipe) (throw runtime_error)
              (do pipe ← call env.socketpair; listen_on env pipe))
            s (λ _. n)
            (λ l.
              branch_state NoLeak (is_some s.self_pipe) (throw runtime_error)
                (do pipe ← call env.socketpair; listen_on env pipe) s (λ _. n)
                (λ o.
                  bind_state (λ a t. pipes t ≡ pipes s) (λ t. pipes t ≡ pipes s) NoLeak
                    (call env.socketpair s) (listen_on env)
                    (Post-of (λ t. pipes t ≡ pipes s) (λ a t. pipes t ≡ pipes s)
                      (λ t. pipes t ≡ pipes s) (call env.socketpair s)
                      ((call-same env.socketpair).keeps s) (λ a t e. e) (λ t e. e))
                    (λ pipe t e.
                      listen_on-NoLeak pipe t (NoLeak-same s t e n)
                        (ap (λ q. q.2) e ∙ ground (arith, o)) (ap (λ q. q.3) e ∙ l))
                    (λ t e. NoLeak-same s t e n))))
        (λ _. n)

  -- What stays true while signals are paused.
  abbrev Paused : Signals W → Type 0
  Paused s = NoLeak s × (s.listening ≡ false)

  Paused-of : {A : Type 0} {m : M (Signals W) A} → Keeps same m → Keeps (preserves Paused) m
  Paused-of h =
      Keeps-map same (preserves Paused) (λ s t e n. (NoLeak-same s t e n.0, ap (λ q. q.3) e ∙ n.1))
        h

  remove_pipe_reader-same : Keeps same (remove_pipe_reader env)
  unfolding remove_pipe_reader
  remove_pipe_reader-same = record { keeps = λ s. go s s.self_pipe }
    where
      go :
          (s : Signals W) (o : Option (ℕ × ℕ))
          → pipes
              (elim o as (λ x. Outcome (Unit {0}) × Signals W) [
                | none ↦ throw value_error s
                | some p ↦ call (env.remove_reader p.0) s
              ]).1
            ≡ pipes s
      go s none = refl
      go s (some p) = refl

  close_pipe-Paused : Keeps (preserves Paused) (close_pipe {W = W})
  unfolding close_pipe
  close_pipe-Paused =
      Keeps-of (preserves Paused) close_pipe (λ s n. (closes-NoLeak s n.0.pairs n.1, n.1))

  -- What `_pause_signals` does of a loop that listens.
  pausing : ℤ → M (Signals W) (Unit {0})
  pausing old = do _ ← call (env.set_wakeup_fd old); remove_pipe_reader env; close_pipe

  pausing-Paused : (old : ℤ) → Keeps (preserves Paused) (pausing old)
  unfolding pausing
  pausing-Paused old =
      bind-Keeps (preserves Paused) (Paused-of (call-same (env.set_wakeup_fd old))) (λ _.
        bind-Keeps (preserves Paused) (Paused-of remove_pipe_reader-same) (λ _. close_pipe-Paused))

  pause-NoLeak : (s : Signals W) → NoLeak s → NoLeak (pause_signals env s).1
  unfolding pause_signals pausing
  pause-NoLeak s n =
      branch_state NoLeak env.is_main_thread
        (branch s.listening
          (do modify (λ t. record t { listening = false }); pausing s.old_wakeup_id)
          (throw runtime_error))
        (branch s.listening (throw runtime_error) (pure tt)) s
        (λ _.
          branch_state NoLeak s.listening
            (do modify (λ t. record t { listening = false }); pausing s.old_wakeup_id)
            (throw runtime_error) s
            (λ l.
              ((pausing-Paused s.old_wakeup_id).keeps (record s { listening = false })
                (record { pairs = n.pairs; piped = λ h. absurd (cc h) }, refl)).0)
            (λ _. n))
        (λ _. branch_state NoLeak s.listening (throw runtime_error) (pure tt) s (λ _. n) (λ _. n))

  shutdown_signals-same : Keeps same (shutdown_signals env)
  unfolding shutdown_signals
  shutdown_signals-same = record {
    keeps = λ s.
        (branch-Keeps same env.is_main_thread
            (branch-Keeps same s.listening (throw-Keeps same runtime_error) (
              branch-Keeps same (is_some s.self_pipe) (throw-Keeps same runtime_error)
                (remove_each-same env s.signal_handlers)))
            (pure-Keeps same tt)).keeps
          s;
  }

  react-NoLeak : (e : SignalEvent) (s : Signals W) → NoLeak s → NoLeak (react e s).1
  unfolding react
  react-NoLeak sets_up s n = setup-NoLeak s n
  react-NoLeak pauses s n = pause-NoLeak s n
  react-NoLeak shuts_down s n = (NoLeak-of shutdown_signals-same).keeps s n
  react-NoLeak (reads ssock) s n = (NoLeak-of (read_from_self-same env ssock)).keeps s n
  react-NoLeak (adds arg callback) s n =
      (NoLeak-of (add_signal_handler-same env arg callback)).keeps s n
  react-NoLeak (removes arg) s n =
      (NoLeak-of
          (bind-Keeps same (remove_signal_handler-same env arg) (λ _. pure-Keeps same tt))).keeps
        s n

  -- If each pair of sockets that was made for a self-pipe is closed, once, or is the self-pipe, and
  -- a loop that listens has a self-pipe, then so it is after any sequence of calls of the signal
  -- methods, in any order, whatever they raise.
  pub run-NoLeak : (s : Signals W) (es : List SignalEvent) → NoLeak s → NoLeak (run s es)
  unfolding run
  run-NoLeak s [] n = n
  run-NoLeak s (e ∷ es) n = run-NoLeak (react e s).1 es (react-NoLeak e s n)
