-- ===== src/Signals/Arrival.antt =====
-- uvloop/loop.pyx: every signal that arrives reaches its handler.
use uvloop.Prelude.{ℕ, ◌≡◌, refl, sym, ap, ◌∙◌, List, [], ◌∷◌, ◌++◌, length, arith}
use mathlib.Core.List.{append-nil, append_assoc}
use mathlib.Core.Path.{subst}
use uvloop.Python.{Outcome, ok, raise, bind}
use uvloop.Signals.{SignalEnv, Signals, add_all}
use uvloop.Signals.Handlers.{
  ceval_process_signals, handle_signal, handle_each, nonzero, discard_all, invoke_signals,
}
use uvloop.Signals.Dispatch.{
  Calm, live, woken, Listening, Handled, woken_cong, woken-cons, handle_lem,
}

module _ {W : Type 0} (env : SignalEnv W) where
  -- What `invoke_signals` handles when `process_signals` has run.
  abbrev pub arrived : List ℕ → Signals W → List ℕ
  arrived bytes s =
      nonzero env bytes
      ++ env.in_order (
          discard_all env (nonzero env bytes) (add_all (env.process_signals s.world).0.0 s.signals))

module _ {W : Type 0} (env : SignalEnv W) (c : Calm env) where
  handle_rest :
      (sig : ℕ) (sigs : List ℕ) (s : Signals W) (r : Outcome (Unit {0}) × Signals W)
      → Handled env (sig ∷ []) s r
      → ((t : Signals W) → Listening env t → Handled env sigs t (handle_each env sigs t))
      → Handled env (sig ∷ sigs) s (bind r (λ _. handle_each env sigs))
  handle_rest sig sigs s (ok a, t) h k =
      let g = k t h.listening in
      let w = woken_cong s t sigs h.live_lem in
      record {
        returns = g.returns;
        ready =
            g.ready
            ∙ ap (λ l. l ++ woken t sigs) h.ready
            ∙ append_assoc s.ready (woken s (sig ∷ [])) (woken t sigs)
            ∙ ap (λ l. s.ready ++ (woken s (sig ∷ []) ++ l)) w
            ∙ ap (λ l. s.ready ++ l) (sym (woken-cons s sig sigs));
        sent = ground (arith, g.sent, h.sent, ap length w, ap length (woken-cons s sig sigs));
        live_lem = λ n. g.live_lem n ∙ h.live_lem n;
        listening = g.listening;
      }
  handle_rest sig sigs s (raise x, t) h k = absurd (cc h.returns)

  handle_each_lem :
      (sigs : List ℕ) (s : Signals W)
      → Listening env s
      → Handled env sigs s (handle_each env sigs s)
  unfolding handle_each
  handle_each_lem [] s l = record {
    returns = refl;
    ready = sym (append-nil s.ready);
    sent = ground arith;
    live_lem = λ n. refl;
    listening = l;
  }
  handle_each_lem (sig ∷ sigs) s l =
      handle_rest sig sigs s (handle_signal env sig s) (handle_lem env c sig s l)
        (λ t k. handle_each_lem sigs t k)

  then_both :
      (a b : List ℕ)
      → ((t : Signals W)
          → bind (handle_each env a t) (λ _. handle_each env b) ≡ handle_each env (a ++ b) t)
      → (r : Outcome (Unit {0}) × Signals W)
      → bind (bind r (λ _. handle_each env a)) (λ _. handle_each env b)
        ≡ bind r (λ _. handle_each env (a ++ b))
  then_both a b h (ok u, t) = h t
  then_both a b h (raise e, t) = refl

  each_append :
      (a b : List ℕ) (s : Signals W)
      → bind (handle_each env a s) (λ _. handle_each env b) ≡ handle_each env (a ++ b) s
  unfolding handle_each
  each_append [] b s = refl
  each_append (sig ∷ a) b s = then_both a b (λ t. each_append a b t) (handle_signal env sig s)

  -- Handling begins in a state with the same handlers and queue.
  moved :
      (sigs : List ℕ) (s t : Signals W) (r : Outcome (Unit {0}) × Signals W)
      → t.ready ≡ s.ready
      → t.async_sent ≡ s.async_sent
      → ((n : ℕ) → live t n ≡ live s n)
      → Handled env sigs t r
      → Handled env sigs s r
  moved sigs s t r a b d h =
      let w = woken_cong s t sigs d in
      record {
        returns = h.returns;
        ready = h.ready ∙ ap (λ l. l ++ woken t sigs) a ∙ ap (λ l. s.ready ++ l) w;
        sent = ground (arith, h.sent, b, ap length w);
        live_lem = λ n. h.live_lem n ∙ d n;
        listening = h.listening;
      }

  after_check : List ℕ → Outcome (Unit {0}) × Signals W → Outcome (Unit {0}) × Signals W
  after_check bytes r = bind r (λ _ s.
      bind (handle_each env (nonzero env bytes) (record s { signals = [] }))
        (λ _. handle_each env (env.in_order (discard_all env (nonzero env bytes) s.signals))))

  after_check_lem :
      (bytes : List ℕ) (o : Outcome (Unit {0})) (s : Signals W)
      → o ≡ ok tt
      → Listening env s
      → Handled env
          (nonzero env bytes ++ env.in_order (discard_all env (nonzero env bytes) s.signals))
          s
          (after_check bytes (o, s))
  unfolding after_check
  after_check_lem bytes (ok u) s e l =
      let a = nonzero env bytes in
      let b = env.in_order (discard_all env (nonzero env bytes) s.signals) in
      let t : Signals W = record s { signals = [] } in
      subst (Handled env (a ++ b) s) (sym (each_append a b t)) (
        moved (a ++ b) s t (handle_each env (a ++ b) t) refl refl (λ n. refl)
          (handle_each_lem (a ++ b) t
            (record { closed = l.closed; listening = l.listening; valid = l.valid })))
  after_check_lem bytes (raise x) s e l = absurd (cc e)

  -- If what Python runs meanwhile raises nothing, and the loop is open and listens to signals that
  -- are in range: `_invoke_signals` returns, and puts into the queue, in order, the handle of each
  -- signal that the bytes of the self-pipe name and of each other signal of the set, also of the
  -- signals that arrive while it asks Python for them, save signals without a handler and handles
  -- that are cancelled; it sends the async handle if there is any; it keeps the handlers that are
  -- not cancelled.
  pub invoke_signals_lem :
      (bytes : List ℕ) (s : Signals W)
      → Listening env s
      → Handled env (arrived env bytes s) s (invoke_signals env bytes s)
  unfolding invoke_signals ceval_process_signals after_check
  invoke_signals_lem bytes s l =
      let p = env.process_signals s.world in
      let t : Signals W = record s { world = p.1; signals = add_all p.0.0 s.signals } in
      moved (arrived env bytes s) s t (after_check bytes (p.0.1, t)) refl refl (λ n. refl)
        (after_check_lem bytes p.0.1 t (c.calm s.world)
          (record { closed = l.closed; listening = l.listening; valid = l.valid }))
