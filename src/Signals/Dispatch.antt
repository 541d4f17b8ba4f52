-- ===== src/Signals/Dispatch.antt =====
-- uvloop/loop.pyx: what becomes of one signal.
use uvloop.Prelude.{
  lookup, delete, lookup-delete, ℕ, ◌≡◌, refl, sym, ap, ◌∙◌, Bool, true, false, ◌&&◌, ◌||◌, List,
  [], ◌∷◌, ◌++◌, Option, none, some, ◌==◌, ltb, length, is_some, arith, pos, if◌then◌else◌,
}
use mathlib.Core.List.{append-nil}
use mathlib.Core.Path.{subst}
use uvloop.Errors.{runtime_error, is_os_error}
use uvloop.Python.{Outcome, ok, raise, bind, pure, throw, branch, catch}
use uvloop.Signals.{
  Disposition, SignalEnv, Signals, check_signal, restore_default, remove_signal_handler, int_sig,
  is_einval, default_int_handler, default_action,
}
use uvloop.Signals.Handlers.{ceval_process_signals, wake_with, handle_registered, handle_signal}

-- What runs in Python while signals are handled raises nothing, and `signal.signal` accepts the
-- signals.
pub record Calm {W : Type 0} (env : SignalEnv W) : Type 0 where
  pub main : env.is_main_thread ≡ true
  pub calm : (w : W) → (env.process_signals w).0.1 ≡ ok tt
  pub accepts : (sig : ℕ) (d : Disposition) (w : W) → (env.signal sig d w).0 ≡ ok tt

abbrev pub not_cancelled : (ℕ → Bool) → Option ℕ → Option ℕ
not_cancelled cancelled none = none
not_cancelled cancelled (some h) = if cancelled h then none else some h

module _ {W : Type 0} where
  -- The handle that is registered for a signal and not cancelled.
  abbrev pub live : Signals W → ℕ → Option ℕ
  live s sig = not_cancelled s.cancelled (lookup sig s.signal_handlers)

  -- The handles that a list of signals is for.
  abbrev pub woken : Signals W → List ℕ → List ℕ
  woken s [] = []
  woken s (sig ∷ sigs) = elim (live s sig) [ none ↦ woken s sigs | some h ↦ h ∷ woken s sigs ]

  -- The loop is open and listens, and the signals with handlers are in range.
  pub record Listening (env : SignalEnv W) (s : Signals W) : Type 0 where
    pub closed : s.closed ≡ false
    pub listening : s.listening ≡ true
    pub valid :
        (sig : ℕ)
        → is_some (lookup sig s.signal_handlers) ≡ true
        → (ltb 0 sig && ltb sig env.nsig) ≡ true

  pub record Handled (env : SignalEnv W) (sigs : List ℕ) (s : Signals W)
      (r : Outcome (Unit {0}) × Signals W) : Type 0 where
    pub returns : r.0 ≡ ok tt
    pub ready : r.1.ready ≡ s.ready ++ woken s sigs
    pub sent : r.1.async_sent ≡ (s.async_sent || ltb 0 (length (woken s sigs)))
    pub live_lem : (sig : ℕ) → live r.1 sig ≡ live s sig
    pub listening : Listening env r.1

  pub woken_cong :
      (s t : Signals W) (sigs : List ℕ)
      → ((sig : ℕ) → live t sig ≡ live s sig)
      → woken t sigs ≡ woken s sigs
  woken_cong s t [] h = refl
  woken_cong s t (sig ∷ sigs) h = ground (arith, h sig, woken_cong s t sigs h)

  woken_none : (s : Signals W) (sig : ℕ) → live s sig ≡ none → woken s (sig ∷ []) ≡ []
  woken_none s sig e = ground arith

  woken_some : (s : Signals W) (sig h : ℕ) → live s sig ≡ some h → woken s (sig ∷ []) ≡ h ∷ []
  woken_some s sig h e = ground arith

  pub woken-cons :
      (s : Signals W) (sig : ℕ) (sigs : List ℕ)
      → woken s (sig ∷ sigs) ≡ woken s (sig ∷ []) ++ woken s sigs
  woken-cons s sig sigs = ground arith

module _ {W : Type 0} (env : SignalEnv W) (c : Calm env) where
  -- A step that wakes nothing.
  quiet :
      (sig : ℕ) (s : Signals W) (r : Outcome (Unit {0}) × Signals W)
      → live s sig ≡ none
      → r.0 ≡ ok tt
      → r.1.ready ≡ s.ready
      → r.1.async_sent ≡ s.async_sent
      → ((n : ℕ) → live r.1 n ≡ live s n)
      → Listening env r.1
      → Handled env (sig ∷ []) s r
  quiet sig s r e a b d f g = record {
    returns = a;
    ready = b ∙ sym (append-nil s.ready) ∙ ap (λ l. s.ready ++ l) (sym (woken_none s sig e));
    sent = ground (arith, d, woken_none s sig e);
    live_lem = f;
    listening = g;
  }

  unregistered :
      (sig : ℕ) (s : Signals W)
      → Listening env s
      → lookup sig s.signal_handlers ≡ none
      → Handled env (sig ∷ []) s (ceval_process_signals env s)
  unfolding ceval_process_signals
  unregistered sig s l e =
      quiet sig s (ceval_process_signals env s) (ground (arith, e)) (c.calm s.world) refl refl
        (λ n. refl) (record { closed = l.closed; listening = l.listening; valid = l.valid })

  abbrev awake : ℕ → Signals W → Signals W
  awake h s = record s { ready = s.ready ++ h ∷ []; async_sent = true }

  wake_with_open :
      (h : ℕ) (s : Signals W) → s.closed ≡ false → wake_with env h s ≡ (ok tt, awake h s)
  unfolding wake_with
  wake_with_open h s o = ground (arith, o)

  wakes :
      (sig h : ℕ) (s : Signals W)
      → Listening env s
      → live s sig ≡ some h
      → Handled env (sig ∷ []) s (wake_with env h s)
  wakes sig h s l e = subst (Handled env (sig ∷ []) s) (sym (wake_with_open h s l.closed)) (record {
    returns = refl;
    ready = ap (λ l. s.ready ++ l) (sym (woken_some s sig h e));
    sent = ground (arith, woken_some s sig h e);
    live_lem = λ n. refl;
    listening = record { closed = l.closed; listening = l.listening; valid = l.valid };
  })

  -- A step that drops the entry of a signal whose handle is cancelled.
  Dropped : ℕ → Signals W → Outcome Bool × Signals W → Type 0
  Dropped sig s r =
      (r.0 ≡ ok true)
      × (r.1.signal_handlers ≡ delete sig s.signal_handlers)
      × (r.1.ready ≡ s.ready)
      × (r.1.async_sent ≡ s.async_sent)
      × (r.1.closed ≡ s.closed)
      × (r.1.listening ≡ s.listening)
      × (r.1.cancelled ≡ s.cancelled)

  restored :
      (sig : ℕ) (s t : Signals W) (r : Outcome (Unit {0}) × W)
      → r.0 ≡ ok tt
      → Dropped sig s (ok true, record t { world = r.1 })
      → Dropped sig s (
          bind
            (catch
              (λ u. (r.0, record u { world = r.1 }))
              (λ e. branch (is_os_error e && is_einval e) (throw runtime_error) (throw e))
              t)
            (λ _. pure true))
  restored sig s t (ok tt, w) e d = d
  restored sig s t (raise x, w) e d = absurd (cc e)

  -- `remove_signal_handler` of a registered signal.
  removes_eq :
      (sig h : ℕ) (s : Signals W)
      → Listening env s
      → lookup sig s.signal_handlers ≡ some h
      → remove_signal_handler env (int_sig (pos sig)) s
        ≡ restore_default env sig (record s { signal_handlers = delete sig s.signal_handlers })
  unfolding remove_signal_handler check_signal
  removes_eq sig h s l e = ground (arith, c.main, l.valid sig (ap is_some e), l.listening, e)

  removes :
      (sig h : ℕ) (s : Signals W)
      → Listening env s
      → lookup sig s.signal_handlers ≡ some h
      → Dropped sig s (remove_signal_handler env (int_sig (pos sig)) s)
  unfolding restore_default Dropped
  removes sig h s l e = subst (Dropped sig s) (sym (removes_eq sig h s l e)) (
      restored sig s (record s { signal_handlers = delete sig s.signal_handlers })
        (env.signal sig (if sig == env.sigint then default_int_handler else default_action) s.world)
        (c.accepts sig (if sig == env.sigint then default_int_handler else default_action) s.world)
        (refl, refl, refl, refl, refl, refl, refl))

  live_dropped :
      (sig h : ℕ) (s t : Signals W) (n : ℕ)
      → t.signal_handlers ≡ delete sig s.signal_handlers
      → t.cancelled ≡ s.cancelled
      → lookup sig s.signal_handlers ≡ some h
      → s.cancelled h ≡ true
      → live t n ≡ live s n
  live_dropped sig h s t n d k e x =
      ap (λ c. not_cancelled c (lookup n t.signal_handlers)) k
      ∙ ap (not_cancelled s.cancelled) (ap (lookup n) d ∙ lookup-delete n sig s.signal_handlers)
      ∙ ground (arith, e, x)

  drops :
      (sig h : ℕ) (s : Signals W) (r : Outcome Bool × Signals W)
      → Listening env s
      → lookup sig s.signal_handlers ≡ some h
      → s.cancelled h ≡ true
      → Dropped sig s r
      → Handled env (sig ∷ []) s (bind r (λ _. pure tt))
  unfolding Dropped
  drops sig h s (ok b, t) l e x (_, d, y, a, o, p, k) =
      quiet sig s (ok tt, t) (ground (arith, e, x)) refl y a (λ n. live_dropped sig h s t n d k e x)
        (record {
          closed = o ∙ l.closed;
          listening = p ∙ l.listening;
          valid = λ n q. l.valid n (ground (arith, q, d, lookup-delete n sig s.signal_handlers));
        })
  drops sig h s (raise y, t) l e x d = absurd (cc d.0)

  registered_eq :
      (sig h : ℕ) (s : Signals W)
      → handle_registered env sig (some h) s
        ≡ branch
            (s.cancelled h)
            (λ t. bind (remove_signal_handler env (int_sig (pos sig)) t) (λ _. pure tt))
            (wake_with env h)
            s
  unfolding handle_registered
  registered_eq sig h s = refl

  registered :
      (sig h : ℕ) (s : Signals W) (b : Bool)
      → s.cancelled h ≡ b
      → Listening env s
      → lookup sig s.signal_handlers ≡ some h
      → Handled env (sig ∷ []) s (
          branch b
            (λ t. bind (remove_signal_handler env (int_sig (pos sig)) t) (λ _. pure tt))
            (wake_with env h)
            s)
  registered sig h s true x l e =
      drops sig h s (remove_signal_handler env (int_sig (pos sig)) s) l e x (removes sig h s l e)
  registered sig h s false x l e = wakes sig h s l (ground (arith, e, x))

  pub handle_lem :
      (sig : ℕ) (s : Signals W)
      → Listening env s
      → Handled env (sig ∷ []) s (handle_signal env sig s)
  unfolding handle_signal
  handle_lem sig s l = go (lookup sig s.signal_handlers) refl
    where
      go :
          (o : Option ℕ)
          → lookup sig s.signal_handlers ≡ o
          → Handled env (sig ∷ []) s (handle_registered env sig o s)
      go none e = unregistered sig s l e
      go (some h) e = registered sig h s (s.cancelled h) refl l e
