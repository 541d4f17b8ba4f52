-- ===== src/Signals/Adding.antt =====
-- uvloop/loop.pyx: what `add_signal_handler` leaves in the table of handlers.
use uvloop.Prelude.{
  lookup, store, delete, lookup-delete, lookup-store, ℕ, suc, ◌≡◌, ap, ◌∙◌, true, false, ◌&&◌, none,
  some, ◌==◌, ltb, if◌then◌else◌, arith, pos,
}
use uvloop.Errors.{Exception, is_os_error}
use uvloop.Python.{Outcome, ok, raise}
use uvloop.Signals.{int_sig, callable, sighandler, SignalEnv, Signals, check_signal}
use uvloop.Signals.Handlers.{unregister, register, add_checked, add_signal_handler}

module _ {W : Type 0} (env : SignalEnv W) where
  -- The state in which the signal is registered, before Python is asked for it.
  abbrev stored : ℕ → Signals W → Signals W
  stored sig s = record s {
    signal_handlers = store sig s.next_handle s.signal_handlers;
    cancelled = λ n. if n == s.next_handle then false else s.cancelled n;
    next_handle = suc s.next_handle;
  }

  -- A signal that may have a handler, in an open loop of the main thread.
  pub record Addable (sig : ℕ) (s : Signals W) : Type 0 where
    pub main : env.is_main_thread ≡ true
    pub unclosed : s.closed ≡ false
    pub in_range : (ltb 0 sig && ltb sig env.nsig) ≡ true
    pub other : (sig == env.sigchld) ≡ false

  adds_eq :
      (sig : ℕ) (s : Signals W)
      → Addable sig s
      → add_signal_handler env (int_sig (pos sig)) callable s ≡ register env sig s
  unfolding add_signal_handler add_checked check_signal
  adds_eq sig s a = ground (arith, a.main, a.unclosed, a.in_range, a.other)

  Registered : ℕ → Signals W → Outcome (Unit {0}) × Signals W → Type 0
  Registered sig s r =
      (r.0 ≡ ok tt) × (r.1.signal_handlers ≡ store sig s.next_handle s.signal_handlers)

  registers :
      (sig : ℕ) (s : Signals W)
      → ((w : W) → (env.signal sig sighandler w).0 ≡ ok tt)
      → ((w : W) → (env.siginterrupt sig w).0 ≡ ok tt)
      → Registered sig s (register env sig s)
  unfolding register Registered
  registers sig s a b = ground (arith, a s.world, b (env.signal sig sighandler s.world).1)

  refuses :
      (sig : ℕ) (s : Signals W) (e : Exception)
      → (env.signal sig sighandler s.world).0 ≡ raise e
      → is_os_error e ≡ true
      → (register env sig s).1.signal_handlers
        ≡ delete sig (store sig s.next_handle s.signal_handlers)
  unfolding register unregister
  refuses sig s e a b = ground (arith, a, b)

  -- If the loop is open, in the main thread, and the signal is in range and not SIGCHLD, and Python
  -- accepts a handler for it: `add_signal_handler` returns, the signal has the new handle, and
  -- other signals keep what they had.
  pub add_signal_handler_accepted :
      (sig : ℕ) (s : Signals W)
      → Addable sig s
      → ((w : W) → (env.signal sig sighandler w).0 ≡ ok tt)
      → ((w : W) → (env.siginterrupt sig w).0 ≡ ok tt)
      → ((add_signal_handler env (int_sig (pos sig)) callable s).0 ≡ ok tt)
        × ((m : ℕ)
            → lookup m (add_signal_handler env (int_sig (pos sig)) callable s).1.signal_handlers
              ≡ (if sig == m then some s.next_handle else lookup m s.signal_handlers))
  unfolding Registered
  add_signal_handler_accepted sig s a b d =
      let (x, y) = registers sig s b d in
      let e = adds_eq sig s a in
      (
        ap (λ r. r.0) e ∙ x,
        λ m.
            ap (λ r. lookup m r.1.signal_handlers) e
            ∙ ap (lookup m) y
            ∙ lookup-store m sig s.next_handle s.signal_handlers,
      )

  -- In such a state, if Python refuses a handler for the signal with an `OSError`: the signal has
  -- no handler, also not the one that it may have had before, and other signals keep what they had.
  pub add_signal_handler_refused :
      (sig : ℕ) (s : Signals W) (e : Exception)
      → Addable sig s
      → (env.signal sig sighandler s.world).0 ≡ raise e
      → is_os_error e ≡ true
      → (m : ℕ)
      → lookup m (add_signal_handler env (int_sig (pos sig)) callable s).1.signal_handlers
        ≡ (if sig == m then none else lookup m s.signal_handlers)
  add_signal_handler_refused sig s e a b d m =
      ap (λ r. lookup m r.1.signal_handlers) (adds_eq sig s a)
      ∙ ap (lookup m) (refuses sig s e b d)
      ∙ lookup-delete m sig (store sig s.next_handle s.signal_handlers)
      ∙ ground (arith, lookup-store m sig s.next_handle s.signal_handlers)
