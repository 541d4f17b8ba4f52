-- ===== src/Loop/Clearing.antt =====
-- uvloop/cbhandles.pyx: making, cancelling and clearing timers, and what user code does to them.
use uvloop.Prelude.{
  ℕ, ◌≡◌, refl, ◌∙◌, Bool, true, false, not, ◌&&◌, [], ◌∷◌, ◌++◌, none, ◌==◌, arith, ℤ,
}
use uvloop.Errors.{runtime_error}
use uvloop.Python.{M, ok, ◌>>◌, pure, modify, branch}
use uvloop.Python.Frames.{
  Keeps, pure-Keeps, throw-Keeps, branch-Keeps, branch_of-Keeps, bind-Keeps, branch_state,
}
use uvloop.Loop.State.{
  Action, calls_soon, calls_soon_threadsafe, calls_later, cancels, cancels_timer, stops,
  queues_write, Env, Loop, TimerHandle, update, contains, remove, check_closed,
}
use uvloop.Loop.Queue.{
  stop, cancel, clear_timer, cancel_timer, new_timer_handle, to_delay, call_later, returns_zero,
  act,
}
use uvloop.Loop.Code.{Code}
use uvloop.Loop.Clock.{
  Timed, Ticks, ticks, clocks, alone-Ticks, contains-add, contains-remove, call_soon_handle-Ticks,
  call_soon-Ticks, stop_now-Ticks, call_soon_threadsafe-Ticks, queue_write-Ticks, new_handle-Ticks,
}

module _ {W : Type 0} where
  -- A timer handle loses its timer.
  dropped :
      (n : ℕ) (h : TimerHandle) (s t : Loop W)
      → ((m : ℕ) → t.timer_handles m ≡ update s.timer_handles n h m)
      → t.next_timer ≡ s.next_timer
      → t.ran_timers ≡ s.ran_timers
      → h.timer ≡ false
      → (Timed s → (m : ℕ) → contains m t.timers ≡ (contains m s.timers && not (n == m)))
      → Ticks s t
  dropped n h s t a b c d e = record {
    fired = c;
    next = omega (arith, b);
    off = λ m l q. rw (a m) (ground (arith, d, q));
    timed = λ w. record {
      known = λ m. rw (a m) (ground (arith, d, e w m, w.known m));
      armed = λ m. rw (a m) (ground (arith, d, w.armed m));
      quiet = λ m. rw (a m) (ground (arith, d, w.quiet m));
      made = λ m. rw (a m, b) (ground (arith, d, w.made m));
    };
  }

  pub clear_timer-off :
      (n : ℕ) (s : Loop W) → (s.timer_handles n).timer ≡ false → clear_timer n s ≡ (ok tt, s)
  unfolding clear_timer
  clear_timer-off n s o = rw (o, branch) refl

  -- The timer handle without its timer and its callback.
  abbrev without_timer : ℕ → Loop W → Loop W
  without_timer n s = record s {
    timer_handles =
        update s.timer_handles n (record (s.timer_handles n) { callback = none; timer = false });
  }

  pub clear_timer-handles :
      (n : ℕ) (s : Loop W) (m : ℕ)
      → (s.timer_handles n).timer ≡ true
      → (clear_timer n s).1.timer_handles m ≡ (without_timer n s).timer_handles m
  unfolding clear_timer
  clear_timer-handles n s m b = ground arith

  clear_timer-rest :
      (n : ℕ) (s : Loop W)
      → ((clear_timer n s).1.next_timer ≡ s.next_timer)
        × ((clear_timer n s).1.ran_timers ≡ s.ran_timers)
  unfolding clear_timer
  clear_timer-rest n s = ground arith

  pub clear_timer-timers :
      (n : ℕ) (s : Loop W)
      → (s.timer_handles n).timer ≡ true
      → contains n s.timers ≡ true
      → ((clear_timer n s).0 ≡ ok tt) × ((clear_timer n s).1.timers ≡ remove n s.timers)
  unfolding clear_timer
  clear_timer-timers n s b c = ground arith

  pub clear_timer-Ticks : (n : ℕ) → Keeps ticks (clear_timer {W = W} n)
  clear_timer-Ticks n = record { keeps = λ s. go s (s.timer_handles n).timer refl }
    where
      go : (s : Loop W) (b : Bool) → (s.timer_handles n).timer ≡ b → Ticks s (clear_timer n s).1
      go s false o = rw (clear_timer-off n s o) (ticks.stay s)
      go s true b =
          dropped n (record (s.timer_handles n) { callback = none; timer = false }) s
            (clear_timer n s).1 (λ m. clear_timer-handles n s m b) (clear_timer-rest n s).0
            (clear_timer-rest n s).1 refl
            (λ w m. rw (clear_timer-timers n s b (w.known n ∙ b)).1 (contains-remove m n s.timers))

  set_cancelled : ℕ → Loop W → Loop W
  set_cancelled n t = record t {
    timer_handles = update t.timer_handles n (record (t.timer_handles n) { cancelled = true });
  }

  cancelled_timer : (n : ℕ) (s : Loop W) → Ticks s (clear_timer n (set_cancelled n s)).1
  unfolding set_cancelled
  cancelled_timer n s = go (s.timer_handles n).timer refl
    where
      at_n : ((set_cancelled n s).timer_handles n).timer ≡ (s.timer_handles n).timer
      at_n = ground arith

      go :
          (b : Bool) → (s.timer_handles n).timer ≡ b → Ticks s (clear_timer n (set_cancelled n s)).1
      go false o = rw (clear_timer-off n (set_cancelled n s) (at_n ∙ o)) (
          dropped n (record (s.timer_handles n) { cancelled = true }) s (set_cancelled n s)
            (λ m. refl) refl refl o (λ w m. ground (arith, w.known n, o)))
      go true b =
          dropped n
            (record (s.timer_handles n) { cancelled = true; callback = none; timer = false }) s
            (clear_timer n (set_cancelled n s)).1
            (λ m. clear_timer-handles n (set_cancelled n s) m (at_n ∙ b) ∙ ground arith)
            (clear_timer-rest n (set_cancelled n s)).0 (clear_timer-rest n (set_cancelled n s)).1
            refl
            (λ w m.
              rw (clear_timer-timers n (set_cancelled n s) (at_n ∙ b) (w.known n ∙ b)).1
                (contains-remove m n s.timers))

  pub cancel_timer-Ticks : (n : ℕ) → Keeps ticks (cancel_timer {W = W} n)
  unfolding cancel_timer set_cancelled
  cancel_timer-Ticks n = record {
    keeps = λ s.
        branch_state (Ticks s) (s.timer_handles n).cancelled (pure tt)
          (do modify (set_cancelled n); clear_timer n) s (λ _. ticks.stay s)
          (λ _. cancelled_timer n s);
  }

module _ {W : Type 0} (env : Env W) where
  new_timer_handle-Ticks : (delay callback : ℕ) → Keeps ticks (new_timer_handle env delay callback)
  unfolding new_timer_handle
  new_timer_handle-Ticks delay callback = record {
    keeps = λ s. record {
      fired = refl;
      next = omega arith;
      off = λ n l q. ground (arith, l, q);
      timed = λ w. record {
        known = λ m.
            ground (arith, w.known m, w.known s.next_timer, contains-add m s.next_timer s.timers);
        armed = λ m. ground (arith, w.armed m);
        quiet = λ m. ground (arith, w.quiet m);
        made = λ m l. ground (arith, l, w.made m);
      };
    };
  }

  call_later-Ticks : (delay : ℤ) (callback : ℕ) → Keeps ticks (call_later env delay callback)
  unfolding call_later check_closed
  call_later-Ticks delay callback =
      bind-Keeps ticks
        (branch_of-Keeps ticks (λ s. s.closed) (throw-Keeps ticks runtime_error)
          (pure-Keeps ticks tt))
        (λ _.
          branch-Keeps ticks (to_delay env delay == 0) (call_soon-Ticks callback)
            (new_timer_handle-Ticks (to_delay env delay) callback))

  stop-Ticks : Keeps ticks (stop {W = W})
  unfolding stop
  stop-Ticks = bind-Keeps ticks (new_handle-Ticks _) call_soon_handle-Ticks

  cancel-Ticks : (n : ℕ) → Keeps ticks (cancel {W = W} n)
  unfolding cancel clocks
  cancel-Ticks n = alone-Ticks (cancel n) (λ s. refl)

  returns_zero-Ticks :
      {m : M (Loop W) (Unit {0})} → Keeps ticks m → Keeps ticks (returns_zero env m)
  unfolding returns_zero
  returns_zero-Ticks h = bind-Keeps ticks h (λ _. pure-Keeps ticks 0)

  act-Ticks : (action : Action) → Keeps ticks (act env action)
  unfolding act
  act-Ticks (calls_soon callback) = call_soon-Ticks callback
  act-Ticks (calls_soon_threadsafe callback) = call_soon_threadsafe-Ticks callback
  act-Ticks (calls_later delay callback) = call_later-Ticks delay callback
  act-Ticks (cancels n) = returns_zero-Ticks (cancel-Ticks n)
  act-Ticks (cancels_timer n) = returns_zero-Ticks (cancel_timer-Ticks n)
  act-Ticks stops = returns_zero-Ticks stop-Ticks
  act-Ticks (queues_write stream) = returns_zero-Ticks (queue_write-Ticks stream)

  -- What user code does to the timers, whatever it calls.
  pub ticks_code : Code env ticks
  unfolding clocks
  ticks_code = record {
    acts = act-Ticks;
    worlds = λ w. alone-Ticks (modify (λ s. record s { world = w })) (λ s. refl);
    reports =
        λ e. alone-Ticks (modify (λ s. record s { reported = s.reported ++ e ∷ [] })) (λ s. refl);
    runs = λ n. alone-Ticks (modify (λ s. record s { ran = s.ran ++ n ∷ [] })) (λ s. refl);
    stops = stop_now-Ticks;
  }
