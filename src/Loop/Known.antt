-- ===== src/Loop/Known.antt =====
-- uvloop/loop.pyx: the handles in the queue were made by the loop.
use mathlib.Core.Path.{subst}
use uvloop.Prelude.{
  ℕ, suc, ◌≤◌, ◌<◌, ◌≡◌, refl, ◌⊎◌, inl, inr, false, List, [], ◌∷◌, ◌++◌, Option, some, ◌==◌, arith,
  ℤ, All, All-map,
}
use uvloop.Errors.{Exception, runtime_error}
use uvloop.Python.{M, modify, whenever}
use uvloop.Python.Frames.{
  Keeps, preserves, pure-Keeps, throw-Keeps, branch-Keeps, branch_of-Keeps, bind-Keeps,
}
use uvloop.Loop.State.{
  Action, calls_soon, calls_soon_threadsafe, calls_later, cancels, cancels_timer, stops,
  queues_write, Env, Loop, idle_start, idle_stop, check_start, check_stop, async_send, check_closed,
}
use uvloop.Loop.Queue.{
  new_handle, append_ready_handle, call_soon_handle, call_soon, call_soon_threadsafe, stop,
  stop_now, cancel, queue_write, clear_timer, cancel_timer, new_timer_handle, to_delay, call_later,
  returns_zero, act,
}
use uvloop.Loop.Rounds.{Event, popleft, on_wake, async_callback, timer_callback, run}
use uvloop.Loop.Code.{Code, run_timer-Keeps}
use uvloop.Loop.Steady.{popleft_by}
use uvloop.Loop.Turns.{Turns, Writes, run_keeps, guarded-Keeps, stop_check, rest_round}

below_last :
    (k : ℕ) (l : List ℕ) (n : ℕ) → All (λ m. m < k) l → n < k → All (λ m. m < k) (l ++ n ∷ [])
below_last k [] n h p = (p, tt)
below_last k (x ∷ l) n h p = (h.0, below_last k l n h.1 p)

module _ {W : Type 0} where
  abbrev pub IsKnown : Loop W → Type 0
  IsKnown s = All (λ n. n < s.next_handle) s.ready

  -- The queue stays, and handles are made.
  kept : (s t : Loop W) → t.ready ≡ s.ready → s.next_handle ≤ t.next_handle → IsKnown s → IsKnown t
  kept s t e l h = rw e (All-map s.ready (λ n p. omega (arith, p, l)) h)

  Same : Loop W → Loop W → Type 0
  Same s t = (t.ready ≡ s.ready) × (t.next_handle ≡ s.next_handle)

  kept-Known :
      {A : Type 0} (m : M (Loop W) A)
      → ((s : Loop W) → Same s (m s).1)
      → Keeps (preserves IsKnown) m
  unfolding Same
  kept-Known m h = record { keeps = λ s. kept s (m s).1 (h s).0 (omega (arith, (h s).1)) }

  -- A handle that is made and put into the queue.
  queued :
      (s t : Loop W)
      → t.next_handle ≡ suc s.next_handle
      → (t.ready ≡ s.ready) ⊎ (t.ready ≡ s.ready ++ s.next_handle ∷ [])
      → IsKnown s
      → IsKnown t
  queued s t e (inl r) h = kept s t r (omega (arith, e)) h
  queued s t e (inr r) h = rw r (
      below_last t.next_handle s.ready s.next_handle
        (All-map s.ready (λ n p. omega (arith, p, e)) h) (omega (arith, e)))

  call_soon-Known : (callback : ℕ) → Keeps (preserves IsKnown) (call_soon {W = W} callback)
  unfolding call_soon new_handle call_soon_handle append_ready_handle idle_start
  call_soon-Known callback = record {
    keeps = λ s. queued s (call_soon callback s).1 (ground arith) (ground arith);
  }

  stop-Known : Keeps (preserves IsKnown) (stop {W = W})
  unfolding stop new_handle call_soon_handle append_ready_handle idle_start
  stop-Known = record { keeps = λ s. queued s (stop s).1 (ground arith) (ground arith) }

  call_soon_threadsafe-Known :
      (callback : ℕ) → Keeps (preserves IsKnown) (call_soon_threadsafe {W = W} callback)
  unfolding call_soon_threadsafe new_handle append_ready_handle async_send
  call_soon_threadsafe-Known callback = record {
    keeps = λ s. queued s (call_soon_threadsafe callback s).1 (ground arith) (ground arith);
  }

  cancel_timer-Known : (n : ℕ) → Keeps (preserves IsKnown) (cancel_timer {W = W} n)
  unfolding cancel_timer clear_timer Same
  cancel_timer-Known n = kept-Known (cancel_timer n) (λ s. ground arith)

  clear_timer-Known : (n : ℕ) → Keeps (preserves IsKnown) (clear_timer {W = W} n)
  unfolding clear_timer Same
  clear_timer-Known n = kept-Known (clear_timer n) (λ s. ground arith)

  queue_write-Known : (n : ℕ) → Keeps (preserves IsKnown) (queue_write {W = W} n)
  unfolding queue_write check_start Same
  queue_write-Known n = kept-Known (queue_write n) (λ s. ground arith)

  stop_now-Known : (exc : Option Exception) → Keeps (preserves IsKnown) (stop_now {W = W} exc)
  unfolding stop_now idle_start Same
  stop_now-Known exc = kept-Known (stop_now exc) (λ s. ground arith)

module _ {W : Type 0} (env : Env W) where
  call_later-Known :
      (delay : ℤ) (callback : ℕ) → Keeps (preserves IsKnown) (call_later env delay callback)
  unfolding call_later check_closed new_timer_handle Same
  call_later-Known delay callback =
      bind-Keeps (preserves IsKnown)
        (branch_of-Keeps (preserves IsKnown) (λ s. s.closed)
          (throw-Keeps (preserves IsKnown) runtime_error) (pure-Keeps (preserves IsKnown) tt))
        (λ _.
          branch-Keeps (preserves IsKnown) (to_delay env delay == 0) (call_soon-Known callback)
            (kept-Known (new_timer_handle env (to_delay env delay) callback) (λ s. (refl, refl))))

  zero-Known :
      {m : M (Loop W) (Unit {0})}
      → Keeps (preserves IsKnown) m
      → Keeps (preserves IsKnown) (returns_zero env m)
  unfolding returns_zero
  zero-Known h = bind-Keeps (preserves IsKnown) h (λ _. pure-Keeps (preserves IsKnown) 0)

  act-Known : (action : Action) → Keeps (preserves IsKnown) (act env action)
  unfolding act cancel Same
  act-Known (calls_soon callback) = call_soon-Known callback
  act-Known (calls_soon_threadsafe callback) = call_soon_threadsafe-Known callback
  act-Known (calls_later delay callback) = call_later-Known delay callback
  act-Known (cancels n) = zero-Known (kept-Known (cancel n) (λ s. (refl, refl)))
  act-Known (cancels_timer n) = zero-Known (cancel_timer-Known n)
  act-Known stops = zero-Known stop-Known
  act-Known (queues_write stream) = zero-Known (queue_write-Known stream)

  IsKnown-code : Code env (preserves IsKnown)
  unfolding Same
  IsKnown-code = record {
    acts = act-Known;
    worlds = λ w. kept-Known (modify (λ s. record s { world = w })) (λ s. (refl, refl));
    reports = λ e.
        kept-Known (modify (λ s. record s { reported = s.reported ++ e ∷ [] })) (λ s. (refl, refl));
    runs = λ n. kept-Known (modify (λ s. record s { ran = s.ran ++ n ∷ [] })) (λ s. (refl, refl));
    stops = stop_now-Known;
  }

  ends-Known :
      (e : Exception)
      → Keeps (preserves (IsKnown {W = W})) (modify (λ s. record s { last_error = some e }))
  unfolding Same
  ends-Known e = kept-Known (modify (λ s. record s { last_error = some e })) (λ s. (refl, refl))

  IsKnown-Writes : Writes (preserves (IsKnown {W = W}))
  unfolding stop_check rest_round check_stop idle_stop Same
  IsKnown-Writes = record {
    written = λ stream.
        kept-Known (modify (λ s. record s { written = s.written ++ stream ∷ [] }))
          (λ s. (refl, refl));
    clears_executing =
        kept-Known (modify (λ s. record s { executing_streams = [] })) (λ s. (refl, refl));
    unchecked =
        λ s h p. kept s (whenever s.check_running check_stop s).1 (ground arith) (ground arith) p;
    swaps = λ s h p. p;
    stops_check = kept-Known stop_check (λ s. ground arith);
    rests = kept-Known rest_round (λ s. ground arith);
  }

  popleft-Known : (s : Loop W) → IsKnown s → IsKnown (popleft env s).1
  popleft-Known =
      popleft_by env (λ s t. IsKnown s → IsKnown t) (λ s h. h)
        (λ s n rest e h. (subst (All (λ m. m < s.next_handle)) e h).1)

  on_wake-Known : Keeps (preserves IsKnown) (on_wake env)
  unfolding on_wake idle_start Same
  on_wake-Known = kept-Known (on_wake env) (λ s. ground arith)

  fires-Known :
      (n : ℕ)
      → Keeps
          (preserves IsKnown)
          (modify (λ (s : Loop W). record s { ran_timers = s.ran_timers ++ n ∷ [] }))
  unfolding Same
  fires-Known n =
      kept-Known (modify (λ s. record s { ran_timers = s.ran_timers ++ n ∷ [] }))
        (λ s. (refl, refl))

  IsKnown-Turns : Turns env (preserves IsKnown)
  unfolding async_callback timer_callback Same
  IsKnown-Turns = record {
    code = IsKnown-code;
    writes = IsKnown-Writes;
    pops = record { keeps = popleft-Known };
    ends = ends-Known;
    woken = on_wake-Known;
    async =
        bind-Keeps (preserves IsKnown)
          (kept-Known (modify (λ s. record s { async_sent = false })) (λ s. (refl, refl)))
          (λ _. guarded-Keeps env (preserves IsKnown) IsKnown-code ends-Known on_wake-Known);
    fires = λ n s b.
        (guarded-Keeps env (preserves IsKnown) IsKnown-code ends-Known (
            run_timer-Keeps env (preserves IsKnown) IsKnown-code fires-Known clear_timer-Known
              n)).keeps
          s;
  }

  pub run-Known : (s : Loop W) (es : List Event) → IsKnown s → IsKnown (run env s es)
  run-Known s es h = run_keeps env (preserves IsKnown) IsKnown-Turns s es h
