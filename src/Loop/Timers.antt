-- ===== src/Loop/Timers.antt =====
-- uvloop/cbhandles.pyx: the timers of the loop, whatever happens to it.
use mathlib.Core.Path.{subst}
use uvloop.Prelude.{
  ◌⊎◌, if◌then◌else◌, ℕ, ◌+◌, ◌≤◌, ◌<◌, ◌≡◌, refl, sym, ap, ◌∙◌, true, false, List, [], ◌∷◌, ◌++◌,
  Option, none, some, ◌==◌, arith, Bool-cases, inl, inr,
}
use uvloop.Errors.{Exception, is_interrupt}
use uvloop.Python.{M, Outcome, ok, raise, handle, modify, whenever}
use uvloop.Python.Frames.{after_state, branch-Keeps, throw-Keeps, Keeps, preserves, bind-Keeps}
use uvloop.Loop.State.{Env, Loop, contains, check_stop, idle_stop, idle_start}
use uvloop.Loop.Queue.{
  perform, clear_timer, cancel_timer, run_timer, call_timer, run_code, reporting,
}
use uvloop.Loop.Rounds.{
  Event, popleft, on_wake, async_callback, timer_callback, guarded, handle_exception, timer_fires,
  react, run,
}
use uvloop.Loop.Code.{call_exception_handler-Keeps, Code-map, run_code-Keeps, reporting-Keeps}
use uvloop.Loop.Clock.{Timed, Ticks, alone, ticks, alone-Ticks, clocks}
use uvloop.Loop.Clearing.{
  ticks_code, clear_timer-Ticks, cancel_timer-Ticks, clear_timer-off, clear_timer-handles,
}
use uvloop.Loop.Served.{caught-Grows}
use uvloop.Loop.Grow.{Grows, Grows-trans, grows, aside-Grows}
use uvloop.Loop.Grow.Code.{clear_timer-Grows, grows_code}
use uvloop.Loop.Turns.{
  Turns, Writes, Writes-map, swap, run_keeps, handle_exception-Keeps, guarded-Keeps, stop_check,
  rest_round,
}

-- How often a number is in a list.
abbrev pub count : ℕ → List ℕ → ℕ
count n [] = 0
count n (m ∷ l) = (if m == n then 1 else 0) + count n l

count-append :
    (n m : ℕ) (l : List ℕ) → count n (l ++ m ∷ []) ≡ count n l + (if m == n then 1 else 0)
count-append n m [] = omega arith
count-append n m (x ∷ l) = omega (arith, count-append n m l)

module _ {W : Type 0} where
  -- Each timer handle's callback was called at most once, and not while it has a timer.
  pub record Once (s : Loop W) : Type 0 where
    pub timed : Timed s
    pub once : (n : ℕ) → count n s.ran_timers ≤ 1
    pub fresh : (n : ℕ) → (s.timer_handles n).timer ≡ true → count n s.ran_timers ≡ 0
    pub unmade : (n : ℕ) → s.next_timer ≤ n → count n s.ran_timers ≡ 0

module _ {W : Type 0} (env : Env W) where
  -- The state when the callback of timer `n` was called in `s` and ended, with the record that it
  -- was called.
  abbrev pub called : ℕ → ℕ → Loop W → Loop W
  called n callback s =
      (perform env (env.callback callback s.world)
        (record s { ran_timers = s.ran_timers ++ n ∷ [] })).1

  -- The callback of timer `n` is called, and then the timer is gone.
  record Fired (n : ℕ) (s t : Loop W) : Type 0 where
    callback : ℕ
    armed : (s.timer_handles n).callback ≡ some callback
    after : Grows (called n callback s) t
    fired : t.ran_timers ≡ s.ran_timers ++ n ∷ []
    gone : (t.timer_handles n).timer ≡ false
    next : s.next_timer ≤ t.next_timer
    off :
        (m : ℕ)
        → m < s.next_timer
        → (s.timer_handles m).timer ≡ false
        → (t.timer_handles m).timer ≡ false
    timed : Timed t

  -- A timer handle that is cleared has no timer.
  cleared : (n : ℕ) (s : Loop W) → ((clear_timer n s).1.timer_handles n).timer ≡ false
  cleared n s = elim (Bool-cases (s.timer_handles n).timer) [
    | inl b ↦ ap (λ h. h.timer) (clear_timer-handles n s n b) ∙ ground arith
    | inr o ↦ rw (clear_timer-off n s o) o
  ]

  call_timer_lem :
      (n c : ℕ) (s : Loop W)
      → Timed s
      → (s.timer_handles n).callback ≡ some c
      → Fired n s (call_timer env n (some c) s).1
  unfolding call_timer clocks reporting run_code
  call_timer_lem n c s w e =
      let s' : Loop W = record s { ran_timers = s.ran_timers ++ n ∷ [] } in
      let r = reporting env (run_code env (env.callback c)) s' in
      let p : Ticks s' r.1 =
        (reporting-Keeps env ticks (ticks_code env)
            (run_code-Keeps env ticks (ticks_code env) (env.callback c))).keeps
          s' in
      let q : Ticks s' (clear_timer n r.1).1 =
        ticks.both s' r.1 (clear_timer n r.1).1 p ((clear_timer-Ticks n).keeps r.1) in
      subst (Fired n s) (sym (after_state r (clear_timer n))) (record {
        callback = c;
        armed = e;
        after =
            Grows-trans (called n c s) r.1 (clear_timer n r.1).1
              (caught-Grows env (run_code env (env.callback c) s') _ (λ x.
                branch-Keeps grows (is_interrupt x) (throw-Keeps grows x)
                  (call_exception_handler-Keeps env grows (grows_code env) x)))
              ((clear_timer-Grows n).keeps r.1);
        fired = q.fired;
        gone = cleared n r.1;
        next = q.next;
        off = q.off;
        timed =
            q.timed (record { known = w.known; armed = w.armed; quiet = w.quiet; made = w.made });
      })

  -- A timer that fires: its handle is not cancelled and has a callback.
  run_timer_lem :
      (n : ℕ) (s : Loop W)
      → Timed s
      → (s.timer_handles n).timer ≡ true
      → Fired n s (run_timer env n s).1
  unfolding run_timer
  run_timer_lem n s w b =
      go (s.timer_handles n).callback refl (Bool-cases (s.timer_handles n).cancelled)
    where
      go :
          (c : Option ℕ)
          → (s.timer_handles n).callback ≡ c
          → ((s.timer_handles n).cancelled ≡ true) ⊎ ((s.timer_handles n).cancelled ≡ false)
          → Fired n s (run_timer env n s).1
      go c e (inl x) = absurd (cc (w.quiet n x, b))
      go none e (inr x) = absurd (cc (w.armed n b, e))
      go (some c) e (inr x) = rw (x, e) (call_timer_lem n c s w e)

  Fired-Ticks :
      (n : ℕ) (s t u : Loop W)
      → n < s.next_timer
      → Fired n s t
      → Ticks t u
      → Grows t u
      → Fired n s u
  Fired-Ticks n s t u l f k g = record {
    callback = f.callback;
    armed = f.armed;
    after = Grows-trans (called n f.callback s) t u f.after g;
    fired = k.fired ∙ f.fired;
    gone = k.off n (omega (arith, l, f.next)) f.gone;
    next = omega (arith, f.next, k.next);
    off = λ m p q. k.off m (omega (arith, p, f.next)) (f.off m p q);
    timed = k.timed f.timed;
  }

  ends-Ticks :
      (e : Exception) → Keeps (ticks {W = W}) (modify (λ s. record s { last_error = some e }))
  unfolding clocks
  ends-Ticks e = alone-Ticks (modify (λ s. record s { last_error = some e })) (λ s. refl)

  ends-Grows :
      (e : Exception) → Keeps (grows {W = W}) (modify (λ s. record s { last_error = some e }))
  ends-Grows e = aside-Grows (λ s. record s { last_error = some e }) (λ s. refl)

  made_before : (n : ℕ) (s : Loop W) → Timed s → (s.timer_handles n).timer ≡ true → n < s.next_timer
  made_before n s w b = ground (arith, w.made n, b)

  timer_callback_lem :
      (n : ℕ) (s : Loop W)
      → Timed s
      → (s.timer_handles n).timer ≡ true
      → Fired n s (timer_callback env n s).1
  unfolding timer_callback guarded
  timer_callback_lem n s w b = go (run_timer env n s) (run_timer_lem n s w b)
    where
      go :
          (r : Outcome (Unit {0}) × Loop W)
          → Fired n s r.1
          → Fired n s (handle r (handle_exception env)).1
      go (ok a, t) f = f
      go (raise e, t) f =
          Fired-Ticks n s t (handle_exception env e t).1 (made_before n s w b) f
            ((handle_exception-Keeps env ticks (ticks_code env) ends-Ticks e).keeps t)
            ((handle_exception-Keeps env grows (grows_code env) ends-Grows e).keeps t)

  Once-Ticks : (s t : Loop W) → Ticks s t → Once s → Once t
  Once-Ticks s t k o = record {
    timed = k.timed o.timed;
    once = λ n. rw k.fired (o.once n);
    fresh = λ n b. rw k.fired (still n b);
    unmade = λ n l. rw k.fired (o.unmade n (omega (arith, l, k.next)));
  }
    where
      still : (n : ℕ) → (t.timer_handles n).timer ≡ true → count n s.ran_timers ≡ 0
      still n b = ground (arith, b, k.off n, o.fresh n, o.unmade n)

  Once-Fired :
      (n : ℕ) (s t : Loop W) → (s.timer_handles n).timer ≡ true → Fired n s t → Once s → Once t
  Once-Fired n s t b f o = record {
    timed = f.timed;
    once = λ m. rw f.fired (ground (arith, count-append m n s.ran_timers, o.once m, o.fresh n b));
    fresh = λ m c. rw f.fired (ground (arith, count-append m n s.ran_timers, still m c, c, f.gone));
    unmade = λ m l. rw f.fired (
        ground
          (arith, count-append m n s.ran_timers, o.unmade m, made_before n s o.timed b, l, f.next));
  }
    where
      still : (m : ℕ) → (t.timer_handles m).timer ≡ true → count m s.ran_timers ≡ 0
      still m c = ground (arith, c, f.off m, o.fresh m, o.unmade m)

  Once-of : {A : Type 0} {m : M (Loop W) A} → Keeps ticks m → Keeps (preserves Once) m
  Once-of {A} {m} h = record { keeps = λ s o. Once-Ticks s (m s).1 (h.keeps s) o }

  Once-Writes : Writes (preserves (Once {W = W}))
  unfolding stop_check rest_round check_stop idle_stop clocks
  Once-Writes =
      Writes-map (preserves Once) (λ s t k. Once-Ticks s t k)
        (record {
          written = λ stream.
              alone-Ticks (modify (λ s. record s { written = s.written ++ stream ∷ [] }))
                (λ s. refl);
          clears_executing =
              alone-Ticks (modify (λ s. record s { executing_streams = [] })) (λ s. refl);
          unchecked = λ s h. alone s (whenever s.check_running check_stop s).1 (ground arith);
          swaps = λ s h. alone s (swap s) refl;
          stops_check = alone-Ticks stop_check (λ s. ground arith);
          rests = alone-Ticks rest_round (λ s. ground arith);
        })

  Once-Turns : Turns env (preserves Once)
  unfolding on_wake async_callback popleft idle_start clocks guarded
  Once-Turns = record {
    code = Code-map (preserves Once) (λ s t k. Once-Ticks s t k) (ticks_code env);
    writes = Once-Writes;
    pops = Once-of (alone-Ticks (popleft env) (λ s. ground arith));
    ends = λ e. Once-of (ends-Ticks e);
    woken = Once-of (alone-Ticks (on_wake env) (λ s. ground arith));
    async = Once-of (
        bind-Keeps ticks (alone-Ticks (modify (λ s. record s { async_sent = false })) (λ s. refl))
          (λ _.
            guarded-Keeps env ticks (ticks_code env) ends-Ticks
              (alone-Ticks (on_wake env) (λ s. ground arith))));
    fires =
        λ n s b o. Once-Fired n s (timer_callback env n s).1 b (timer_callback_lem n s o.timed b) o;
  }

  -- If the timer handles that have a timer are those in the set of timers, were made, have a
  -- callback and are not cancelled, and each timer handle's callback was called at most once and
  -- not while it has its timer, then all this holds after any sequence of events, whatever user
  -- code does in them: no timer fires twice.
  pub run-Once : (s : Loop W) (es : List Event) → Once s → Once (run env s es)
  run-Once s es o = run_keeps env (preserves Once) Once-Turns s es o

  -- In such a state, if the timer of a handle fires, its callback is called in that state, and what
  -- follows only adds to what the callback did; no other timer handle's callback is called, and
  -- afterwards the handle has no timer and is not in the set of timers, also if the callback
  -- raises.
  pub react-fires :
      (n : ℕ) (s : Loop W)
      → Once s
      → (s.timer_handles n).timer ≡ true
      → ((c : ℕ) × (((s.timer_handles n).callback ≡ some c)
            × Grows (called n c s) (react env (timer_fires n) s).1))
        × ((react env (timer_fires n) s).1.ran_timers ≡ s.ran_timers ++ n ∷ [])
        × (((react env (timer_fires n) s).1.timer_handles n).timer ≡ false)
        × (contains n (react env (timer_fires n) s).1.timers ≡ false)
  unfolding react
  react-fires n s o b =
      let f = timer_callback_lem n s o.timed b in
      rw b ((f.callback, (f.armed, f.after)), f.fired, f.gone, f.timed.known n ∙ f.gone)

  -- In such a state, `TimerHandle.cancel` succeeds, and the timer handle is cancelled, has no timer
  -- and is not in the set of timers.
  pub cancel_timer-clears :
      (n : ℕ) (s : Loop W)
      → Once s
      → ((cancel_timer n s).0 ≡ ok tt)
        × (((cancel_timer n s).1.timer_handles n).cancelled ≡ true)
        × (((cancel_timer n s).1.timer_handles n).timer ≡ false)
        × (contains n (cancel_timer n s).1.timers ≡ false)
  unfolding cancel_timer clear_timer
  cancel_timer-clears n s o =
      (a, b, c, (((cancel_timer-Ticks n).keeps s).timed o.timed).known n ∙ c)
    where
      a : (cancel_timer n s).0 ≡ ok tt
      a = ground (arith, o.timed.known n)

      b : ((cancel_timer n s).1.timer_handles n).cancelled ≡ true
      b = ground arith

      c : ((cancel_timer n s).1.timer_handles n).timer ≡ false
      c = ground (arith, o.timed.quiet n)
