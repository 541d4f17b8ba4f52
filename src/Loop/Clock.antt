-- ===== src/Loop/Clock.antt =====
-- uvloop/cbhandles.pyx: what user code does to the timers of the loop.
use uvloop.Prelude.{
  ℕ, ◌≤◌, ◌<◌, ◌≡◌, refl, ap, ◌∙◌, true, false, not, ◌&&◌, ◌||◌, List, [], ◌∷◌, ◌++◌, Option, ◌==◌,
  arith, is_some,
}
use uvloop.Errors.{Exception}
use uvloop.Python.{M}
use uvloop.Python.Frames.{Frame, Keeps, pure-Keeps, bind-Keeps}
use uvloop.Loop.State.{Loop, TimerHandle, contains, remove, idle_start, check_start, async_send}
use uvloop.Loop.Queue.{
  new_handle, append_ready_handle, call_soon_handle, call_soon, call_soon_threadsafe, stop_now,
  queue_write,
}

pub contains-add : (m n : ℕ) (l : List ℕ) → contains m (l ++ n ∷ []) ≡ (contains m l || n == m)
contains-add m n [] = ground arith
contains-add m n (x ∷ l) = ground (arith, contains-add m n l)

pub contains-remove :
    (m n : ℕ) (l : List ℕ) → contains m (remove n l) ≡ (contains m l && not (n == m))
contains-remove m n [] = refl
contains-remove m n (x ∷ l) = ground (arith, contains-remove m n l)

-- The parts of the loop that timers are about.
abbrev pub Clocks : Type 0
Clocks = (ℕ → TimerHandle) × ℕ × List ℕ × List ℕ

module _ {W : Type 0} where
  -- The timer handles that have a timer are those in `loop._timers`; they have a callback and are
  -- not cancelled; and they were made.
  pub record Timed (s : Loop W) : Type 0 where
    pub known : (n : ℕ) → contains n s.timers ≡ (s.timer_handles n).timer
    pub armed :
        (n : ℕ) → (s.timer_handles n).timer ≡ true → is_some (s.timer_handles n).callback ≡ true
    pub quiet : (n : ℕ) → (s.timer_handles n).cancelled ≡ true → (s.timer_handles n).timer ≡ false
    pub made : (n : ℕ) → s.next_timer ≤ n → (s.timer_handles n).timer ≡ false

  pub record Ticks (s t : Loop W) : Type 0 where
    pub fired : t.ran_timers ≡ s.ran_timers
    pub next : s.next_timer ≤ t.next_timer
    pub off :
        (n : ℕ)
        → n < s.next_timer
        → (s.timer_handles n).timer ≡ false
        → (t.timer_handles n).timer ≡ false
    pub timed : Timed s → Timed t

  abbrev pub ticks : Frame (Loop W)
  ticks = record {
    Rel = Ticks;
    stay = λ s. record { fired = refl; next = omega arith; off = λ n l h. h; timed = λ h. h };
    both = λ s t u p q. record {
      fired = q.fired ∙ p.fired;
      next = omega (arith, p.next, q.next);
      off = λ n l h. q.off n (omega (arith, p.next)) (p.off n l h);
      timed = λ h. q.timed (p.timed h);
    };
  }

  unfoldable pub clocks : Loop W → Clocks
  clocks s = (s.timer_handles, s.next_timer, s.timers, s.ran_timers)

  Timed_of :
      (s t : Loop W)
      → t.timer_handles ≡ s.timer_handles
      → t.next_timer ≡ s.next_timer
      → t.timers ≡ s.timers
      → Timed s
      → Timed t
  Timed_of s t a b c h = record {
    known = λ n. rw (a, c) (h.known n);
    armed = λ n. rw a (h.armed n);
    quiet = λ n. rw a (h.quiet n);
    made = λ n. rw (a, b) (h.made n);
  }

  -- A method that leaves the timers alone.
  pub alone : (s t : Loop W) → clocks t ≡ clocks s → Ticks s t
  unfolding clocks
  alone s t e = record {
    fired = ap (λ p. p.3) e;
    next = omega (arith, ap (λ (p : Clocks). p.1) e);
    off = λ n l h. ap (λ p. (p.0 n).timer) e ∙ h;
    timed = Timed_of s t (ap (λ p. p.0) e) (ap (λ p. p.1) e) (ap (λ p. p.2) e);
  }

  pub alone-Ticks :
      {A : Type 0} (m : M (Loop W) A) → ((s : Loop W) → clocks (m s).1 ≡ clocks s) → Keeps ticks m
  alone-Ticks m h = record { keeps = λ s. alone s (m s).1 (h s) }

  pub new_handle-Ticks : (t : _) → Keeps ticks (new_handle {W = W} t)
  unfolding new_handle clocks
  new_handle-Ticks t = alone-Ticks (new_handle t) (λ s. refl)

  pub call_soon_handle-Ticks : (n : ℕ) → Keeps ticks (call_soon_handle {W = W} n)
  unfolding call_soon_handle append_ready_handle idle_start clocks
  call_soon_handle-Ticks n = alone-Ticks (call_soon_handle n) (λ s. ground arith)

  pub call_soon-Ticks : (callback : ℕ) → Keeps ticks (call_soon {W = W} callback)
  unfolding call_soon
  call_soon-Ticks callback =
      bind-Keeps ticks (new_handle-Ticks _)
        (λ n. bind-Keeps ticks (call_soon_handle-Ticks n) (λ _. pure-Keeps ticks n))

  pub stop_now-Ticks : (exc : Option Exception) → Keeps ticks (stop_now {W = W} exc)
  unfolding stop_now idle_start clocks
  stop_now-Ticks exc = alone-Ticks (stop_now exc) (λ s. ground arith)

  pub call_soon_threadsafe-Ticks :
      (callback : ℕ) → Keeps ticks (call_soon_threadsafe {W = W} callback)
  unfolding call_soon_threadsafe append_ready_handle async_send clocks new_handle
  call_soon_threadsafe-Ticks callback =
      alone-Ticks (call_soon_threadsafe callback) (λ s. ground arith)

  pub queue_write-Ticks : (stream : ℕ) → Keeps ticks (queue_write {W = W} stream)
  unfolding queue_write check_start clocks
  queue_write-Ticks stream = alone-Ticks (queue_write stream) (λ s. ground arith)
