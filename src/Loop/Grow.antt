-- ===== src/Loop/Grow.antt =====
-- uvloop/loop.pyx: what user code can do to the loop, whatever it calls: it only adds to the queue,
-- only cancels, and the loop stays awake while there is work.
pub mod Methods
pub mod Code
use mathlib.Core.List.{append-nil, append_assoc}
use uvloop.Prelude.{
  ℕ, zero, suc, ◌+◌, ◌≤◌, ◌<◌, ◌≡◌, refl, sym, ap, ◌∙◌, Bool, true, false, not, ◌&&◌, ◌||◌, List,
  [], ◌∷◌, ◌++◌, Option, none, some, ◌==◌, ltb, length, arith, Bool-cases, inl, inr,
}
use uvloop.Errors.{Exception, is_interrupt, runtime_error, key_error}
use uvloop.Python.{M, Outcome, ok, raise, ◌>>=◌, ◌>>◌, pure, throw, modify, branch}
use uvloop.Python.Frames.{
  Frame, Keeps, Keeps-of, pure-Keeps, throw-Keeps, get_state-Keeps, branch-Keeps, branch_of-Keeps,
  catch-Keeps, bind-Keeps, finally-Keeps,
}
use uvloop.Loop.State.{
  Action, calls_soon, calls_soon_threadsafe, calls_later, cancels, cancels_timer, stops,
  queues_write, Program, done, call, Target, python, stop_method, method, Handle, Env, Loop, update,
  contains, add, remove, idle_start, check_start, async_send, check_closed,
}
use uvloop.Loop.Queue.{
  new_handle, append_ready_handle, call_soon_handle, call_soon, call_soon_threadsafe, stop,
  stop_now, cancel, queue_write, clear_timer, cancel_timer, new_timer_handle, to_delay, call_later,
  returns_zero, act, perform, run_code, default_handler, call_exception_handler, reporting,
  call_target, call_timer, run_timer,
}

pub joined : (a b c x y : List ℕ) → b ≡ a ++ x → c ≡ b ++ y → c ≡ a ++ (x ++ y)
joined a b c x y p q = q ∙ ap (λ l. l ++ y) p ∙ append_assoc a x y

-- What `Grows` looks at.
abbrev pub Parts : Type 0
Parts =
    List ℕ
    × List ℕ
    × List ℕ
    × List ℕ
    × List ℕ
    × Bool
    × Bool
    × Bool
    × Bool
    × Bool
    × Bool
    × ℕ
    × (ℕ → Handle)

abbrev pub asleep_parts : Parts → Bool
asleep_parts p = not p.5 && ((ltb 0 (length p.0) || p.6) && not (p.7 || (p.8 || p.9)))

abbrev pub unwritten_parts : Parts → Bool
unwritten_parts p = not p.5 && (ltb 0 (length p.4) && not p.10)

module _ {W : Type 0} where
  -- The loop is open, callbacks wait or it is to stop, and nothing will make it go round.
  abbrev pub asleep : Loop W → Bool
  asleep s =
      not s.closed
      && ((ltb 0 (length s.ready) || s.stopping)
          && not (s.idle_running || (s.async_sent || s.uv_stopped)))

  -- The loop is open, streams wait to be written, and no callback will do it.
  abbrev pub unwritten : Loop W → Bool
  unwritten s = not s.closed && (ltb 0 (length s.queued_streams) && not s.check_running)

  pub record Grows (s t : Loop W) : Type 0 where
    pub added : List ℕ
    pub more : List ℕ
    pub ready : t.ready ≡ s.ready ++ added
    pub appended : t.appended ≡ s.appended ++ added
    pub ran : t.ran ≡ s.ran ++ more
    pub popped : t.popped ≡ s.popped
    pub closed : t.closed ≡ s.closed
    pub stopping : s.stopping ≡ true → t.stopping ≡ true
    pub idle : s.idle_running ≡ true → t.idle_running ≡ true
    pub awake : asleep s ≡ false → asleep t ≡ false
    pub writes : unwritten s ≡ false → unwritten t ≡ false
    pub next : s.next_handle ≤ t.next_handle
    pub cancelled :
        (n : ℕ)
        → n < s.next_handle
        → (s.handles n).cancelled ≡ true
        → (t.handles n).cancelled ≡ true

  pub Grows-refl : (s : Loop W) → Grows s s
  Grows-refl s = record {
    added = [];
    more = [];
    ready = sym (append-nil s.ready);
    appended = sym (append-nil s.appended);
    ran = sym (append-nil s.ran);
    popped = refl;
    closed = refl;
    stopping = λ h. h;
    idle = λ h. h;
    awake = λ h. h;
    writes = λ h. h;
    next = omega arith;
    cancelled = λ n l h. h;
  }

  pub Grows-trans : (s t u : Loop W) → Grows s t → Grows t u → Grows s u
  Grows-trans s t u p q = record {
    added = p.added ++ q.added;
    more = p.more ++ q.more;
    ready = joined s.ready t.ready u.ready p.added q.added p.ready q.ready;
    appended = joined s.appended t.appended u.appended p.added q.added p.appended q.appended;
    ran = joined s.ran t.ran u.ran p.more q.more p.ran q.ran;
    popped = q.popped ∙ p.popped;
    closed = q.closed ∙ p.closed;
    stopping = λ h. q.stopping (p.stopping h);
    idle = λ h. q.idle (p.idle h);
    awake = λ h. q.awake (p.awake h);
    writes = λ h. q.writes (p.writes h);
    next = omega (arith, p.next, q.next);
    cancelled = λ n l h. q.cancelled n (omega (arith, p.next)) (p.cancelled n l h);
  }

  abbrev pub grows : Frame (Loop W)
  grows = record { Rel = Grows; stay = Grows-refl; both = Grows-trans }

  abbrev pub parts : Loop W → Parts
  parts s = (
    s.ready, s.appended, s.ran, s.popped, s.queued_streams, s.closed, s.stopping, s.idle_running,
    s.async_sent, s.uv_stopped, s.check_running, s.next_handle, s.handles,
  )

  pub aside : (s t : Loop W) → parts t ≡ parts s → Grows s t
  aside s t e = record {
    added = [];
    more = [];
    ready = ap (λ p. p.0) e ∙ sym (append-nil s.ready);
    appended = ap (λ p. p.1) e ∙ sym (append-nil s.appended);
    ran = ap (λ p. p.2) e ∙ sym (append-nil s.ran);
    popped = ap (λ p. p.3) e;
    closed = ap (λ p. p.5) e;
    stopping = λ h. ap (λ p. p.6) e ∙ h;
    idle = λ h. ap (λ p. p.7) e ∙ h;
    awake = λ h. ap asleep_parts e ∙ h;
    writes = λ h. ap unwritten_parts e ∙ h;
    next = omega (arith, ap (λ (p : Parts). p.11) e);
    cancelled = λ n l h. ap (λ p. (p.12 n).cancelled) e ∙ h;
  }

  -- A change of something else.
  pub aside-Grows :
      (f : Loop W → Loop W) → ((s : Loop W) → parts (f s) ≡ parts s) → Keeps grows (modify f)
  aside-Grows f h = record { keeps = λ s. aside s (f s) (h s) }
