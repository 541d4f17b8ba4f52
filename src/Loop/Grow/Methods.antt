-- ===== src/Loop/Grow/Methods.antt =====
-- uvloop/loop.pyx: the loop's own methods only add to the queue, only cancel, and keep it awake.
use mathlib.Core.List.{append-nil}
use uvloop.Prelude.{
  ℕ, ◌≡◌, refl, sym, ap, ◌∙◌, Bool, true, false, not, ◌&&◌, ◌||◌, List, [], ◌∷◌, ◌++◌, Option,
  arith, Bool-cases, inl, inr,
}
use uvloop.Errors.{Exception}
use uvloop.Python.{M, ◌>>◌, pure, modify}
use uvloop.Python.Frames.{Keeps, pure-Keeps, bind-Keeps}
use uvloop.Loop.State.{Target, python, stop_method, Loop, add, idle_start, check_start, async_send}
use uvloop.Loop.Queue.{
  new_handle, append_ready_handle, call_soon_handle, call_soon, call_soon_threadsafe, stop,
  stop_now, cancel, queue_write,
}
use uvloop.Loop.Grow.{
  Parts, asleep_parts, unwritten_parts, asleep, unwritten, Grows, grows, parts, aside,
}

module _ {W : Type 0} where
  pub new_handle-Grows : (target : Target) → Keeps (grows {W = W}) (new_handle target)
  unfolding new_handle
  new_handle-Grows target = record {
    keeps = λ s. record {
      added = [];
      more = [];
      ready = sym (append-nil s.ready);
      appended = sym (append-nil s.appended);
      ran = sym (append-nil s.ran);
      popped = refl;
      closed = refl;
      stopping = λ h. h;
      idle = λ h. h;
      awake = λ h. h;
      writes = λ h. h;
      next = omega arith;
      cancelled = λ n l h. ground arith;
    };
  }

  pub cancel-Grows : (n : ℕ) → Keeps (grows {W = W}) (cancel n)
  unfolding cancel
  cancel-Grows n = record {
    keeps = λ s. record {
      added = [];
      more = [];
      ready = sym (append-nil s.ready);
      appended = sym (append-nil s.appended);
      ran = sym (append-nil s.ran);
      popped = refl;
      closed = refl;
      stopping = λ h. h;
      idle = λ h. h;
      awake = λ h. h;
      writes = λ h. h;
      next = omega arith;
      cancelled = λ m l h. ground arith;
    };
  }

  -- A handle joins the queue, and the idle or the async handle will make the loop look at it.
  added_one :
      (n : ℕ) (i a : Bool) (s t : Loop W)
      → parts t ≡ (
        s.ready ++ n ∷ [],
        s.appended ++ n ∷ [],
        s.ran,
        s.popped,
        s.queued_streams,
        s.closed,
        s.stopping,
        i,
        a,
        s.uv_stopped,
        s.check_running,
        s.next_handle,
        s.handles,
      )
      → (i || a) ≡ true
      → (s.idle_running ≡ true → i ≡ true)
      → Grows s t
  added_one n i a s t e w m = record {
    added = n ∷ [];
    more = [];
    ready = ap (λ p. p.0) e;
    appended = ap (λ p. p.1) e;
    ran = ap (λ p. p.2) e ∙ sym (append-nil s.ran);
    popped = ap (λ p. p.3) e;
    closed = ap (λ p. p.5) e;
    stopping = λ h. ap (λ p. p.6) e ∙ h;
    idle = λ h. ap (λ p. p.7) e ∙ m h;
    awake = λ h. ap asleep_parts e ∙ ground (arith, w);
    writes = λ h. ap unwritten_parts e ∙ h;
    next = omega (arith, ap (λ (p : Parts). p.11) e);
    cancelled = λ k l h. ap (λ p. (p.12 k).cancelled) e ∙ h;
  }

  pub call_soon_handle-Grows : (n : ℕ) → Keeps (grows {W = W}) (call_soon_handle n)
  unfolding call_soon_handle append_ready_handle idle_start
  call_soon_handle-Grows n = record { keeps = go }
    where
      go : (s : Loop W) → Grows s (call_soon_handle n s).1
      go s = elim (Bool-cases s.closed) [
        | inl c ↦ aside s (call_soon_handle n s).1 (ground arith)
        | inr o ↦
            added_one n true s.async_sent s (call_soon_handle n s).1
              (elim (Bool-cases s.idle_running) [ inl i ↦ ground arith | inr i ↦ ground arith ])
              refl (λ _. refl)
      ]

  pub call_soon-Grows : (callback : ℕ) → Keeps (grows {W = W}) (call_soon callback)
  unfolding call_soon
  call_soon-Grows callback =
      bind-Keeps (grows {W = W}) (new_handle-Grows (python callback))
        (λ n. bind-Keeps (grows {W = W}) (call_soon_handle-Grows n) (λ _. pure-Keeps grows n))

  pub stop-Grows : Keeps (grows {W = W}) stop
  unfolding stop
  stop-Grows = bind-Keeps (grows {W = W}) (new_handle-Grows stop_method) call_soon_handle-Grows

  waking : ℕ → M (Loop W) ℕ
  waking n = do append_ready_handle n; async_send; pure n

  waking-Grows : (n : ℕ) → Keeps (grows {W = W}) (waking n)
  unfolding waking append_ready_handle async_send
  waking-Grows n = record { keeps = go }
    where
      go : (s : Loop W) → Grows s (waking n s).1
      go s = elim (Bool-cases s.closed) [
        | inl c ↦ aside s (waking n s).1 (ground arith)
        | inr o ↦
            added_one n s.idle_running true s (waking n s).1 (ground arith) (ground arith) (λ h. h)
      ]

  pub call_soon_threadsafe-Grows :
      (callback : ℕ) → Keeps (grows {W = W}) (call_soon_threadsafe callback)
  unfolding call_soon_threadsafe waking
  call_soon_threadsafe-Grows callback =
      bind-Keeps (grows {W = W}) (new_handle-Grows (python callback)) waking-Grows

  -- A change of flags and of the queued streams.
  flags :
      (st i c : Bool) (q : List ℕ) (s t : Loop W)
      → parts t ≡ (
        s.ready, s.appended, s.ran, s.popped, q, s.closed, st, i, s.async_sent, s.uv_stopped, c,
        s.next_handle, s.handles,
      )
      → (s.stopping ≡ true → st ≡ true)
      → (s.idle_running ≡ true → i ≡ true)
      → (asleep s ≡ false → asleep t ≡ false)
      → (unwritten s ≡ false → unwritten t ≡ false)
      → Grows s t
  flags st i c q s t e h k a w = record {
    added = [];
    more = [];
    ready = ap (λ p. p.0) e ∙ sym (append-nil s.ready);
    appended = ap (λ p. p.1) e ∙ sym (append-nil s.appended);
    ran = ap (λ p. p.2) e ∙ sym (append-nil s.ran);
    popped = ap (λ p. p.3) e;
    closed = ap (λ p. p.5) e;
    stopping = λ x. ap (λ p. p.6) e ∙ h x;
    idle = λ x. ap (λ p. p.7) e ∙ k x;
    awake = a;
    writes = w;
    next = omega (arith, ap (λ (p : Parts). p.11) e);
    cancelled = λ n l x. ap (λ p. (p.12 n).cancelled) e ∙ x;
  }

  pub stop_now-Grows : (exc : Option Exception) → Keeps (grows {W = W}) (stop_now exc)
  unfolding stop_now idle_start
  stop_now-Grows exc = record {
    keeps = λ s.
        flags true (s.idle_running || (not s.stopping && not s.closed)) s.check_running
          s.queued_streams s (stop_now exc s).1 (ground arith) (λ _. refl) (ground arith)
          (ground arith) (ground arith);
  }

  pub queue_write-Grows : (stream : ℕ) → Keeps (grows {W = W}) (queue_write stream)
  unfolding queue_write check_start
  queue_write-Grows stream = record {
    keeps = λ s.
        flags s.stopping s.idle_running (s.check_running || not s.closed)
          (add stream s.queued_streams) s (queue_write stream s).1 (ground arith) (λ h. h) (λ h. h)
          (ground arith) (ground arith);
  }

  -- The record that a handle's callback is called.
  pub more_run :
      (n : ℕ) → Keeps (grows {W = W}) (modify (λ (t : Loop W). record t { ran = t.ran ++ n ∷ [] }))
  more_run n = record {
    keeps = λ s. record {
      added = [];
      more = n ∷ [];
      ready = sym (append-nil s.ready);
      appended = sym (append-nil s.appended);
      ran = refl;
      popped = refl;
      closed = refl;
      stopping = λ h. h;
      idle = λ h. h;
      awake = λ h. h;
      writes = λ h. h;
      next = omega arith;
      cancelled = λ m l h. h;
    };
  }
