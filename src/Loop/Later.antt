-- ===== src/Loop/Later.antt =====
-- uvloop/loop.pyx: the end of a round, which may also stop the handlers that have nothing to do.
use mathlib.Core.List.{append-nil}
use uvloop.Prelude.{
  ℕ, ◌≤◌, ◌<◌, ◌≡◌, refl, sym, ap, ◌∙◌, Bool, true, false, not, ◌&&◌, ◌||◌, List, [], ◌∷◌, ◌++◌,
  ◌==◌, length, arith,
}
use uvloop.Python.{modify, whenever}
use uvloop.Python.Frames.{Frame, Keeps, Keeps-of}
use uvloop.Loop.State.{Env, Loop, idle_stop, check_stop}
use uvloop.Loop.Rounds.{finish_round}
use uvloop.Loop.Grow.{Grows, asleep, unwritten, Parts, parts, joined}
use uvloop.Loop.Grow.Code.{grows_code}
use uvloop.Loop.Code.{Code, Code-map}
use uvloop.Loop.Turns.{Writes, swap, stop_check, rest_round, finish_round-Keeps}

module _ {W : Type 0} where
  pub record Later (s t : Loop W) : Type 0 where
    pub added : List ℕ
    pub more : List ℕ
    pub ready : t.ready ≡ s.ready ++ added
    pub appended : t.appended ≡ s.appended ++ added
    pub ran : t.ran ≡ s.ran ++ more
    pub popped : t.popped ≡ s.popped
    pub closed : t.closed ≡ s.closed
    pub stopping : s.stopping ≡ true → t.stopping ≡ true
    pub awake : asleep s ≡ false → asleep t ≡ false
    pub writes : unwritten s ≡ false → unwritten t ≡ false
    pub next : s.next_handle ≤ t.next_handle
    pub cancelled :
        (n : ℕ)
        → n < s.next_handle
        → (s.handles n).cancelled ≡ true
        → (t.handles n).cancelled ≡ true

  pub Later-of : (s t : Loop W) → Grows s t → Later s t
  Later-of s t g = record {
    added = g.added;
    more = g.more;
    ready = g.ready;
    appended = g.appended;
    ran = g.ran;
    popped = g.popped;
    closed = g.closed;
    stopping = g.stopping;
    awake = g.awake;
    writes = g.writes;
    next = g.next;
    cancelled = g.cancelled;
  }

  -- A change of flags and of the sets of streams.
  settings :
      (i uv c : Bool) (q : List ℕ) (s t : Loop W)
      → parts t ≡ (
        s.ready, s.appended, s.ran, s.popped, q, s.closed, s.stopping, i, s.async_sent, uv, c,
        s.next_handle, s.handles,
      )
      → (asleep s ≡ false → asleep t ≡ false)
      → (unwritten s ≡ false → unwritten t ≡ false)
      → Later s t
  settings i uv c q s t e a w = record {
    added = [];
    more = [];
    ready = ap (λ p. p.0) e ∙ sym (append-nil s.ready);
    appended = ap (λ p. p.1) e ∙ sym (append-nil s.appended);
    ran = ap (λ p. p.2) e ∙ sym (append-nil s.ran);
    popped = ap (λ p. p.3) e;
    closed = ap (λ p. p.5) e;
    stopping = λ x. ap (λ p. p.6) e ∙ x;
    awake = a;
    writes = w;
    next = omega (arith, ap (λ (p : Parts). p.11) e);
    cancelled = λ n l x. ap (λ p. (p.12 n).cancelled) e ∙ x;
  }

  pub Later-refl : (s : Loop W) → Later s s
  Later-refl s =
      settings s.idle_running s.uv_stopped s.check_running s.queued_streams s s refl (λ h. h)
        (λ h. h)

  pub Later-trans : (s t u : Loop W) → Later s t → Later t u → Later s u
  Later-trans s t u p q = record {
    added = p.added ++ q.added;
    more = p.more ++ q.more;
    ready = joined s.ready t.ready u.ready p.added q.added p.ready q.ready;
    appended = joined s.appended t.appended u.appended p.added q.added p.appended q.appended;
    ran = joined s.ran t.ran u.ran p.more q.more p.ran q.ran;
    popped = q.popped ∙ p.popped;
    closed = q.closed ∙ p.closed;
    stopping = λ h. q.stopping (p.stopping h);
    awake = λ h. q.awake (p.awake h);
    writes = λ h. q.writes (p.writes h);
    next = omega (arith, p.next, q.next);
    cancelled = λ n l h. q.cancelled n (omega (arith, p.next)) (p.cancelled n l h);
  }

  abbrev pub later : Frame (Loop W)
  later = record { Rel = Later; stay = Later-refl; both = Later-trans }

  pub later-Writes : Writes later
  unfolding stop_check rest_round check_stop idle_stop
  later-Writes = record {
    written = λ stream.
        Keeps-of later (modify (λ s. record s { written = s.written ++ stream ∷ [] })) (λ s.
          settings s.idle_running s.uv_stopped s.check_running s.queued_streams s
            (record s { written = s.written ++ stream ∷ [] }) refl (λ h. h) (λ h. h));
    clears_executing = Keeps-of later (modify (λ s. record s { executing_streams = [] })) (λ s.
        settings s.idle_running s.uv_stopped s.check_running s.queued_streams s
          (record s { executing_streams = [] }) refl (λ h. h) (λ h. h));
    unchecked = λ s h.
        settings s.idle_running s.uv_stopped false s.queued_streams s
          (whenever s.check_running check_stop s).1 (ground arith) (ground arith) (ground arith);
    swaps = λ s h.
        settings s.idle_running s.uv_stopped s.check_running s.executing_streams s (swap s) refl
          (λ p. p) (ground arith);
    stops_check = Keeps-of later stop_check (λ s.
        settings s.idle_running s.uv_stopped (s.check_running && not (length s.queued_streams == 0))
          s.queued_streams s (stop_check s).1 (ground arith) (ground arith) (ground arith));
    rests = Keeps-of later rest_round (λ s.
        settings (s.idle_running && not (length s.ready == 0)) (s.uv_stopped || s.stopping)
          s.check_running s.queued_streams s (rest_round s).1 (ground arith) (ground arith)
          (ground arith));
  }

  pub later_code : (env : Env W) → Code env later
  later_code env = Code-map later Later-of (grows_code env)

  pub finish_round-Later : (env : Env W) → Keeps later (finish_round env)
  finish_round-Later env = finish_round-Keeps env later (later_code env) later-Writes
