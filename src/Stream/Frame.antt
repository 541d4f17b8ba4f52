-- ===== src/Stream/Frame.antt =====
-- What the operations around a write leave alone: the bytes sent, the write buffer, and a
-- connection that is lost.
use uvloop.Prelude.{Bool, true, not, ◌||◌, ◌≡◌, refl, ◌∙◌, ◌==◌}
use uvloop.Errors.{Exception, runtime_error}
use uvloop.Python.{Outcome, modify}
use uvloop.Python.Frames.{Frame, Keeps, pure-Keeps, throw-Keeps, branch_of-Keeps}
use uvloop.Stream.State.{
  Bytes, Stream, call, call_python, report, call_soon, Scheduled, is_alive, ensure_alive,
}

-- `self._conn_lost or self._closed`, or the counter has wrapped round.
abbrev pub is_lost : {W : Type 0} → Stream W → Bool
is_lost s = not (s.conn_lost == 0) || s.closed || s.wrapped

module _ {W : Type 0} (sent : W → Bytes) where
  pub record Same (s t : Stream W) : Type 0 where
    pub bytes : sent t.world ≡ sent s.world
    pub buffer : t.buffer ≡ s.buffer
    pub size : t.buffer_size ≡ s.buffer_size
    pub started : t.inited ≡ s.inited
    pub lost : is_lost s ≡ true → is_lost t ≡ true

  pub Same-refl : (s : Stream W) → Same s s
  Same-refl s = record { bytes = refl; buffer = refl; size = refl; started = refl; lost = λ h. h }

  pub Same-trans : (s t u : Stream W) → Same s t → Same t u → Same s u
  Same-trans s t u p q = record {
    bytes = q.bytes ∙ p.bytes;
    buffer = q.buffer ∙ p.buffer;
    size = q.size ∙ p.size;
    started = q.started ∙ p.started;
    lost = λ h. q.lost (p.lost h);
  }

  abbrev pub same : Frame (Stream W)
  same = record { Rel = Same; stay = Same-refl; both = Same-trans }

  -- A change of other fields.
  abbrev pub Small : (Stream W → Stream W) → Type 0
  Small f = (s : Stream W) → Same s (f s)

  pub modify-Same : {f : Stream W → Stream W} → Small f → Keeps same (modify f)
  modify-Same h = record { keeps = h }

  pub call-Same :
      {A : Type 0} (f : W → A × W) → ((w : W) → sent (f w).1 ≡ sent w) → Keeps same (call f)
  call-Same f h = record {
    keeps = λ s. record {
      bytes = h s.world;
      buffer = refl;
      size = refl;
      started = refl;
      lost = λ p. p;
    };
  }

  pub call_python-Same :
      {A : Type 0} (f : W → Outcome A × W)
      → ((w : W) → sent (f w).1 ≡ sent w)
      → Keeps same (call_python f)
  call_python-Same f h = record {
    keeps = λ s. record {
      bytes = h s.world;
      buffer = refl;
      size = refl;
      started = refl;
      lost = λ p. p;
    };
  }

  pub report-Same : (e : Exception) → Keeps same (report e)
  report-Same e =
      modify-Same
        λ s. record { bytes = refl; buffer = refl; size = refl; started = refl; lost = λ p. p }

  pub call_soon-Same : (c : Scheduled) → Keeps same (call_soon c)
  call_soon-Same c =
      modify-Same
        λ s. record { bytes = refl; buffer = refl; size = refl; started = refl; lost = λ p. p }

  pub ensure_alive-Same : Keeps same (ensure_alive {W = W})
  unfolding ensure_alive
  ensure_alive-Same =
      branch_of-Keeps same is_alive (pure-Keeps same tt) (throw-Keeps same runtime_error)
