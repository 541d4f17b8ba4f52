-- ===== src/Stream/Runs.antt =====
-- Histories of a stream: any sequence of calls by the application, the loop and libuv.
use mathlib.Core.List.{append-nil, append_assoc}
use mathlib.Core.Path.{subst}
use uvloop.Prelude.{
  true, false, ◌≡◌, refl, sym, ap, ◌∙◌, inl, inr, List, [], ◌∷◌, ◌++◌, Option, none, some, ◌==◌,
  concat,
}
use uvloop.Errors.{UvError, convert_error}
use uvloop.Python.{M, modify}
use uvloop.Python.Frames.{
  pure-Keeps, get_state-Keeps, branch-Keeps, branch_of-Keeps, bind-Keeps, catch-Keeps,
}
use uvloop.Stream.State.{Bytes, Env, Stream}
use uvloop.Stream.Transport.{
  get_write_buffer_size, stop_reading, start_reading, close_handle, abort, close,
}
use uvloop.Stream.Write.{exec_write, write, writelines, write_eof, uv_on_write}
use uvloop.Stream.Laws.{Faithful}
use uvloop.Stream.Frame.{is_lost, same, ensure_alive-Same}
use uvloop.Stream.Quiet.{
  Quiet, fatal_error-Quiet, stop_reading-Quiet, start_reading-Quiet, close_handle-Quiet,
  abort-Quiet, close-Quiet,
}
use uvloop.Stream.Delivery.{Fate, Quiet-Fate, shutdown-Quiet, on_write-Quiet}
use uvloop.Stream.Many.{exec_write-Fate}
use uvloop.Stream.Accept.{taken, write-Fate, writelines-Fate}

-- What may happen to a stream. `uv_write_done` is libuv's callback with its status, `loop_writes`
-- is `_exec_write` from the loop's queue of streams.
pub data Event : Type 0 where
  writes : Bytes → Event
  writes_lines : List Bytes → Event
  writes_eof closes aborts closes_handle stops_reading starts_reading loop_writes : Event
  uv_write_done : Option UvError → Event

module _ {W : Type 0} (env : Env W) where
  -- The state after an event, whether the call returns or raises.
  unfoldable pub step : Stream W → Event → Stream W
  step s (writes bytes) = (write env bytes s).1
  step s (writes_lines bufs) = (writelines env bufs s).1
  step s writes_eof = (write_eof env s).1
  step s closes = (close env s).1
  step s aborts = (abort env s).1
  step s closes_handle = (close_handle env s).1
  step s stops_reading = (stop_reading env s).1
  step s starts_reading = (start_reading env s).1
  step s loop_writes = (exec_write env s).1
  step s (uv_write_done status) = (uv_on_write env status s).1

  -- The bytes that an event's call accepts for sending.
  unfoldable pub accepted : Stream W → Event → Bytes
  accepted s (writes bytes) = taken bytes s
  accepted s (writes_lines bufs) = taken (concat bufs) s
  accepted s _ = []

  unfoldable pub run : Stream W → List Event → Stream W
  unfolding step
  run s [] = s
  run s (e ∷ es) = run (step s e) es

  unfoldable pub all_accepted : Stream W → List Event → Bytes
  unfolding step accepted
  all_accepted s [] = []
  all_accepted s (e ∷ es) = accepted s e ++ all_accepted (step s e) es

  -- Before each event the 32-bit counter of lost writes has not wrapped round to 0.
  unfoldable pub Unwrapped : Stream W → List Event → Type 0
  unfolding step
  Unwrapped s [] = Unit
  Unwrapped s (e ∷ es) = (s.wrapped ≡ false) × Unwrapped (step s e) es

module _ {W : Type 0} (env : Env W) (sent : W → Bytes) (laws : Faithful env sent) where
  set_eof-Quiet : Quiet env sent laws (modify (λ t. record t { eof = true }))
  set_eof-Quiet = record {
    keeps = λ s. record { bytes = refl; buffer = refl; size = refl; started = refl; lost = λ p. p };
  }

  write_eof-Quiet : Quiet env sent laws (write_eof env)
  unfolding write_eof
  write_eof-Quiet = bind-Keeps (same sent) (ensure_alive-Same sent) (λ _.
      bind-Keeps (same sent) (get_state-Keeps (same sent)) (λ s.
        branch-Keeps (same sent) s.eof (pure-Keeps (same sent) tt) (
          bind-Keeps (same sent) set_eof-Quiet (λ _.
            bind-Keeps (same sent) (get_state-Keeps (same sent)) (λ t.
              branch-Keeps (same sent) (get_write_buffer_size env t == 0)
                (shutdown-Quiet env sent laws) (pure-Keeps (same sent) tt))))))

  uv_on_write-Quiet : (status : Option UvError) → Quiet env sent laws (uv_on_write env status)
  unfolding uv_on_write
  uv_on_write-Quiet none =
      branch_of-Keeps (same sent) (λ s. s.closed) (pure-Keeps (same sent) tt)
        (catch-Keeps (same sent) (on_write-Quiet env sent laws)
          (λ ex. fatal_error-Quiet env sent laws ex false))
  uv_on_write-Quiet (some e) =
      branch_of-Keeps (same sent) (λ s. s.closed) (pure-Keeps (same sent) tt)
        (fatal_error-Quiet env sent laws (convert_error e) false)

  unchanged : (total : Bytes) (s : Stream W) → Fate sent total s → Fate sent (total ++ []) s
  unchanged total s f = subst (λ (x : Bytes). Fate sent x s) (sym (append-nil total)) f

  quietly :
      {A : Type 0} (total : Bytes) (m : M (Stream W) A)
      → Quiet env sent laws m
      → (s : Stream W) → Fate sent total s
      → Fate sent (total ++ []) (m s).1
  quietly total m q s f = unchanged total (m s).1 (Quiet-Fate env sent laws total m q s f)

  step-Fate :
      (total : Bytes) (s : Stream W) (e : Event)
      → Fate sent total s
      → s.wrapped ≡ false
      → Fate sent (total ++ accepted env s e) (step env s e)
  unfolding step accepted
  step-Fate total s (writes bytes) f u = write-Fate env sent laws total s f u bytes
  step-Fate total s (writes_lines bufs) f u = writelines-Fate env sent laws total s f u bufs
  step-Fate total s writes_eof f u = quietly total (write_eof env) write_eof-Quiet s f
  step-Fate total s closes f u = quietly total (close env) (close-Quiet env sent laws) s f
  step-Fate total s aborts f u = quietly total (abort env) (abort-Quiet env sent laws) s f
  step-Fate total s closes_handle f u =
      quietly total (close_handle env) (close_handle-Quiet env sent laws) s f
  step-Fate total s stops_reading f u =
      quietly total (stop_reading env) (stop_reading-Quiet env sent laws) s f
  step-Fate total s starts_reading f u =
      quietly total (start_reading env) (start_reading-Quiet env sent laws) s f
  step-Fate total s loop_writes f u = unchanged total _ (exec_write-Fate env sent laws total s f)
  step-Fate total s (uv_write_done status) f u =
      quietly total (uv_on_write env status) (uv_on_write-Quiet status) s f

  -- Over a system that is `Faithful`, with a protocol that writes nothing in `pause_writing` and
  -- `resume_writing`, after any sequence of the events of `Event` before which the counter
  -- `_conn_lost` never wrapped round, where the same held before it: the bytes that went to the
  -- system or to libuv, then those in the write buffer, then those that were given up, are exactly
  -- the bytes that the stream has accepted, in order; bytes are given up only if the connection is
  -- lost, the transport closed or the counter wraps at the end; and the counter `_buffer_size` is
  -- the number of bytes in the buffer.
  pub run-Fate :
      (total : Bytes) (s : Stream W) (es : List Event)
      → Fate sent total s
      → Unwrapped env s es
      → Fate sent (total ++ all_accepted env s es) (run env s es)
  unfolding run all_accepted Unwrapped
  run-Fate total s [] f u = subst (λ (x : Bytes). Fate sent x s) (sym (append-nil total)) f
  run-Fate total s (e ∷ es) f u =
      subst (λ (x : Bytes). Fate sent x (run env (step env s e) es))
        (append_assoc total (accepted env s e) (all_accepted env (step env s e) es))
        (run-Fate (total ++ accepted env s e) (step env s e) es (step-Fate total s e f u.0) u.1)

  -- Over a system that is `Faithful`, with a protocol that writes nothing in `pause_writing` and
  -- `resume_writing`, after any history of an initialised stream that had sent nothing and had an
  -- empty buffer, if the connection is not lost, the transport not closed and the counter
  -- `_conn_lost` never wrapped round: the bytes sent and then those in the write buffer are exactly
  -- the bytes that the stream accepted, in order.
  pub run_live :
      (s : Stream W) (es : List Event)
      → sent s.world ≡ []
      → s.buffer ≡ []
      → s.buffer_size ≡ 0
      → s.inited ≡ true
      → Unwrapped env s es
      → is_lost (run env s es) ≡ false
      → sent (run env s es).world ++ concat (run env s es).buffer ≡ all_accepted env s es
  run_live s es a b c d u live = elim f.kept [
    | inl e ↦ sym (ap (◌++◌ w) (ap (◌++◌ q) e ∙ append-nil q)) ∙ f.split
    | inr e ↦ absurd (cc (sym live ∙ e))
  ]
    where
      w : Bytes
      w = sent (run env s es).world

      q : Bytes
      q = concat (run env s es).buffer

      f : Fate sent (all_accepted env s es) (run env s es)
      f =
          run-Fate [] s es
            (record {
              rest = [];
              split = rw (a, b) refl;
              kept = inl refl;
              sized = rw (b, c) refl;
              started = d;
            })
            u
