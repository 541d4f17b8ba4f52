-- ===== src/Stream/Transport.antt =====
-- uvloop/handles/handle.pyx and basetransport.pyx, with the reading half of `UVStream`: closing,
-- fatal errors, and the pausing of the protocol.
use uvloop.Prelude.{
  ℕ, ◌+◌, Bool, true, false, not, ◌&&◌, ◌||◌, Option, none, some, leb, ◌==◌, if◌then◌else◌,
}
use uvloop.Errors.{Exception, UvError, convert_error, is_os_error, is_interrupt, is_exception}
use uvloop.Python.{
  M, Outcome, ◌>>=◌, ◌>>◌, pure, throw, modify, branch, whenever, catch, finally, get_state,
}
use uvloop.Stream.State.{
  count_loss, Env, Stream, call, call_python, report, call_soon, call_connection_lost, ensure_alive,
}

module _ {W : Type 0} (env : Env W) where
  unfoldable pub get_write_buffer_size : Stream W → ℕ
  get_write_buffer_size s = if s.has_handle then env.queue_size s.world + s.buffer_size else 0

  -- A call of a protocol's method: interrupts go on, any other exception is reported.
  unfoldable pub notify : (W → Outcome (Unit {0}) × W) → M (Stream W) (Unit {0})
  notify method = catch (call_python method) (λ e. branch (is_interrupt e) (throw e) (report e))

  unfoldable pub maybe_pause_protocol : M (Stream W) (Unit {0})
  unfolding get_write_buffer_size notify
  maybe_pause_protocol s =
      branch (leb (get_write_buffer_size s) s.high_water || s.protocol_paused) (pure tt)
        (do modify (λ t. record t { protocol_paused = true }); notify env.pause_writing) s

  unfoldable pub maybe_resume_protocol : M (Stream W) (Unit {0})
  unfolding get_write_buffer_size notify
  maybe_resume_protocol s =
      whenever (s.protocol_paused && leb (get_write_buffer_size s) s.low_water)
        (do modify (λ t. record t { protocol_paused = false }); notify env.resume_writing) s

  -- The end of `_force_close`.
  unfoldable pub lose_connection : Option Exception → M (Stream W) (Unit {0})
  lose_connection exc = do count_loss; call_soon (call_connection_lost exc)

  -- The end of `_fatal_error`: an exception that is no `OSError` is raised or reported.
  unfoldable pub rethrow : Exception → Bool → M (Stream W) (Unit {0})
  rethrow exc throws = branch (is_os_error exc) (pure tt) (branch throws (throw exc) (report exc))

  -- `_fatal_error` and `_stop_reading` call each other. Where `_closing` is set already,
  -- `_force_close` does not stop the reading again, so these two do not call back.
  unfoldable pub fatal_closing : Exception → Bool → M (Stream W) (Unit {0})
  unfolding lose_connection rethrow
  fatal_closing exc throws = do
    s ← get_state
    branch (not (s.conn_lost == 0) || s.closed) (pure tt) (lose_connection (some exc))
    rethrow exc throws

  unfoldable pub stop_reading_closing : M (Stream W) (Unit {0})
  unfolding ensure_alive fatal_closing
  stop_reading_closing s =
      whenever s.reading
        (do
          ensure_alive
          err ← call env.uv_read_stop
          elim err [
            | none ↦ modify (λ t. record t { reading = false })
            | some e ↦ fatal_closing (convert_error e) true
          ])
        s

  unfoldable pub force_close : Option Exception → M (Stream W) (Unit {0})
  unfolding stop_reading_closing lose_connection
  force_close exc s =
      branch (not (s.conn_lost == 0) || s.closed) (pure tt)
        (do
          branch s.closing (pure tt)
              (do modify (λ t. record t { closing = true }); stop_reading_closing)
          lose_connection exc)
        s

  unfoldable pub fatal_error : Exception → Bool → M (Stream W) (Unit {0})
  unfolding force_close rethrow
  fatal_error exc throws = do force_close (some exc); rethrow exc throws

  -- The end of `_stop_reading`, on the result of `uv_read_stop`.
  unfoldable pub read_stopped : Option UvError → M (Stream W) (Unit {0})
  unfolding fatal_error
  read_stopped none = modify (λ t. record t { reading = false })
  read_stopped (some e) = fatal_error (convert_error e) true

  unfoldable pub stop_reading : M (Stream W) (Unit {0})
  unfolding ensure_alive read_stopped
  stop_reading s =
      whenever s.reading (do ensure_alive; err ← call env.uv_read_stop; read_stopped err) s

  -- The end of `_start_reading`, on the result of `uv_read_start`.
  unfoldable pub read_started : Option UvError → M (Stream W) (Unit {0})
  unfolding fatal_error
  read_started none = modify (λ t. record t { reading = true })
  read_started (some e) = fatal_error (convert_error e) true

  unfoldable pub start_reading : M (Stream W) (Unit {0})
  unfolding ensure_alive read_started
  start_reading s =
      branch s.closing (pure tt)
        (do
          ensure_alive
          branch s.reading (pure tt) (do err ← call env.uv_read_start; read_started err))
        s

  -- `UVHandle._close`
  unfoldable pub handle_close : M (Stream W) (Unit {0})
  handle_close s =
      branch s.closed (pure tt)
        (do
          modify (λ t. record t { closed = true })
          whenever s.has_handle (modify (λ t. record t { world = env.uv_close t.world })))
        s

  -- `UVSocketHandle._close`; the attached file object is detached or closed by one call.
  unfoldable pub socket_close : M (Stream W) (Unit {0})
  unfolding handle_close
  socket_close = do
    handle_close
    s ← get_state
    finally
        (whenever s.fileobj (
          catch (call_python env.release_fileobj)
            (λ e. branch (is_exception e) (report e) (throw e))))
        (modify (λ t. record t { fileobj = false }))

  -- `UVStream._close`
  unfoldable pub close_handle : M (Stream W) (Unit {0})
  unfolding stop_reading socket_close
  close_handle = finally stop_reading socket_close

  -- `abort()`
  unfoldable pub abort : M (Stream W) (Unit {0})
  unfolding force_close
  abort = force_close none

  -- `close()`
  unfoldable pub close : M (Stream W) (Unit {0})
  unfolding stop_reading get_write_buffer_size lose_connection
  close s =
      branch (s.closing || s.closed) (pure tt)
        (do
          modify (λ t. record t { closing = true })
          stop_reading
          t ← get_state
          branch (get_write_buffer_size t == 0) (lose_connection none) (pure tt))
        s
