-- ===== src/Stream/Quiet.antt =====
-- The operations of the transport that send no byte and leave the write buffer alone.
use uvloop.Prelude.{not, refl, Bool, true, false, ◌||◌, ◌≡◌, Option, none, some, ◌==◌, arith}
use uvloop.Errors.{Exception, UvError, convert_error, is_exception, is_os_error}
use uvloop.Python.{M, modify}
use uvloop.Python.Frames.{
  Keeps, pure-Keeps, throw-Keeps, get_state-Keeps, branch-Keeps, branch_of-Keeps, catch-Keeps,
  bind-Keeps, finally-Keeps, bind_post, Keeps-of,
}
use uvloop.Stream.State.{count_loss, Bytes, Env, Stream, call_connection_lost}
use uvloop.Stream.Transport.{
  get_write_buffer_size, maybe_pause_protocol, maybe_resume_protocol, lose_connection, rethrow,
  fatal_closing, stop_reading_closing, force_close, fatal_error, stop_reading, read_stopped,
  read_started, start_reading, handle_close, socket_close, close_handle, abort, close,
}
use uvloop.Stream.Laws.{Faithful}
use uvloop.Stream.Frame.{
  is_lost, Same, same, call-Same, call_python-Same, report-Same, call_soon-Same, ensure_alive-Same,
}

module _ {W : Type 0} (env : Env W) (sent : W → Bytes) (laws : Faithful env sent) where
  abbrev pub Quiet : {A : Type 0} → M (Stream W) A → Type 0
  Quiet m = Keeps (same sent) m

  maybe_pause_protocol-Same : (s : Stream W) → Same sent s (maybe_pause_protocol env s).1
  unfolding maybe_pause_protocol
  maybe_pause_protocol-Same s = ground (arith, laws.pause_sends s.world)

  maybe_resume_protocol-Same : (s : Stream W) → Same sent s (maybe_resume_protocol env s).1
  unfolding maybe_resume_protocol
  maybe_resume_protocol-Same s = ground (arith, laws.resume_sends s.world)

  rethrow-Quiet : (exc : Exception) (throws : Bool) → Quiet (rethrow env exc throws)
  unfolding rethrow
  rethrow-Quiet exc throws =
      branch-Keeps (same sent) (is_os_error exc) (pure-Keeps (same sent) tt)
        (branch-Keeps (same sent) throws (throw-Keeps (same sent) exc) (report-Same sent exc))

  count_loss-Quiet : Quiet count_loss
  count_loss-Quiet = record {
    keeps = λ s. record {
      bytes = refl;
      buffer = refl;
      size = refl;
      started = refl;
      lost = λ _. ground arith;
    };
  }

  lose_connection-Quiet : (exc : Option Exception) → Quiet (lose_connection env exc)
  unfolding lose_connection
  lose_connection-Quiet exc =
      bind-Keeps (same sent) count_loss-Quiet (λ _. call_soon-Same sent (call_connection_lost exc))

  fatal_closing-Quiet : (exc : Exception) (throws : Bool) → Quiet (fatal_closing env exc throws)
  unfolding fatal_closing
  fatal_closing-Quiet exc throws = bind-Keeps (same sent) (get_state-Keeps (same sent)) (λ s.
      bind-Keeps (same sent)
        (branch-Keeps (same sent) (not (s.conn_lost == 0) || s.closed) (pure-Keeps (same sent) tt)
          (lose_connection-Quiet (some exc)))
        (λ _. rethrow-Quiet exc throws))

  set_closing-Quiet : Quiet (modify (λ t. record t { closing = true }))
  set_closing-Quiet = record {
    keeps = λ s. record { bytes = refl; buffer = refl; size = refl; started = refl; lost = λ p. p };
  }

  not_reading-Quiet : Quiet (modify (λ t. record t { reading = false }))
  not_reading-Quiet = record {
    keeps = λ s. record { bytes = refl; buffer = refl; size = refl; started = refl; lost = λ p. p };
  }

  stop_reading_closing-Quiet : Quiet (stop_reading_closing env)
  unfolding stop_reading_closing
  stop_reading_closing-Quiet =
      branch_of-Keeps (same sent) (λ s. s.reading)
        (bind-Keeps (same sent) (ensure_alive-Same sent) (λ _.
          bind-Keeps (same sent) (call-Same sent env.uv_read_stop laws.read_stop_sends) stopped))
        (pure-Keeps (same sent) tt)
    where
      stopped :
          (err : Option UvError)
          → Quiet (elim err [
            | none ↦ modify (λ t. record t { reading = false })
            | some e ↦ fatal_closing env (convert_error e) true
          ])
      stopped none = not_reading-Quiet
      stopped (some e) = fatal_closing-Quiet (convert_error e) true

  force_close-Quiet : (exc : Option Exception) → Quiet (force_close env exc)
  unfolding force_close
  force_close-Quiet exc =
      branch_of-Keeps (same sent) (λ s. not (s.conn_lost == 0) || s.closed)
        (pure-Keeps (same sent) tt)
        (bind-Keeps (same sent)
          (branch_of-Keeps (same sent) (λ s. s.closing) (pure-Keeps (same sent) tt)
            (bind-Keeps (same sent) set_closing-Quiet (λ _. stop_reading_closing-Quiet)))
          (λ _. lose_connection-Quiet exc))

  pub fatal_error-Quiet : (exc : Exception) (throws : Bool) → Quiet (fatal_error env exc throws)
  unfolding fatal_error
  fatal_error-Quiet exc throws =
      bind-Keeps (same sent) (force_close-Quiet (some exc)) (λ _. rethrow-Quiet exc throws)

  force_close-is_lost :
      (exc : Option Exception) (s : Stream W)
      → s.inited ≡ true
      → is_lost (force_close env exc s).1 ≡ true
  unfolding force_close
  force_close-is_lost exc s h = ground arith

  -- After a fatal error the connection is lost, also where the error is raised.
  pub fatal_error-is_lost :
      (exc : Exception) (throws : Bool) (s : Stream W)
      → s.inited ≡ true
      → is_lost (fatal_error env exc throws s).1 ≡ true
  unfolding fatal_error
  fatal_error-is_lost exc throws s h =
      bind_post (λ t. is_lost t ≡ true) (force_close env (some exc) s) (λ _. rethrow env exc throws)
        (force_close-is_lost (some exc) s h) (λ _ t p. ((rethrow-Quiet exc throws).keeps t).lost p)

  pub stop_reading-Quiet : Quiet (stop_reading env)
  unfolding stop_reading
  stop_reading-Quiet =
      branch_of-Keeps (same sent) (λ s. s.reading)
        (bind-Keeps (same sent) (ensure_alive-Same sent) (λ _.
          bind-Keeps (same sent) (call-Same sent env.uv_read_stop laws.read_stop_sends) stopped))
        (pure-Keeps (same sent) tt)
    where
      stopped : (err : Option UvError) → Quiet (read_stopped env err)
      stopped none = record { keeps = λ s. ground arith }
      stopped (some e) = fatal_error-Quiet (convert_error e) true

  pub start_reading-Quiet : Quiet (start_reading env)
  unfolding start_reading
  start_reading-Quiet = record {
    keeps = λ s.
        (branch-Keeps (same sent) s.closing (pure-Keeps (same sent) tt) (
            bind-Keeps (same sent) (ensure_alive-Same sent) (λ _.
              branch-Keeps (same sent) s.reading (pure-Keeps (same sent) tt) (
                bind-Keeps (same sent) (call-Same sent env.uv_read_start laws.read_start_sends)
                  started)))).keeps
          s;
  }
    where
      started : (err : Option UvError) → Quiet (read_started env err)
      started none = record { keeps = λ s. ground arith }
      started (some e) = fatal_error-Quiet (convert_error e) true

  handle_close-Same : (s : Stream W) → Same sent s (handle_close env s).1
  unfolding handle_close
  handle_close-Same s = ground (arith, laws.close_sends s.world)

  clear_fileobj-Quiet : Quiet (modify (λ t. record t { fileobj = false }))
  clear_fileobj-Quiet = record { keeps = λ t. ground arith }

  pub socket_close-Quiet : Quiet (socket_close env)
  unfolding socket_close
  socket_close-Quiet =
      bind-Keeps (same sent) (Keeps-of (same sent) (handle_close env) handle_close-Same) (λ _.
        bind-Keeps (same sent) (get_state-Keeps (same sent)) (λ s.
          finally-Keeps (same sent)
            (branch-Keeps (same sent) s.fileobj
              (catch-Keeps (same sent)
                (call_python-Same sent env.release_fileobj laws.release_sends)
                (λ e.
                  branch-Keeps (same sent) (is_exception e) (report-Same sent e)
                    (throw-Keeps (same sent) e)))
              (pure-Keeps (same sent) tt))
            (clear_fileobj-Quiet)))

  pub close_handle-Quiet : Quiet (close_handle env)
  unfolding close_handle
  close_handle-Quiet = finally-Keeps (same sent) stop_reading-Quiet socket_close-Quiet

  pub abort-Quiet : Quiet (abort env)
  unfolding abort
  abort-Quiet = force_close-Quiet none

  pub close-Quiet : Quiet (close env)
  unfolding close
  close-Quiet = record {
    keeps = λ s.
        (branch-Keeps (same sent) (s.closing || s.closed) (pure-Keeps (same sent) tt) (
            bind-Keeps (same sent) set_closing-Quiet (λ _.
              bind-Keeps (same sent) stop_reading-Quiet (λ _.
                bind-Keeps (same sent) (get_state-Keeps (same sent)) (λ t.
                  branch-Keeps (same sent) (get_write_buffer_size env t == 0)
                    (lose_connection-Quiet none) (pure-Keeps (same sent) tt)))))).keeps
          s;
  }

  pub maybe_pause_protocol-Quiet : Quiet (maybe_pause_protocol env)
  maybe_pause_protocol-Quiet = record { keeps = maybe_pause_protocol-Same }

  pub maybe_resume_protocol-Quiet : Quiet (maybe_resume_protocol env)
  maybe_resume_protocol-Quiet = record { keeps = maybe_resume_protocol-Same }
