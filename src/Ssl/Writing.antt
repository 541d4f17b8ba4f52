-- ===== src/Ssl/Writing.antt =====
-- uvloop/sslproto.pyx: the outgoing flow and the flow control of `SSLProtocol`.
use uvloop.Prelude.{
  ℕ, zero, suc, ◌+◌, ◌-◌, true, false, not, ◌&&◌, List, [], ◌∷◌, ◌++◌, ltb, leb, ◌==◌, length, drop,
  concat, if◌then◌else◌,
}
use uvloop.Errors.{Exception, is_interrupt, is_exception, assertion_error, ssl_error}
use uvloop.Python.{M, Outcome, ok, raise, ◌>>=◌, ◌>>◌, pure, throw, modify, branch, whenever, catch}
use uvloop.Ssl.State.{
  Bytes, SslResult, done, again, zero_return, fails, Env, Ssl, is_ending, is_wrapped, call,
  call_python, report, call_soon, call_do_read, fatal_error,
}

module _ {W : Type 0} (env : Env W) where
  unfoldable pub get_write_buffer_size : Ssl W → ℕ
  get_write_buffer_size s = env.outgoing_pending s.world + s.write_buffer_size

  -- A call of an application's method: interrupts go on, any other exception is reported.
  unfoldable pub notify : (W → Outcome (Unit {0}) × W) → M (Ssl W) (Unit {0})
  notify method = catch (call_python method) (λ e. branch (is_interrupt e) (throw e) (report e))

  unfoldable pub control_app_writing : M (Ssl W) (Unit {0})
  unfolding get_write_buffer_size notify
  control_app_writing s =
      branch (leb s.outgoing_high_water (get_write_buffer_size s) && not s.app_writing_paused)
        (do modify (λ t. record t { app_writing_paused = true }); notify env.app_pause_writing)
        (whenever (leb (get_write_buffer_size s) s.outgoing_low_water && s.app_writing_paused)
          (do modify (λ t. record t { app_writing_paused = false }); notify env.app_resume_writing))
        s

  unfoldable pub control_ssl_reading : M (Ssl W) (Unit {0})
  control_ssl_reading s =
      branch (leb s.incoming_high_water (env.incoming_pending s.world) && not s.ssl_reading_paused)
        (do
          modify (λ t. record t { ssl_reading_paused = true })
          call_python env.transport_pause_reading)
        (whenever (leb (env.incoming_pending s.world) s.incoming_low_water && s.ssl_reading_paused)
          (do
            modify (λ t. record t { ssl_reading_paused = false })
            call_python env.transport_resume_reading))
        s

  unfoldable pub process_outgoing : M (Ssl W) (Unit {0})
  process_outgoing s =
      branch s.ssl_writing_paused (pure tt)
        (do
          bytes ← call env.outgoing_read
          branch (length bytes == 0) (pure tt) (call_python (env.transport_write bytes)))
        s

  -- After the `SSLObject` took `count` bytes of the first piece.
  unfoldable pub take_count : ℕ → Bytes → List Bytes → Ssl W → Ssl W
  take_count count bytes rest s = record s {
    backlog = if ltb count (length bytes) then drop count bytes ∷ rest else rest;
    write_buffer_size =
        s.write_buffer_size - (if ltb count (length bytes) then count else length bytes);
  }

  -- What a round does with the result of the `SSLObject`. (6 is `SSL_ERROR_ZERO_RETURN`.)
  unfoldable pub written :
      M (Ssl W) (Unit {0}) → Bytes → List Bytes → SslResult ℕ → M (Ssl W) (Unit {0})
  unfolding take_count
  written next bytes rest (done count) s = next (take_count count bytes rest s)
  written next bytes rest again s = (ok tt, s)
  written next bytes rest zero_return s = (raise (ssl_error 6), s)
  written next bytes rest (fails e) s = (raise e, s)

  unfoldable pub write_round : M (Ssl W) (Unit {0}) → List Bytes → M (Ssl W) (Unit {0})
  unfolding written
  write_round next [] = pure tt
  write_round next (bytes ∷ rest) = do
    result ← call (env.write bytes)
    written next bytes rest result

  -- The `while` loop of `_do_write`, on fuel: each round writes at least one byte or drops an empty
  -- piece.
  unfoldable pub write_rounds : ℕ → M (Ssl W) (Unit {0})
  unfolding write_round
  write_rounds zero s = (ok tt, s)
  write_rounds (suc fuel) s = write_round (write_rounds fuel) s.backlog s

  unfoldable pub do_write : M (Ssl W) (Unit {0})
  unfolding write_rounds
  do_write s = write_rounds (suc (length (concat s.backlog) + length s.backlog)) s

  -- `except Exception as ex`
  abbrev pub catch_exception : {A : Type 0} → M (Ssl W) A → (Exception → M (Ssl W) A) → M (Ssl W) A
  catch_exception m h = catch m (λ e. branch (is_exception e) (h e) (throw e))

  unfoldable pub append_all : List Bytes → Ssl W → Ssl W
  append_all [] s = s
  append_all (bytes ∷ more) s = append_all more (record s {
    backlog = s.backlog ++ bytes ∷ [];
    write_buffer_size = s.write_buffer_size + length bytes;
  })

  unfoldable pub write_now : M (Ssl W) (Unit {0})
  unfolding do_write process_outgoing control_app_writing
  write_now = do do_write; process_outgoing; control_app_writing

  unfoldable pub write_appdata : List Bytes → M (Ssl W) (Unit {0})
  unfolding append_all write_now fatal_error is_ending
  write_appdata pieces s =
      branch (is_ending s.state) (modify (λ t. record t { conn_lost = suc t.conn_lost }))
        (do
          modify (append_all pieces)
          catch_exception (whenever (is_wrapped s.state) write_now) (fatal_error env))
        s

  -- `_pause_reading` and `_resume_reading`, for the application.
  unfoldable pub pause_reading : M (Ssl W) (Unit {0})
  pause_reading = modify (λ s. record s { app_reading_paused = true })

  unfoldable pub resume_reading : M (Ssl W) (Unit {0})
  resume_reading s =
      whenever s.app_reading_paused
        (do
          modify (λ t. record t { app_reading_paused = false })
          whenever (is_wrapped s.state) (call_soon call_do_read))
        s

  -- `pause_writing()`, from the transport below.
  unfoldable pub pause_writing : M (Ssl W) (Unit {0})
  pause_writing s =
      branch s.ssl_writing_paused (throw assertion_error)
        (modify (λ t. record t { ssl_writing_paused = true })) s
