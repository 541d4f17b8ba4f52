-- ===== src/Ssl/Forward/Handshake.antt =====
-- uvloop/sslproto.pyx: the handshake flow and the incoming flow keep the order of the states.
use uvloop.Prelude.{
  ℕ, zero, suc, ◌+◌, Bool, true, false, ◌≡◌, refl, [], ◌∷◌, ◌++◌, Option, none, some, ◌==◌, length,
  arith, ◌≤◌,
}
use uvloop.Errors.{
  Exception, is_exception, is_ssl_error, ssl_error, runtime_error, os_error, connection_reset_error,
  uv_econnreset,
}
use uvloop.Python.{M, ◌>>◌, pure, modify}
use uvloop.Python.Frames.{
  Keeps, Keeps-of, pure-Keeps, throw-Keeps, get_state-Keeps, branch-Keeps, branch_of-Keeps,
  catch-Keeps, bind-Keeps, branch_state,
}
use uvloop.Ssl.State.{
  Bytes, Env, Ssl, SslState, SslResult, done, again, zero_return, fails, is_wrapped, is_handshake,
  AppState, call_do_read, call_python, set_state,
}
use uvloop.Ssl.Closing.{on_shutdown_complete}
use uvloop.Ssl.Handshake.{
  chunk_read, read_chunks, do_read_copied, read_and_write, do_read, finish_handshake,
  get_app_transport, is_init, make_app, fail_handshake, on_handshake_complete, handshake_result,
  try_handshake, check_handshake_timeout, updated_in, buffer_updated, end_in, end_of_stream,
  eof_received,
}
use uvloop.Ssl.Forward.{
  Ahead, Ahead-refl, Ahead-trans, ahead, app_rank, eofs_of, losts_of, modify-Ahead, call-Ahead,
  call_python-Ahead, call_soon-Ahead, set_state-Ahead, fatal_error-Ahead, set_then,
}
use uvloop.Ssl.Forward.Writing.{
  control_app_writing-Ahead, control_ssl_reading-Ahead, process_outgoing-Ahead, do_write-Ahead,
  catch_exception-Ahead, reading,
}
use uvloop.Ssl.Forward.Loss.{wakeup_waiter-Ahead}
use uvloop.Ssl.Forward.Closing.{
  call_eof_received-Ahead, start_shutdown-Ahead, do_flush-Ahead, do_shutdown-Ahead,
  on_shutdown_complete-Ahead,
}

module _ {W : Type 0} (env : Env W) where
  chunk_read-Ahead :
      {next : Bytes → M (Ssl W) (Bytes × Bool)}
      → ((acc : Bytes) → Keeps ahead (next acc))
      → (acc : Bytes) (r : SslResult Bytes) → Keeps ahead (chunk_read env next acc r)
  unfolding chunk_read
  chunk_read-Ahead h acc (done []) = pure-Keeps ahead (acc, true)
  chunk_read-Ahead h acc (done (x ∷ chunk)) = h (acc ++ x ∷ chunk)
  chunk_read-Ahead h acc again = pure-Keeps ahead (acc, false)
  chunk_read-Ahead h acc zero_return = throw-Keeps ahead (ssl_error 6)
  chunk_read-Ahead h acc (fails e) = throw-Keeps ahead e

  read_chunks-Ahead : (fuel : ℕ) (acc : Bytes) → Keeps ahead (read_chunks env fuel acc)
  unfolding read_chunks
  read_chunks-Ahead zero acc = pure-Keeps ahead (acc, false)
  read_chunks-Ahead (suc fuel) acc =
      branch_of-Keeps ahead (λ s. env.incoming_pending s.world + env.pending s.world == 0)
        (pure-Keeps ahead (acc, false))
        (bind-Keeps ahead (call-Ahead env.read)
          (λ r. chunk_read-Ahead (read_chunks-Ahead fuel) acc r))

  do_read_copied-Ahead : Keeps ahead (do_read_copied env)
  unfolding do_read_copied
  do_read_copied-Ahead = reading env _ (λ s.
      bind-Keeps ahead
        (read_chunks-Ahead (suc (env.incoming_pending s.world + env.pending s.world)) [])
        (λ r.
          bind-Keeps ahead
            (branch-Keeps ahead (length r.0 == 0) (pure-Keeps ahead tt)
              (call_python-Ahead (env.app_data_received r.0)))
            (λ _.
              branch-Keeps ahead r.1
                (bind-Keeps ahead (call_eof_received-Ahead env) (λ _. start_shutdown-Ahead env))
                (pure-Keeps ahead tt))))

  read_and_write-Ahead : Keeps ahead (read_and_write env)
  unfolding read_and_write
  read_and_write-Ahead = bind-Keeps ahead do_read_copied-Ahead (λ _.
      bind-Keeps ahead (get_state-Keeps ahead) (λ s.
        bind-Keeps ahead
          (branch-Keeps ahead (length s.backlog == 0) (pure-Keeps ahead tt) (do_write-Ahead env))
          (λ _.
            bind-Keeps ahead (process_outgoing-Ahead env) (λ _. control_app_writing-Ahead env))))

  pub do_read-Ahead : Keeps ahead (do_read env)
  unfolding do_read
  do_read-Ahead =
      branch_of-Keeps ahead (λ s. is_wrapped s.state)
        (catch_exception-Ahead env
          (bind-Keeps ahead
            (branch_of-Keeps ahead (λ s. s.app_reading_paused) (pure-Keeps ahead tt)
              read_and_write-Ahead)
            (λ _. control_ssl_reading-Ahead env))
          (fatal_error-Ahead env))
        (pure-Keeps ahead tt)

  finish_handshake-Ahead : (exc : Option Exception) → Keeps ahead (finish_handshake env exc)
  unfolding finish_handshake
  finish_handshake-Ahead none =
      bind-Keeps ahead (set_state-Ahead SslState.wrapped (λ e. cc))
        (λ _. call_python-Ahead env.getpeercert)
  finish_handshake-Ahead (some exc) = throw-Keeps ahead exc

  get_app_transport-Ahead : Keeps ahead (get_app_transport env)
  unfolding get_app_transport
  get_app_transport-Ahead =
      branch_of-Keeps ahead (λ s. s.app_transport) (pure-Keeps ahead tt)
        (branch_of-Keeps ahead (λ s. s.app_transport_created) (throw-Keeps ahead runtime_error)
          (modify-Ahead (λ t. record t { app_transport = true; app_transport_created = true })
            (λ t. (refl, refl, refl, refl))))

  make-Ahead :
      (s : Ssl W)
      → is_init env s.app_state ≡ true
      → Ahead s (record s { app_state = AppState.con_made })
  unfolding app_rank eofs_of losts_of
  make-Ahead s h = record {
    state = omega arith;
    app = early s.app_state h;
    counted = λ c. record {
      eofs = none_yet s.app_state h c.eofs;
      losts = not_lost s.app_state h c.losts;
    };
  }
    where
      early : (a : AppState) → is_init env a ≡ true → app_rank a ≤ 1
      early a h = ground arith

      none_yet : (a : AppState) → is_init env a ≡ true → s.eof_calls ≤ eofs_of a → s.eof_calls ≤ 0
      none_yet a h c = ground arith

      not_lost :
          (a : AppState) → is_init env a ≡ true → s.lost_calls ≡ losts_of a → s.lost_calls ≡ 0
      not_lost a h c = ground arith

  make_app-Ahead : Keeps ahead (make_app env)
  unfolding make_app
  make_app-Ahead = Keeps-of ahead (make_app env) (λ s.
      branch_state (Ahead s) (is_init env s.app_state) (do modify made; connects) (pure tt) s
        (λ h. Ahead-trans s (made s) _ (make-Ahead s h) (connects-Ahead.keeps (made s)))
        (λ _. Ahead-refl s))
    where
      made : Ssl W → Ssl W
      made t = record t { app_state = AppState.con_made }

      connects : M (Ssl W) (Unit {0})
      connects = do
        get_app_transport env
        modify (λ t. record t { made_calls = suc t.made_calls })
        call_python env.app_connection_made

      connects-Ahead : Keeps ahead connects
      connects-Ahead = bind-Keeps ahead get_app_transport-Ahead (λ _.
          set_then (λ t. record t { made_calls = suc t.made_calls }) (λ t. (refl, refl, refl, refl))
            (call_python-Ahead env.app_connection_made))

  fail_handshake-Ahead : (exc : Exception) → Keeps ahead (fail_handshake env exc)
  unfolding fail_handshake
  fail_handshake-Ahead exc =
      branch-Keeps ahead (is_exception exc)
        (bind-Keeps ahead (set_state-Ahead SslState.unwrapped (λ e. cc)) (λ _.
          bind-Keeps ahead (fatal_error-Ahead env exc) (λ _.
            bind-Keeps ahead (wakeup_waiter-Ahead env (some exc)) (λ _. pure-Keeps ahead false))))
        (throw-Keeps ahead exc)

  pub on_handshake_complete-Ahead :
      (exc : Option Exception) → Keeps ahead (on_handshake_complete env exc)
  unfolding on_handshake_complete
  on_handshake_complete-Ahead exc =
      set_then (λ s. record s { handshake_timeout = false }) (λ s. (refl, refl, refl, refl))
        (bind-Keeps ahead
          (catch-Keeps ahead
            (bind-Keeps ahead (finish_handshake-Ahead exc) (λ _. pure-Keeps ahead true))
            fail_handshake-Ahead)
          (λ complete.
            branch-Keeps ahead complete
              (bind-Keeps ahead make_app-Ahead (λ _.
                bind-Keeps ahead (wakeup_waiter-Ahead env none)
                  (λ _. call_soon-Ahead call_do_read)))
              (pure-Keeps ahead tt)))

  handshake_result-Ahead : (r : SslResult (Unit {0})) → Keeps ahead (handshake_result env r)
  unfolding handshake_result
  handshake_result-Ahead (done _) = on_handshake_complete-Ahead none
  handshake_result-Ahead again = process_outgoing-Ahead env
  handshake_result-Ahead zero_return = on_handshake_complete-Ahead (some (ssl_error 6))
  handshake_result-Ahead (fails e) =
      branch-Keeps ahead (is_ssl_error e) (on_handshake_complete-Ahead (some e))
        (throw-Keeps ahead e)

  try_handshake-Ahead : Keeps ahead (try_handshake env)
  unfolding try_handshake
  try_handshake-Ahead = bind-Keeps ahead (call-Ahead env.handshake) handshake_result-Ahead

  pub check_handshake_timeout-Ahead :
      (aborted : Exception) → Keeps ahead (check_handshake_timeout env aborted)
  unfolding check_handshake_timeout
  check_handshake_timeout-Ahead aborted =
      branch_of-Keeps ahead (λ s. is_handshake s.state) (fatal_error-Ahead env aborted)
        (pure-Keeps ahead tt)

  updated_in-Ahead : (a : SslState) → Keeps ahead (updated_in env a)
  unfolding updated_in
  updated_in-Ahead SslState.do_handshake = try_handshake-Ahead
  updated_in-Ahead SslState.wrapped = do_read-Ahead
  updated_in-Ahead SslState.flushing = do_flush-Ahead env
  updated_in-Ahead SslState.shutdown = do_shutdown-Ahead env
  updated_in-Ahead SslState.unwrapped = pure-Keeps ahead tt

  pub buffer_updated-Ahead : (bytes : Bytes) → Keeps ahead (buffer_updated env bytes)
  unfolding buffer_updated
  buffer_updated-Ahead bytes =
      set_then (λ s. record s { world = env.incoming_write bytes s.world })
        (λ s. (refl, refl, refl, refl))
        (bind-Keeps ahead (get_state-Keeps ahead) (λ s. updated_in-Ahead s.state))

  ends : Keeps ahead (do set_state SslState.shutdown; on_shutdown_complete env none)
  ends =
      bind-Keeps ahead (set_state-Ahead SslState.shutdown (λ e. cc))
        (λ _. on_shutdown_complete-Ahead env none)

  end_in-Ahead : (a : SslState) → Keeps ahead (end_in env a)
  unfolding end_in
  end_in-Ahead SslState.do_handshake =
      on_handshake_complete-Ahead (some (os_error connection_reset_error uv_econnreset))
  end_in-Ahead SslState.wrapped = ends
  end_in-Ahead SslState.flushing = ends
  end_in-Ahead SslState.shutdown = on_shutdown_complete-Ahead env none
  end_in-Ahead SslState.unwrapped = pure-Keeps ahead tt

  pub eof_received-Ahead : Keeps ahead (eof_received env)
  unfolding eof_received end_of_stream
  eof_received-Ahead =
      catch_exception-Ahead env (reading env (λ s. end_in env s.state) (λ s. end_in-Ahead s.state))
        (λ e. bind-Keeps ahead (call_python-Ahead env.transport_close) (λ _. throw-Keeps ahead e))
