-- ===== src/Ssl/Handshake.antt =====
-- uvloop/sslproto.pyx: the handshake flow and the incoming flow of `SSLProtocol`, over an
-- application that takes its data by `data_received`.
use uvloop.Prelude.{
  ℕ, zero, suc, ◌+◌, Bool, true, false, [], ◌∷◌, ◌++◌, Option, none, some, ◌==◌, length,
}
use uvloop.Errors.{
  Exception, is_exception, is_ssl_error, runtime_error, ssl_error, os_error, connection_reset_error,
  uv_econnreset,
}
use uvloop.Python.{M, ok, ◌>>=◌, ◌>>◌, pure, throw, modify, branch, whenever, catch, get_state}
use uvloop.Ssl.State.{
  Bytes, SslState, unwrapped, do_handshake, wrapped, flushing, shutdown, AppState, init, con_made,
  SslResult, done, again, zero_return, fails, Env, Ssl, is_wrapped, is_handshake, call, call_python,
  call_soon, call_do_read, set_state, fatal_error,
}
use uvloop.Ssl.Writing.{
  do_write, process_outgoing, control_app_writing, control_ssl_reading, catch_exception,
}
use uvloop.Ssl.Closing.{
  call_eof_received, start_shutdown, do_flush, do_shutdown, on_shutdown_complete, wakeup_waiter,
}

module _ {W : Type 0} (env : Env W) where
  unfoldable pub chunk_read :
      (Bytes → M (Ssl W) (Bytes × Bool)) → Bytes → SslResult Bytes → M (Ssl W) (Bytes × Bool)
  chunk_read next acc (done []) = pure (acc, true)
  chunk_read next acc (done (x ∷ chunk)) = next (acc ++ x ∷ chunk)
  chunk_read next acc again = pure (acc, false)
  chunk_read next acc zero_return = throw (ssl_error 6)
  chunk_read next acc (fails e) = throw e

  -- The `while` loop of `_do_read__copied`, on fuel: what was read, and whether the end was met.
  unfoldable pub read_chunks : ℕ → Bytes → M (Ssl W) (Bytes × Bool)
  unfolding chunk_read
  read_chunks zero acc s = (ok (acc, false), s)
  read_chunks (suc fuel) acc s =
      branch (env.incoming_pending s.world + env.pending s.world == 0) (pure (acc, false))
        (do result ← call env.read; chunk_read (read_chunks fuel) acc result) s

  unfoldable pub do_read_copied : M (Ssl W) (Unit {0})
  unfolding read_chunks call_eof_received start_shutdown
  do_read_copied s =
      (do
        (bytes, ended) ← read_chunks (suc (env.incoming_pending s.world + env.pending s.world)) []
        branch (length bytes == 0) (pure tt) (call_python (env.app_data_received bytes))
        whenever ended (do call_eof_received env; start_shutdown env))
        s

  unfoldable pub read_and_write : M (Ssl W) (Unit {0})
  unfolding do_read_copied do_write process_outgoing control_app_writing
  read_and_write = do
    do_read_copied
    s ← get_state
    branch (length s.backlog == 0) (pure tt) (do_write env)
    process_outgoing env
    control_app_writing env

  unfoldable pub do_read : M (Ssl W) (Unit {0})
  unfolding read_and_write control_ssl_reading fatal_error
  do_read s =
      whenever (is_wrapped s.state)
        (catch_exception env
          (do branch s.app_reading_paused (pure tt) read_and_write; control_ssl_reading env)
          (fatal_error env))
        s

  -- The `try` of `_on_handshake_complete`.
  unfoldable pub finish_handshake : Option Exception → M (Ssl W) (Unit {0})
  unfolding set_state
  finish_handshake none = do set_state wrapped; call_python env.getpeercert
  finish_handshake (some exc) = throw exc

  unfoldable pub get_app_transport : M (Ssl W) (Unit {0})
  get_app_transport s =
      branch s.app_transport (pure tt)
        (branch s.app_transport_created (throw runtime_error)
          (modify (λ t. record t { app_transport = true; app_transport_created = true })))
        s

  abbrev pub is_init : AppState → Bool
  is_init init = true
  is_init _ = false

  unfoldable pub make_app : M (Ssl W) (Unit {0})
  unfolding get_app_transport
  make_app s =
      whenever (is_init s.app_state)
        (do
          modify (λ t. record t { app_state = con_made })
          get_app_transport
          modify (λ t. record t { made_calls = suc t.made_calls })
          call_python env.app_connection_made)
        s

  unfoldable pub fail_handshake : Exception → M (Ssl W) Bool
  unfolding set_state fatal_error wakeup_waiter
  fail_handshake exc =
      branch (is_exception exc)
        (do set_state unwrapped; fatal_error env exc; wakeup_waiter env (some exc); pure false)
        (throw exc)

  unfoldable pub on_handshake_complete : Option Exception → M (Ssl W) (Unit {0})
  unfolding finish_handshake fail_handshake make_app wakeup_waiter
  on_handshake_complete exc = do
    modify (λ s. record s { handshake_timeout = false })
    complete ← catch (do finish_handshake exc; pure true) fail_handshake
    whenever complete (do make_app; wakeup_waiter env none; call_soon call_do_read)

  -- `_do_handshake`, after the `SSLObject`.
  unfoldable pub handshake_result : SslResult (Unit {0}) → M (Ssl W) (Unit {0})
  unfolding process_outgoing on_handshake_complete
  handshake_result (done _) = on_handshake_complete none
  handshake_result again = process_outgoing env
  handshake_result zero_return = on_handshake_complete (some (ssl_error 6))
  handshake_result (fails e) = branch (is_ssl_error e) (on_handshake_complete (some e)) (throw e)

  unfoldable pub try_handshake : M (Ssl W) (Unit {0})
  unfolding handshake_result
  try_handshake = do result ← call env.handshake; handshake_result result

  -- `connection_made` and `_start_handshake`.
  unfoldable pub connection_made : M (Ssl W) (Unit {0})
  unfolding set_state on_handshake_complete try_handshake
  connection_made = do
    modify (λ s. record s { transport = true })
    set_state do_handshake
    modify (λ s. record s { handshake_timeout = true })
    wrapped_bio ←
        catch (do call_python env.wrap_bio; pure true)
          (λ ex.
            branch (is_exception ex) (do on_handshake_complete (some ex); pure false) (throw ex))
    whenever wrapped_bio try_handshake

  unfoldable pub check_handshake_timeout : Exception → M (Ssl W) (Unit {0})
  unfolding fatal_error
  check_handshake_timeout aborted s = whenever (is_handshake s.state) (fatal_error env aborted) s

  -- What data from the transport below goes on with.
  unfoldable pub updated_in : SslState → M (Ssl W) (Unit {0})
  unfolding try_handshake do_read do_flush do_shutdown
  updated_in do_handshake = try_handshake
  updated_in wrapped = do_read
  updated_in flushing = do_flush env
  updated_in shutdown = do_shutdown env
  updated_in unwrapped = pure tt

  unfoldable pub buffer_updated : Bytes → M (Ssl W) (Unit {0})
  unfolding updated_in
  buffer_updated bytes = do
    modify (λ s. record s { world = env.incoming_write bytes s.world })
    s ← get_state
    updated_in s.state

  -- The `try` of `eof_received()`.
  unfoldable pub end_in : SslState → M (Ssl W) (Unit {0})
  unfolding set_state on_handshake_complete on_shutdown_complete
  end_in do_handshake = on_handshake_complete (some (os_error connection_reset_error uv_econnreset))
  end_in wrapped = do set_state shutdown; on_shutdown_complete env none
  end_in flushing = do set_state shutdown; on_shutdown_complete env none
  end_in shutdown = on_shutdown_complete env none
  end_in unwrapped = pure tt

  unfoldable pub end_of_stream : M (Ssl W) (Unit {0})
  unfolding end_in
  end_of_stream s = end_in s.state s

  -- `eof_received()`, from the transport below.
  unfoldable pub eof_received : M (Ssl W) (Unit {0})
  unfolding end_of_stream
  eof_received =
      catch_exception env end_of_stream (λ e. do call_python env.transport_close; throw e)
