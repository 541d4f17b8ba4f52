-- ===== src/Ssl/Forward/Closing.antt =====
-- uvloop/sslproto.pyx: the shutdown flow keeps the order of the states.
use uvloop.Prelude.{
  ℕ, zero, suc, ◌+◌, Bool, true, false, ◌&&◌, ◌||◌, ◌≡◌, refl, [], ◌∷◌, Option, none, some, ◌==◌,
  arith, ◌≤◌, ◌∙◌,
}
use uvloop.Errors.{Exception, is_interrupt, is_exception, ssl_error, assertion_error}
use uvloop.Python.{M, Outcome, ok, raise, ◌>>◌, pure, modify}
use uvloop.Python.Frames.{
  Keeps, Keeps-of, pure-Keeps, throw-Keeps, get_state-Keeps, branch-Keeps, branch_of-Keeps,
  catch-Keeps, bind-Keeps, branch_state,
}
use uvloop.Ssl.State.{
  Bytes, Env, Ssl, SslState, SslResult, done, again, zero_return, fails, is_ending, is_handshake,
  is_con_made, AppState,
}
use uvloop.Ssl.Writing.{get_write_buffer_size}
use uvloop.Ssl.Closing.{
  app_eof, call_eof_received, read_and_dropped, read_rounds, do_read_into_void,
  on_shutdown_complete, unwrapped_result, try_unwrap, unwrap_and_finish, do_shutdown, flush_backlog,
  flushed, after_flush, do_flush, start_shutdown, is_closing, check_shutdown_timeout, resume_in,
  resume_writing,
}
use uvloop.Ssl.Forward.{
  Ahead, Ahead-refl, Ahead-trans, ahead, app_rank, eofs_of, losts_of, call-Ahead, call_python-Ahead,
  set_state-Ahead, abort-Ahead, fatal_error-Ahead, set_then,
}
use uvloop.Ssl.Forward.Writing.{
  control_app_writing-Ahead, control_ssl_reading-Ahead, process_outgoing-Ahead, do_write-Ahead,
  catch_exception-Ahead, reading,
}

con_made_counts :
    (a : AppState) → is_con_made a ≡ true → (app_rank a ≤ 2) × (eofs_of a ≡ 0) × (losts_of a ≡ 0)
unfolding app_rank eofs_of losts_of
con_made_counts AppState.con_made h = (omega arith, refl, refl)
con_made_counts AppState.init h = absurd (cc h)
con_made_counts AppState.eof h = absurd (cc h)
con_made_counts AppState.con_lost h = absurd (cc h)

module _ {W : Type 0} (env : Env W) where
  app_eof-Ahead : Keeps ahead (app_eof env)
  unfolding app_eof
  app_eof-Ahead =
      catch-Keeps ahead
        (bind-Keeps ahead (call_python-Ahead env.app_eof_received) (λ _. pure-Keeps ahead tt))
        (λ e. branch-Keeps ahead (is_interrupt e) (throw-Keeps ahead e) (fatal_error-Ahead env e))

  -- `eof_received` is only called where the application knows of the connection and got no end yet.
  eof-Ahead :
      (s : Ssl W)
      → is_con_made s.app_state ≡ true
      → Ahead s (record s { app_state = AppState.eof; eof_calls = suc s.eof_calls })
  unfolding app_rank eofs_of losts_of
  eof-Ahead s h =
      let (r, a, b) = con_made_counts s.app_state h in
      record {
        state = omega arith;
        app = omega (arith, r);
        counted = λ c. record { eofs = omega (arith, c.eofs, a); losts = c.losts ∙ b };
      }

  pub call_eof_received-Ahead : Keeps ahead (call_eof_received env)
  unfolding call_eof_received
  call_eof_received-Ahead = Keeps-of ahead (call_eof_received env) (λ s.
      branch_state (Ahead s) (is_con_made s.app_state) called (pure tt) s
        (λ h. Ahead-trans s (told s) _ (eof-Ahead s h) (app_eof-Ahead.keeps (told s)))
        (λ _. Ahead-refl s))
    where
      told : Ssl W → Ssl W
      told t = record t { app_state = AppState.eof; eof_calls = suc t.eof_calls }

      called : M (Ssl W) (Unit {0})
      called = do modify told; app_eof env

  read_and_dropped-Ahead :
      {next : M (Ssl W) Bool}
      → Keeps ahead next
      → (r : SslResult Bytes) → Keeps ahead (read_and_dropped env next r)
  unfolding read_and_dropped
  read_and_dropped-Ahead h (done []) = pure-Keeps ahead true
  read_and_dropped-Ahead h (done (x ∷ bytes)) = h
  read_and_dropped-Ahead h again = pure-Keeps ahead false
  read_and_dropped-Ahead h zero_return = pure-Keeps ahead true
  read_and_dropped-Ahead h (fails e) = throw-Keeps ahead e

  read_rounds-Ahead : (fuel : ℕ) → Keeps ahead (read_rounds env fuel)
  unfolding read_rounds
  read_rounds-Ahead zero = pure-Keeps ahead false
  read_rounds-Ahead (suc fuel) =
      bind-Keeps ahead (call-Ahead env.read)
        (λ r. read_and_dropped-Ahead (read_rounds-Ahead fuel) r)

  pub do_read_into_void-Ahead : Keeps ahead (do_read_into_void env)
  unfolding do_read_into_void
  do_read_into_void-Ahead = Keeps-of ahead (do_read_into_void env) (λ s.
      (bind-Keeps ahead
          (read_rounds-Ahead (suc (env.incoming_pending s.world + env.pending s.world)))
          (λ b. branch-Keeps ahead b call_eof_received-Ahead (pure-Keeps ahead tt))).keeps
        s)

  pub on_shutdown_complete-Ahead :
      (exc : Option Exception) → Keeps ahead (on_shutdown_complete env exc)
  unfolding on_shutdown_complete
  on_shutdown_complete-Ahead none =
      set_then (λ s. record s { shutdown_timeout = false }) (λ s. (refl, refl, refl, refl))
        (call_python-Ahead env.transport_close)
  on_shutdown_complete-Ahead (some exc) =
      set_then (λ s. record s { shutdown_timeout = false }) (λ s. (refl, refl, refl, refl))
        (fatal_error-Ahead env exc)

  unwrapped_result-Ahead : (r : SslResult (Unit {0})) → Keeps ahead (unwrapped_result env r)
  unfolding unwrapped_result
  unwrapped_result-Ahead (done _) = pure-Keeps ahead true
  unwrapped_result-Ahead again = pure-Keeps ahead false
  unwrapped_result-Ahead zero_return = throw-Keeps ahead (ssl_error 6)
  unwrapped_result-Ahead (fails e) = throw-Keeps ahead e

  unwrap_and_finish-Ahead : Keeps ahead (unwrap_and_finish env)
  unfolding unwrap_and_finish try_unwrap
  unwrap_and_finish-Ahead = bind-Keeps ahead do_read_into_void-Ahead (λ _.
      bind-Keeps ahead (bind-Keeps ahead (call-Ahead env.unwrap) unwrapped_result-Ahead) (λ b.
        bind-Keeps ahead (process_outgoing-Ahead env) (λ _.
          bind-Keeps ahead (get_state-Keeps ahead) (λ s.
            branch-Keeps ahead (b && get_write_buffer_size env s == 0)
              (on_shutdown_complete-Ahead none) (pure-Keeps ahead tt)))))

  pub do_shutdown-Ahead : Keeps ahead (do_shutdown env)
  unfolding do_shutdown
  do_shutdown-Ahead =
      catch_exception-Ahead env unwrap_and_finish-Ahead (λ e. on_shutdown_complete-Ahead (some e))

  flush_backlog-Ahead : Keeps ahead (flush_backlog env)
  unfolding flush_backlog
  flush_backlog-Ahead = bind-Keeps ahead do_read_into_void-Ahead (λ _.
      bind-Keeps ahead (do_write-Ahead env)
        (λ _. bind-Keeps ahead (process_outgoing-Ahead env) (λ _. control_ssl_reading-Ahead env)))

  flushed-Ahead : Keeps ahead (flushed env)
  unfolding flushed
  flushed-Ahead =
      branch_of-Keeps ahead (λ s. get_write_buffer_size env s == 0)
        (bind-Keeps ahead (set_state-Ahead SslState.shutdown (λ e. cc)) (λ _. do_shutdown-Ahead))
        (pure-Keeps ahead tt)

  after_flush-Ahead :
      (s : Ssl W) (r : Outcome (Unit {0}) × Ssl W) → Ahead s r.1 → Ahead s (after_flush env r).1
  unfolding after_flush
  after_flush-Ahead s (ok _, t) h = Ahead-trans s t (flushed env t).1 h (flushed-Ahead.keeps t)
  after_flush-Ahead s (raise e, t) h = Ahead-trans s t _ h (
      (branch-Keeps ahead (is_exception e) (on_shutdown_complete-Ahead (some e))
          (throw-Keeps ahead e)).keeps
        t)

  pub do_flush-Ahead : Keeps ahead (do_flush env)
  unfolding do_flush
  do_flush-Ahead =
      Keeps-of ahead (do_flush env)
        (λ s. after_flush-Ahead s (flush_backlog env s) (flush_backlog-Ahead.keeps s))

  pub start_shutdown-Ahead : Keeps ahead (start_shutdown env)
  unfolding start_shutdown
  start_shutdown-Ahead = reading env _ (λ s.
      branch-Keeps ahead (is_ending s.state) (pure-Keeps ahead tt) (
        set_then (λ t. record t { app_closed = t.app_transport || t.app_closed })
          (λ t. (refl, refl, refl, refl))
          (branch-Keeps ahead (is_handshake s.state) (abort-Ahead env none) (
            bind-Keeps ahead (set_state-Ahead SslState.flushing (λ e. cc)) (λ _.
              set_then (λ t. record t { shutdown_timeout = true }) (λ t. (refl, refl, refl, refl))
                do_flush-Ahead)))))

  pub check_shutdown_timeout-Ahead :
      (timeout : Exception) → Keeps ahead (check_shutdown_timeout env timeout)
  unfolding check_shutdown_timeout
  check_shutdown_timeout-Ahead timeout =
      branch_of-Keeps ahead (λ s. is_closing env s.state)
        (call_python-Ahead (env.transport_force_close (some timeout))) (pure-Keeps ahead tt)

  resume_in-Ahead : (a : SslState) → Keeps ahead (resume_in env a)
  unfolding resume_in
  resume_in-Ahead SslState.wrapped =
      bind-Keeps ahead (process_outgoing-Ahead env) (λ _. control_app_writing-Ahead env)
  resume_in-Ahead SslState.flushing = do_flush-Ahead
  resume_in-Ahead SslState.shutdown = do_shutdown-Ahead
  resume_in-Ahead SslState.unwrapped = pure-Keeps ahead tt
  resume_in-Ahead SslState.do_handshake = pure-Keeps ahead tt

  pub resume_writing-Ahead : Keeps ahead (resume_writing env)
  unfolding resume_writing
  resume_writing-Ahead = reading env _ (λ s.
      branch-Keeps ahead s.ssl_writing_paused
        (set_then (λ t. record t { ssl_writing_paused = false }) (λ t. (refl, refl, refl, refl))
          (resume_in-Ahead s.state))
        (throw-Keeps ahead assertion_error))
