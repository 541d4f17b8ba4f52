-- ===== src/Ssl/Closing.antt =====
-- uvloop/sslproto.pyx: the shutdown flow of `SSLProtocol`, and the loss of the connection.
use uvloop.Prelude.{
  ℕ, zero, suc, ◌+◌, Bool, true, false, ◌&&◌, ◌||◌, [], ◌∷◌, ◌++◌, Option, none, some, ◌==◌,
}
use uvloop.Errors.{
  Exception, is_interrupt, is_exception, assertion_error, invalid_state_error, ssl_error,
}
use uvloop.Python.{
  M, Outcome, ok, raise, ◌>>=◌, ◌>>◌, pure, throw, modify, branch, whenever, catch, get_state,
}
use uvloop.Ssl.State.{
  Bytes, SslState, unwrapped, wrapped, flushing, shutdown, AppState, con_made, eof, con_lost,
  SslResult, done, again, zero_return, fails, Env, Ssl, Future, cancelled_future, pending_future,
  done_future, is_ending, is_handshake, is_con_made, call, call_python, call_soon,
  call_connection_lost, set_state, abort, fatal_error,
}
use uvloop.Ssl.Writing.{
  get_write_buffer_size, do_write, process_outgoing, control_app_writing, control_ssl_reading,
  catch_exception,
}

module _ {W : Type 0} (env : Env W) where
  -- The application's `eof_received()`; its result has no effect.
  unfoldable pub app_eof : M (Ssl W) (Unit {0})
  unfolding fatal_error
  app_eof =
      catch (do _ ← call_python env.app_eof_received; pure tt)
        (λ e. branch (is_interrupt e) (throw e) (fatal_error env e))

  unfoldable pub call_eof_received : M (Ssl W) (Unit {0})
  unfolding app_eof
  call_eof_received s =
      whenever (is_con_made s.app_state)
        (do modify (λ t. record t { app_state = eof; eof_calls = suc t.eof_calls }); app_eof) s

  -- What a round of `_do_read_into_void` does with the result of the `SSLObject`.
  unfoldable pub read_and_dropped : M (Ssl W) Bool → SslResult Bytes → M (Ssl W) Bool
  read_and_dropped next (done []) = pure true
  read_and_dropped next (done (x ∷ bytes)) = next
  read_and_dropped next again = pure false
  read_and_dropped next zero_return = pure true
  read_and_dropped next (fails e) = throw e

  -- The loop of `_do_read_into_void`, on fuel: whether the peer's `close_notify` was met.
  unfoldable pub read_rounds : ℕ → M (Ssl W) Bool
  unfolding read_and_dropped
  read_rounds zero = pure false
  read_rounds (suc fuel) = do result ← call env.read; read_and_dropped (read_rounds fuel) result

  unfoldable pub do_read_into_void : M (Ssl W) (Unit {0})
  unfolding read_rounds call_eof_received
  do_read_into_void s =
      (do
        close_notify ← read_rounds (suc (env.incoming_pending s.world + env.pending s.world))
        whenever close_notify call_eof_received)
        s

  unfoldable pub on_shutdown_complete : Option Exception → M (Ssl W) (Unit {0})
  unfolding fatal_error
  on_shutdown_complete none = do
    modify (λ s. record s { shutdown_timeout = false })
    call_python env.transport_close
  on_shutdown_complete (some exc) = do
    modify (λ s. record s { shutdown_timeout = false })
    fatal_error env exc

  unfoldable pub unwrapped_result : SslResult (Unit {0}) → M (Ssl W) Bool
  unwrapped_result (done _) = pure true
  unwrapped_result again = pure false
  unwrapped_result zero_return = throw (ssl_error 6)
  unwrapped_result (fails e) = throw e

  -- `self._sslobj.unwrap()`: whether it was done.
  unfoldable pub try_unwrap : M (Ssl W) Bool
  unfolding unwrapped_result
  try_unwrap = do result ← call env.unwrap; unwrapped_result result

  unfoldable pub unwrap_and_finish : M (Ssl W) (Unit {0})
  unfolding do_read_into_void try_unwrap process_outgoing on_shutdown_complete get_write_buffer_size
  unwrap_and_finish = do
    do_read_into_void
    unwrap_done ← try_unwrap
    process_outgoing env
    s ← get_state
    whenever (unwrap_done && get_write_buffer_size env s == 0) (on_shutdown_complete none)

  unfoldable pub do_shutdown : M (Ssl W) (Unit {0})
  unfolding unwrap_and_finish
  do_shutdown = catch_exception env unwrap_and_finish (λ ex. on_shutdown_complete (some ex))

  unfoldable pub flush_backlog : M (Ssl W) (Unit {0})
  unfolding do_read_into_void do_write process_outgoing control_ssl_reading
  flush_backlog = do do_read_into_void; do_write env; process_outgoing env; control_ssl_reading env

  -- The `else` of `_do_flush`.
  unfoldable pub flushed : M (Ssl W) (Unit {0})
  unfolding get_write_buffer_size set_state do_shutdown
  flushed s = whenever (get_write_buffer_size env s == 0) (do set_state shutdown; do_shutdown) s

  -- `try`, `except Exception` and `else`: the handler does not cover the `else`.
  unfoldable pub after_flush : Outcome (Unit {0}) × Ssl W → Outcome (Unit {0}) × Ssl W
  unfolding flushed on_shutdown_complete
  after_flush (ok _, s) = flushed s
  after_flush (raise e, s) = branch (is_exception e) (on_shutdown_complete (some e)) (throw e) s

  unfoldable pub do_flush : M (Ssl W) (Unit {0})
  unfolding flush_backlog after_flush
  do_flush s = after_flush (flush_backlog s)

  unfoldable pub start_shutdown : M (Ssl W) (Unit {0})
  unfolding is_ending abort set_state do_flush
  start_shutdown s =
      branch (is_ending s.state) (pure tt)
        (do
          modify (λ t. record t { app_closed = t.app_transport || t.app_closed })
          branch (is_handshake s.state) (abort env none)
              (do set_state flushing; modify (λ t. record t { shutdown_timeout = true }); do_flush))
        s

  -- `_check_shutdown_timeout` is in one of these two states.
  abbrev pub is_closing : SslState → Bool
  is_closing flushing = true
  is_closing shutdown = true
  is_closing _ = false

  unfoldable pub check_shutdown_timeout : Exception → M (Ssl W) (Unit {0})
  check_shutdown_timeout timeout s =
      whenever (is_closing s.state) (call_python (env.transport_force_close (some timeout))) s

  -- What `resume_writing()` goes on with.
  unfoldable pub resume_in : SslState → M (Ssl W) (Unit {0})
  unfolding process_outgoing control_app_writing do_flush do_shutdown
  resume_in wrapped = do process_outgoing env; control_app_writing env
  resume_in flushing = do_flush
  resume_in shutdown = do_shutdown
  resume_in _ = pure tt

  -- `resume_writing()`, from the transport below.
  unfoldable pub resume_writing : M (Ssl W) (Unit {0})
  unfolding resume_in
  resume_writing s =
      branch s.ssl_writing_paused
        (do modify (λ t. record t { ssl_writing_paused = false }); resume_in s.state)
        (throw assertion_error) s

  unfoldable pub wakeup : Option Exception → Option Future → M (Ssl W) (Unit {0})
  wakeup exc none = pure tt
  wakeup exc (some cancelled_future) = modify (λ s. record s { waiter = none })
  wakeup exc (some done_future) = throw invalid_state_error
  wakeup exc (some pending_future) =
      modify (λ s. record s { waiter = none; woken = s.woken ++ exc ∷ [] })

  unfoldable pub wakeup_waiter : Option Exception → M (Ssl W) (Unit {0})
  unfolding wakeup
  wakeup_waiter exc s = wakeup exc s.waiter s

  abbrev pub knows_connection : AppState → Bool
  knows_connection con_made = true
  knows_connection eof = true
  knows_connection _ = false

  -- The application learns of a lost connection only if it learnt that it was made, and not during
  -- a handshake.
  unfoldable pub app_lost : Option Exception → M (Ssl W) (Unit {0})
  app_lost exc s =
      whenever (knows_connection s.app_state)
        (do
          modify (λ t. record t { app_state = con_lost; lost_calls = suc t.lost_calls })
          call_soon (call_connection_lost exc))
        s

  unfoldable pub connection_lost : Option Exception → M (Ssl W) (Unit {0})
  unfolding app_lost set_state wakeup_waiter
  connection_lost exc s =
      (do
        modify (λ t. record t { backlog = [] })
        _ ← call env.outgoing_read
        modify (λ t. record t {
          conn_lost = suc t.conn_lost;
          app_closed = t.app_transport || t.app_closed;
        })
        branch (is_handshake s.state) (pure tt) (app_lost exc)
        set_state unwrapped
        modify (λ t. record t { transport = false; app_transport = false; app_protocol = false })
        wakeup_waiter exc
        modify (λ t. record t { shutdown_timeout = false; handshake_timeout = false }))
        s
