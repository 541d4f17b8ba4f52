-- ===== src/Ssl/Forward/Loss.antt =====
-- uvloop/sslproto.pyx: waking the waiter and losing the connection keep the order of the states.
use uvloop.Prelude.{
  suc, true, false, ◌||◌, ◌≡◌, refl, [], ◌∷◌, ◌++◌, Option, none, some, arith, ◌≤◌,
}
use uvloop.Errors.{Exception, invalid_state_error}
use uvloop.Python.{M, ◌>>◌, pure, modify}
use uvloop.Python.Frames.{
  Keeps, Keeps-of, pure-Keeps, throw-Keeps, branch-Keeps, bind-Keeps, branch_state,
}
use uvloop.Ssl.State.{
  Env, Ssl, SslState, is_handshake, AppState, Future, set_state, call_soon, call_connection_lost,
}
use uvloop.Ssl.Closing.{wakeup, wakeup_waiter, knows_connection, app_lost, connection_lost}
use uvloop.Ssl.Forward.{
  Ahead, Ahead-refl, Ahead-trans, ahead, app_rank, eofs_of, losts_of, modify-Ahead, call-Ahead,
  call_soon-Ahead, set_state-Ahead, set_then,
}
use uvloop.Ssl.Forward.Writing.{reading}

module _ {W : Type 0} (env : Env W) where
  wakeup-Ahead : (exc : Option Exception) (f : Option Future) → Keeps ahead (wakeup env exc f)
  unfolding wakeup
  wakeup-Ahead exc none = pure-Keeps ahead tt
  wakeup-Ahead exc (some Future.cancelled_future) =
      modify-Ahead (λ s. record s { waiter = none }) (λ s. (refl, refl, refl, refl))
  wakeup-Ahead exc (some Future.done_future) = throw-Keeps ahead invalid_state_error
  wakeup-Ahead exc (some Future.pending_future) =
      modify-Ahead (λ s. record s { waiter = none; woken = s.woken ++ exc ∷ [] })
        (λ s. (refl, refl, refl, refl))

  pub wakeup_waiter-Ahead : (exc : Option Exception) → Keeps ahead (wakeup_waiter env exc)
  unfolding wakeup_waiter
  wakeup_waiter-Ahead exc =
      reading env (λ s. wakeup env exc s.waiter) (λ s. wakeup-Ahead exc s.waiter)

  -- The loss of the connection is only told to an application that knows of the connection.
  lost-Ahead :
      (s : Ssl W)
      → knows_connection env s.app_state ≡ true
      → Ahead s (record s { app_state = AppState.con_lost; lost_calls = suc s.lost_calls })
  unfolding app_rank eofs_of losts_of
  lost-Ahead s h = record {
    state = omega arith;
    app = last s.app_state;
    counted = λ c. record { eofs = at_most s.app_state c.eofs; losts = once s.app_state h c.losts };
  }
    where
      last : (a : AppState) → app_rank a ≤ 3
      last a = ground arith

      at_most : (a : AppState) → s.eof_calls ≤ eofs_of a → s.eof_calls ≤ 1
      at_most a h = ground arith

      once :
          (a : AppState)
          → knows_connection env a ≡ true
          → s.lost_calls ≡ losts_of a
          → suc s.lost_calls ≡ 1
      once a h c = ground arith

  app_lost-Ahead : (exc : Option Exception) → Keeps ahead (app_lost env exc)
  unfolding app_lost
  app_lost-Ahead exc = Keeps-of ahead (app_lost env exc) (λ s.
      branch_state (Ahead s) (knows_connection env s.app_state) called (pure tt) s
        (λ h.
          Ahead-trans s (told s) _ (lost-Ahead s h)
            ((call_soon-Ahead (call_connection_lost exc)).keeps (told s)))
        (λ _. Ahead-refl s))
    where
      told : Ssl W → Ssl W
      told t = record t { app_state = AppState.con_lost; lost_calls = suc t.lost_calls }

      called : M (Ssl W) (Unit {0})
      called = do modify told; call_soon (call_connection_lost exc)

  -- What `connection_lost` does once the application was told.
  connection_gone-Ahead :
      (exc : Option Exception)
      → Keeps ahead (do
        set_state SslState.unwrapped
        modify (λ (t : Ssl W). record t {
          transport = false;
          app_transport = false;
          app_protocol = false;
        })
        wakeup_waiter env exc
        modify (λ t. record t { shutdown_timeout = false; handshake_timeout = false }))
  connection_gone-Ahead exc = bind-Keeps ahead (set_state-Ahead SslState.unwrapped (λ e. cc)) (λ _.
      set_then (λ t. record t { transport = false; app_transport = false; app_protocol = false })
        (λ t. (refl, refl, refl, refl))
        (bind-Keeps ahead (wakeup_waiter-Ahead exc) (λ _.
          modify-Ahead (λ t. record t { shutdown_timeout = false; handshake_timeout = false })
            (λ t. (refl, refl, refl, refl)))))

  pub connection_lost-Ahead : (exc : Option Exception) → Keeps ahead (connection_lost env exc)
  unfolding connection_lost
  connection_lost-Ahead exc = reading env _ (λ s.
      set_then (λ t. record t { backlog = [] }) (λ t. (refl, refl, refl, refl))
        (bind-Keeps ahead (call-Ahead env.outgoing_read) (λ _.
          set_then
            (λ t. record t {
              conn_lost = suc t.conn_lost;
              app_closed = t.app_transport || t.app_closed;
            })
            (λ t. (refl, refl, refl, refl))
            (bind-Keeps ahead
              (branch-Keeps ahead (is_handshake s.state) (pure-Keeps ahead tt) (app_lost-Ahead exc))
              (λ _. connection_gone-Ahead exc)))))
