-- ===== src/Server/Histories.antt =====
-- uvloop/server.pyx: what holds after any history of a server.
use uvloop.Prelude.{◌↔◌, ℕ, Bool, ◌≡◌, List, [], ◌∷◌, none, arith}
use uvloop.Server.{
  Sockets, Server, new_server, add_server, start_serving, attach, detach, wait_closed, close,
  set_reference,
}
use uvloop.Server.Waiting.{
  Calm, Settled, close-Settled, detach-Settled, attach-Settled, add_server-Settled,
  wait_closed-Settled, start_serving-Settled,
}

-- The calls that a server gets: a listening socket is added, it starts to serve, a connection comes
-- or goes, somebody waits, it is closed.
pub data Event : Type 0 where
  adds waits : ℕ → Event
  serves attaches detaches closes refs unrefs : Event

module _ {W : Type 0} (sockets : Sockets W) where
  unfoldable pub step : Server W → Event → Server W
  step s (adds n) = (add_server sockets n s).1
  step s (waits n) = (wait_closed sockets n s).1
  step s serves = (start_serving sockets s).1
  step s attaches = (attach sockets s).1
  step s detaches = (detach sockets s).1
  step s closes = (close sockets s).1
  step s refs = (set_reference sockets Bool.true s).1
  step s unrefs = (set_reference sockets Bool.false s).1

  unfoldable pub run : Server W → List Event → Server W
  unfolding step
  run s [] = s
  run s (e ∷ es) = run (step s e) es

  module _ (calm : Calm sockets) where
    step-Settled : (s : Server W) (e : Event) → Settled sockets s → Settled sockets (step s e)
    unfolding step set_reference
    step-Settled s (adds n) h = add_server-Settled sockets calm n s h
    step-Settled s (waits n) h = wait_closed-Settled sockets calm n s h
    step-Settled s serves h = start_serving-Settled sockets calm s h
    step-Settled s attaches h = attach-Settled sockets calm s h
    step-Settled s detaches h = detach-Settled sockets calm s h
    step-Settled s closes h = close-Settled sockets calm s h
    step-Settled s refs h = ground arith
    step-Settled s unrefs h = ground arith

    run_from-Settled :
        (s : Server W) (es : List Event) → Settled sockets s → Settled sockets (run s es)
    unfolding run
    run_from-Settled s [] h = h
    run_from-Settled s (e ∷ es) h = run_from-Settled (step s e) es (step-Settled s e h)

    -- After any history of a new server whose sockets do not fail, its list of waiters is gone
    -- exactly if it is closed and has no open connection.
    pub run-waiters :
        (w : W) (es : List Event)
        → ((run (new_server w) es).waiters ≡ none)
          ↔ (((run (new_server w) es).servers ≡ none) × ((run (new_server w) es).active_count ≡ 0))
    unfolding new_server
    run-waiters w es =
        let h : Settled sockets (run (new_server w) es) =
          run_from-Settled (new_server w) es (ground arith) in
        (λ p. h.gone p, λ q. h.settled q.0 q.1)
