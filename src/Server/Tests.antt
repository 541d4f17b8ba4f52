-- ===== src/Server/Tests.antt =====
-- uvloop/server.pyx: a server over sockets that never fail.
use uvloop.Prelude.{ℕ, ◌≡◌, ◌↔◌, refl, false, List, [], ◌∷◌, ◌++◌, none, some, ◌==◌, arith}
use uvloop.Python.{ok}
use uvloop.Server.{Sockets, Server, new_server, detach, close}
use uvloop.Server.Waiting.{
  Calm, Settled, closed_at, close_lem, close_never_raises, detach_never_raises, detach_last,
}
use uvloop.Server.Histories.{
  Event, adds, waits, serves, attaches, detaches, closes, refs, run, run-waiters,
}

-- The world is the list of the sockets closed so far; future 9 is done.
abbrev simple : Sockets (List ℕ)
simple = record {
  listen = λ n w. (ok tt, w);
  close = λ n w. (ok tt, w ++ n ∷ []);
  is_done = λ n w. n == 9;
}

simple-Calm : Calm simple
simple-Calm = record { listens = λ n w. refl; closes = λ n w. refl }

-- A closed server with one connection and two waiters.
abbrev closing_server : Server (List ℕ)
closing_server = record {
  world = [];
  servers = none;
  waiters = some (7 ∷ 9 ∷ []);
  active_count = 1;
  serving = false;
  serving_forever = false;
  referenced = false;
  woken = [];
}

abbrev open_server : Server (List ℕ)
open_server = record closing_server { servers = some (1 ∷ 2 ∷ []); active_count = 0 }

closing_server-Settled : Settled simple closing_server
closing_server-Settled = ground arith

abbrev busy_day : List Event
busy_day = adds 1 ∷ serves ∷ refs ∷ attaches ∷ waits 7 ∷ closes ∷ waits 8 ∷ detaches ∷ waits 6 ∷ []

run-waiters_example : ((run simple (new_server []) busy_day).waiters ≡ none) ↔ (
    ((run simple (new_server []) busy_day).servers ≡ none)
    × ((run simple (new_server []) busy_day).active_count ≡ 0))
run-waiters_example = run-waiters simple simple-Calm [] busy_day

close_lem_example :
    (w : List ℕ) × (close simple open_server ≡ (ok tt, closed_at simple open_server w (7 ∷ 9 ∷ [])))
close_lem_example = close_lem simple simple-Calm open_server (1 ∷ 2 ∷ []) (7 ∷ 9 ∷ []) refl refl

close_never_raises_example : (close simple closing_server).0 ≡ ok tt
close_never_raises_example =
    close_never_raises simple simple-Calm closing_server closing_server-Settled

detach_never_raises_example : (detach simple closing_server).0 ≡ ok tt
detach_never_raises_example =
    detach_never_raises simple simple-Calm closing_server closing_server-Settled (λ e. cc)

detach_last_example :
    detach simple closing_server
    ≡ (ok tt, record closing_server { active_count = 0; waiters = none; woken = 7 ∷ [] })
detach_last_example = detach_last simple simple-Calm closing_server (7 ∷ 9 ∷ []) refl refl refl
