-- ===== src/Ssl/Lifecycle.antt =====
-- uvloop/sslproto.pyx: any sequence of calls of an `SSLProtocol` whose connection was made: by the
-- transport below, by the application through its transport, and by the loop.
use uvloop.Prelude.{true, ◌≤◌, refl, List, [], ◌∷◌, Option}
use uvloop.Errors.{Exception}
use uvloop.Ssl.State.{Bytes, Env, Ssl, abort, fatal_error}
use uvloop.Ssl.Writing.{write_appdata, pause_reading, resume_reading, pause_writing}
use uvloop.Ssl.Closing.{start_shutdown, check_shutdown_timeout, resume_writing, connection_lost}
use uvloop.Ssl.Handshake.{do_read, check_handshake_timeout, buffer_updated, eof_received}
use uvloop.Ssl.Forward.{
  Ahead, Ahead-refl, Ahead-trans, rank, app_rank, abort-Ahead, fatal_error-Ahead, modify-Ahead,
}
use uvloop.Ssl.Forward.Writing.{write_appdata-Ahead, resume_reading-Ahead, pause_writing-Ahead}
use uvloop.Ssl.Forward.Loss.{connection_lost-Ahead}
use uvloop.Ssl.Forward.Closing.{
  start_shutdown-Ahead, check_shutdown_timeout-Ahead, resume_writing-Ahead,
}
use uvloop.Ssl.Forward.Handshake.{
  do_read-Ahead, check_handshake_timeout-Ahead, buffer_updated-Ahead, eof_received-Ahead,
}

pub data Event : Type 0 where
  data_comes : Bytes → Event
  end_comes pauses_writing resumes_writing : Event
  loses_connection : Option Exception → Event
  writes : List Bytes → Event
  closes pauses_reading resumes_reading reads : Event
  aborts : Option Exception → Event
  handshake_times_out shutdown_times_out fails : Exception → Event

module _ {W : Type 0} (env : Env W) where
  -- The state after an event, whether the call returns or raises.
  unfoldable pub step : Ssl W → Event → Ssl W
  step s (data_comes bytes) = (buffer_updated env bytes s).1
  step s end_comes = (eof_received env s).1
  step s pauses_writing = (pause_writing env s).1
  step s resumes_writing = (resume_writing env s).1
  step s (loses_connection exc) = (connection_lost env exc s).1
  step s (writes pieces) = (write_appdata env pieces s).1
  step s closes = (start_shutdown env s).1
  step s pauses_reading = (pause_reading env s).1
  step s resumes_reading = (resume_reading env s).1
  step s reads = (do_read env s).1
  step s (aborts exc) = (abort env exc s).1
  step s (handshake_times_out exc) = (check_handshake_timeout env exc s).1
  step s (shutdown_times_out exc) = (check_shutdown_timeout env exc s).1
  step s (fails exc) = (fatal_error env exc s).1

  unfoldable pub run : Ssl W → List Event → Ssl W
  unfolding step
  run s [] = s
  run s (e ∷ es) = run (step s e) es

  step-Ahead : (s : Ssl W) (e : Event) → Ahead s (step s e)
  unfolding step pause_reading
  step-Ahead s (data_comes bytes) = (buffer_updated-Ahead env bytes).keeps s
  step-Ahead s end_comes = (eof_received-Ahead env).keeps s
  step-Ahead s pauses_writing = (pause_writing-Ahead env).keeps s
  step-Ahead s resumes_writing = (resume_writing-Ahead env).keeps s
  step-Ahead s (loses_connection exc) = (connection_lost-Ahead env exc).keeps s
  step-Ahead s (writes pieces) = (write_appdata-Ahead env pieces).keeps s
  step-Ahead s closes = (start_shutdown-Ahead env).keeps s
  step-Ahead s pauses_reading =
      (modify-Ahead (λ (t : Ssl W). record t { app_reading_paused = true })
          (λ t. (refl, refl, refl, refl))).keeps
        s
  step-Ahead s resumes_reading = (resume_reading-Ahead env).keeps s
  step-Ahead s reads = (do_read-Ahead env).keeps s
  step-Ahead s (aborts exc) = (abort-Ahead env exc).keeps s
  step-Ahead s (handshake_times_out exc) = (check_handshake_timeout-Ahead env exc).keeps s
  step-Ahead s (shutdown_times_out exc) = (check_shutdown_timeout-Ahead env exc).keeps s
  step-Ahead s (fails exc) = (fatal_error-Ahead env exc).keeps s

  run-Ahead : (s : Ssl W) (es : List Event) → Ahead s (run s es)
  unfolding run
  run-Ahead s [] = Ahead-refl s
  run-Ahead s (e ∷ es) =
      Ahead-trans s (step s e) (run (step s e) es) (step-Ahead s e) (run-Ahead (step s e) es)

  -- After any sequence of calls other than `connection_made`, whether they return or raise, the
  -- state of an `SSLProtocol` is the same or a later one in the order handshake, wrapped, flushing,
  -- shutdown, unwrapped, and the application's state is the same or a later one in the order
  -- initial, connected, end of input, lost.
  pub run_forward :
      (s : Ssl W) (es : List Event)
      → (rank s.state ≤ rank (run s es).state)
        × (app_rank s.app_state ≤ app_rank (run s es).app_state)
  run_forward s es = ((run-Ahead s es).state, (run-Ahead s es).app)
