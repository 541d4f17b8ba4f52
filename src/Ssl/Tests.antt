-- ===== src/Ssl/Tests.antt =====
-- uvloop/sslproto.pyx: a protocol over an `SSLObject` that takes four bytes at a time and has the
-- handshake done at once.
use uvloop.Prelude.{
  ℕ, zero, suc, ap, ◌⊎◌, inl, inr, ◌<◌, ◌≡◌, ◌≤◌, refl, true, false, List, [], ◌∷◌, ◌++◌, none,
  length, take, arith,
}
use uvloop.Python.{Outcome, ok, raise}
use uvloop.Ssl.State.{Bytes, Env, Ssl, SslState, AppState, done, again}
use uvloop.Ssl.Forward.{rank, app_rank}
use uvloop.Errors.{user, runtime_error}
use uvloop.Ssl.Closing.{do_flush}
use uvloop.Ssl.Writing.{do_write}
use uvloop.Ssl.Backlog.{Takes, Whole, Eager, do_write-Whole, do_write_drains}
use uvloop.Ssl.Lifecycle.{
  Event, data_comes, end_comes, writes, closes, loses_connection, run, run_forward,
}

-- What the `SSLObject` took, and what it was fed.
abbrev World : Type 0
World = Bytes × Bytes

abbrev fine : World → Outcome (Unit {0}) × World
fine w = (ok tt, w)

abbrev four_at_a_time : Env World
four_at_a_time = record {
  wrap_bio = fine;
  handshake = λ w. (done tt, w);
  getpeercert = fine;
  read = λ w. elim w.1 [ [] ↦ (again, w) | x ∷ more ↦ (done (x ∷ []), (w.0, more)) ];
  write = λ bytes w. (done (length (take 4 bytes)), (w.0 ++ take 4 bytes, w.1));
  unwrap = λ w. (done tt, w);
  outgoing_read = λ w. ([], w);
  outgoing_pending = λ w. 0;
  incoming_write = λ bytes w. (w.0, w.1 ++ bytes);
  incoming_pending = λ w. length w.1;
  pending = λ w. 0;
  transport_write = λ bytes. fine;
  transport_close = fine;
  transport_force_close = λ exc. fine;
  transport_pause_reading = fine;
  transport_resume_reading = fine;
  app_connection_made = fine;
  app_data_received = λ bytes. fine;
  app_eof_received = λ w. (ok false, w);
  app_pause_writing = fine;
  app_resume_writing = fine;
}

abbrev shaking_hands : Ssl World
shaking_hands = record {
  world = ([], []);
  state = SslState.do_handshake;
  app_state = AppState.init;
  conn_lost = 0;
  backlog = [];
  write_buffer_size = 0;
  transport = true;
  app_transport = false;
  app_transport_created = false;
  app_closed = false;
  app_protocol = true;
  waiter = none;
  handshake_timeout = true;
  shutdown_timeout = false;
  ssl_writing_paused = false;
  app_writing_paused = false;
  app_reading_paused = false;
  ssl_reading_paused = false;
  outgoing_high_water = 524288;
  outgoing_low_water = 131072;
  incoming_high_water = 262144;
  incoming_low_water = 65536;
  ready = [];
  reported = [];
  woken = [];
  made_calls = 0;
  eof_calls = 0;
  lost_calls = 0;
}

-- The early write waits for the end of the handshake; then the application closes.
abbrev session : List Event
session =
    writes ((1 ∷ 2 ∷ 3 ∷ 4 ∷ 5 ∷ []) ∷ [])
    ∷ data_comes (9 ∷ [])
    ∷ data_comes (8 ∷ [])
    ∷ closes
    ∷ end_comes
    ∷ loses_connection none
    ∷ []

run_forward_example :
    (rank shaking_hands.state ≤ rank (run four_at_a_time shaking_hands session).state)
    × (app_rank shaking_hands.app_state
        ≤ app_rank (run four_at_a_time shaking_hands session).app_state)
run_forward_example = run_forward four_at_a_time shaking_hands session

-- The peer has closed and `eof_received` of the application raises while the backlog is flushed:
-- the connection is aborted, and then the switch to the shutdown raises out of `_do_flush`.
abbrev rude : Env World
rude = record four_at_a_time {
  read = λ w. (done [], w);
  app_eof_received = λ w. (raise (user 1), w);
}

flush_after_failed_eof :
    (do_flush rude (record shaking_hands {
      state = SslState.flushing;
      app_state = AppState.con_made;
      app_transport = true;
    })).0
    ≡ raise runtime_error
unfolding do_flush
flush_after_failed_eof = refl

shorter : (n : ℕ) (l : Bytes) → length (take n l) ≤ length l
shorter zero l = omega arith
shorter (suc n) [] = omega arith
shorter (suc n) (x ∷ l) = omega (arith, shorter n l)

four_at_a_time-Takes :
    (bytes : Bytes) (w : World) → Takes (λ (v : World). v.0) bytes w (four_at_a_time.write bytes w)
four_at_a_time-Takes bytes w = (short bytes, ap (◌++◌ w.0) (exact bytes))
  where
    short : (l : Bytes) → length (take 4 l) ≤ length l
    short l = shorter 4 l

    exact : (l : Bytes) → take 4 l ≡ take (length (take 4 l)) l
    exact [] = refl
    exact (a ∷ []) = refl
    exact (a ∷ b ∷ []) = refl
    exact (a ∷ b ∷ c ∷ []) = refl
    exact (a ∷ b ∷ c ∷ d ∷ l) = refl

four_at_a_time-Eager : Eager four_at_a_time
four_at_a_time-Eager bytes w = (length (take 4 bytes), (refl, some_of bytes))
  where
    some_of : (l : Bytes) → (length l ≡ 0) ⊎ (0 < length (take 4 l))
    some_of [] = inl refl
    some_of (a ∷ l) = inr (omega arith)

abbrev backlogged : Ssl World
backlogged = record shaking_hands {
  state = SslState.wrapped;
  backlog = (1 ∷ 2 ∷ 3 ∷ 4 ∷ 5 ∷ []) ∷ [] ∷ (6 ∷ []) ∷ [];
  write_buffer_size = 6;
}

do_write-Whole_example :
    Whole (λ (v : World). v.0) (1 ∷ 2 ∷ 3 ∷ 4 ∷ 5 ∷ 6 ∷ []) (do_write four_at_a_time backlogged).1
do_write-Whole_example =
    do_write-Whole four_at_a_time (λ (v : World). v.0) four_at_a_time-Takes backlogged refl

do_write_drains_example :
    ((do_write four_at_a_time backlogged).0 ≡ ok tt)
    × ((do_write four_at_a_time backlogged).1.backlog ≡ [])
do_write_drains_example = do_write_drains four_at_a_time four_at_a_time-Eager backlogged
