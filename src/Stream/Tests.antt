-- ===== src/Stream/Tests.antt =====
-- uvloop/handles/stream.pyx: runs of a stream over a system that takes two bytes at a time.
use uvloop.Prelude.{
  ◌≡◌, refl, inl, true, false, List, [], ◌∷◌, ◌++◌, none, length, take, concat, arith,
}
use uvloop.Errors.{uv_eagain, runtime_error}
use uvloop.Python.{Outcome, ok, raise}
use uvloop.Stream.State.{Bytes, Env, wrote, failed, Stream}
use uvloop.Stream.Write.{exec_write, write_eof, writelines, write}
use uvloop.Stream.WriteContext.{advance_uv_buf}
use uvloop.Stream.WriteContext.Advance.{advance_uv_buf-drop, advance_uv_buf_past}
use uvloop.Stream.Laws.{Faithful, Writes}
use uvloop.Stream.Delivery.{Fate}
use uvloop.Stream.Accept.{taken, write-Fate, writelines-Fate}
use uvloop.Stream.Runs.{
  Unwrapped, Event, writes, writes_lines, writes_eof, loop_writes, run, all_accepted, run-Fate,
  run_live,
}

-- The world is what was sent.
abbrev quiet_call : Bytes → Outcome (Unit {0}) × Bytes
quiet_call w = (ok tt, w)

abbrev two_at_a_time : Env Bytes
two_at_a_time = record {
  queue_size = λ w. 0;
  fileno = λ w. none;
  write = λ bytes w. (wrote (length (take 2 bytes)), w ++ take 2 bytes);
  uv_try_write = λ bufs w. (failed uv_eagain, w);
  uv_write = λ bufs w. (none, w ++ concat bufs);
  uv_shutdown = λ w. (none, w);
  uv_read_start = λ w. (none, w);
  uv_read_stop = λ w. (none, w);
  uv_close = λ w. w;
  apple = false;
  is_eprototype = λ e. false;
  is_ewouldblock = λ e. false;
  max_interrupts = 3;
  pause_writing = quiet_call;
  resume_writing = quiet_call;
  connection_made = quiet_call;
  connection_lost = λ exc. quiet_call;
  data_received = λ bytes. quiet_call;
  eof_received = λ w. (ok false, w);
  has_eof_received = true;
  server_detach = quiet_call;
  release_fileobj = quiet_call;
}

two_at_a_time-Writes :
    (bytes : Bytes) (w : Bytes)
    → Writes (λ (v : Bytes). v) bytes w (wrote (length (take 2 bytes)), w ++ take 2 bytes)
two_at_a_time-Writes [] w = (omega arith, refl)
two_at_a_time-Writes (x ∷ []) w = (omega arith, refl)
two_at_a_time-Writes (x ∷ y ∷ bytes) w = (omega arith, refl)

two_at_a_time-Faithful : Faithful two_at_a_time (λ (v : Bytes). v)
two_at_a_time-Faithful = record {
  write_writes = two_at_a_time-Writes;
  try_write_writes = λ bufs w. refl;
  write_takes = λ bufs w. refl;
  shutdown_sends = λ w. refl;
  read_start_sends = λ w. refl;
  read_stop_sends = λ w. refl;
  close_sends = λ w. refl;
  pause_sends = λ w. refl;
  resume_sends = λ w. refl;
  release_sends = λ w. refl;
}

-- A connected stream.
abbrev open_stream : Stream Bytes
open_stream = record {
  world = [];
  closed = false;
  inited = true;
  has_handle = true;
  fileobj = false;
  high_water = 65536;
  low_water = 16;
  protocol = true;
  protocol_connected = true;
  protocol_paused = false;
  server = false;
  waiter = none;
  conn_lost = 0;
  wrapped = false;
  closing = false;
  shutting_down = false;
  reading = true;
  read_error_close = false;
  eof = false;
  buffer = [];
  buffer_size = 0;
  ready = [];
  queued = false;
  reported = [];
  woken = [];
}

open_stream-Fate : Fate (λ (v : Bytes). v) [] open_stream
open_stream-Fate = record { rest = []; split = refl; kept = inl refl; sized = refl; started = refl }

abbrev three_writes : List Event
three_writes =
    writes (1 ∷ 2 ∷ 3 ∷ [])
    ∷ writes_lines ((4 ∷ []) ∷ (5 ∷ 6 ∷ []) ∷ [])
    ∷ writes_eof
    ∷ loop_writes
    ∷ []

three_writes_sent : (run two_at_a_time open_stream three_writes).world ≡ 1 ∷ 2 ∷ 3 ∷ 4 ∷ 5 ∷ 6 ∷ []
unfolding run exec_write write_eof writelines write
three_writes_sent = refl

three_writes-Unwrapped : Unwrapped two_at_a_time open_stream three_writes
unfolding Unwrapped exec_write write_eof writelines write
three_writes-Unwrapped = (refl, (refl, (refl, (refl, tt))))

run-Fate_example :
    Fate
      (λ (v : Bytes). v)
      (all_accepted two_at_a_time open_stream three_writes)
      (run two_at_a_time open_stream three_writes)
run-Fate_example =
    run-Fate two_at_a_time (λ (v : Bytes). v) two_at_a_time-Faithful [] open_stream three_writes
      open_stream-Fate three_writes-Unwrapped

write-Fate_example :
    Fate
      (λ (v : Bytes). v)
      (taken (7 ∷ 8 ∷ 9 ∷ []) open_stream)
      (write two_at_a_time (7 ∷ 8 ∷ 9 ∷ []) open_stream).1
write-Fate_example =
    write-Fate two_at_a_time (λ (v : Bytes). v) two_at_a_time-Faithful [] open_stream
      open_stream-Fate refl (7 ∷ 8 ∷ 9 ∷ [])

advance_uv_buf-drop_example :
    (rest : List Bytes) × (advance_uv_buf 3 ((1 ∷ 2 ∷ []) ∷ (3 ∷ 4 ∷ []) ∷ []) ≡ ok rest)
    × (concat rest ≡ 4 ∷ [])
advance_uv_buf-drop_example = advance_uv_buf-drop 3 ((1 ∷ 2 ∷ []) ∷ (3 ∷ 4 ∷ []) ∷ []) (omega arith)

advance_uv_buf_past_example : advance_uv_buf 2 ((1 ∷ 2 ∷ []) ∷ []) ≡ raise runtime_error
advance_uv_buf_past_example = advance_uv_buf_past 2 ((1 ∷ 2 ∷ []) ∷ []) (omega arith)

run_live_example :
    (run two_at_a_time open_stream three_writes).world
      ++ concat (run two_at_a_time open_stream three_writes).buffer
    ≡ all_accepted two_at_a_time open_stream three_writes
unfolding run exec_write write_eof writelines write
run_live_example =
    run_live two_at_a_time (λ (v : Bytes). v) two_at_a_time-Faithful open_stream three_writes refl
      refl refl refl three_writes-Unwrapped refl

writelines-Fate_example :
    Fate
      (λ (v : Bytes). v)
      (taken (7 ∷ 8 ∷ 9 ∷ []) open_stream)
      (writelines two_at_a_time ((7 ∷ []) ∷ (8 ∷ 9 ∷ []) ∷ []) open_stream).1
writelines-Fate_example =
    writelines-Fate two_at_a_time (λ (v : Bytes). v) two_at_a_time-Faithful [] open_stream
      open_stream-Fate refl ((7 ∷ []) ∷ (8 ∷ 9 ∷ []) ∷ [])
