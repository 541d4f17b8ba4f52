-- ===== src/Polls/Tests.antt =====
-- uvloop/loop.pyx and uvloop/handles/poll.pyx: the theorems at concrete loops, and tests.
use uvloop.Prelude.{
  ℕ, suc, ◌≡◌, refl, ap, true, false, List, [], ◌∷◌, none, some, ◌==◌, if◌then◌else◌, pos, negsuc,
  arith,
}
use uvloop.Errors.{convert_error, overflow_error, uv_einval, value_error}
use uvloop.Python.{ok, raise}
use uvloop.Polls.{
  fd_int, file, number, adds_reader, adds_writer, removes_reader, PollProgram, done, call, Poll,
  PollEnv, Polls, has_reader, has_writer,
}
use uvloop.Polls.Watched.{Matches}
use uvloop.Polls.Runs.{PollEvent, acts, fires, run, run-Matches}
use uvloop.Polls.Methods.{act, on_uvpoll_event, run_handle, handle_exception}
use uvloop.Polls.Finding.{Accepting, trouble}
use uvloop.Polls.Watching.{Request, does, asks_reader, asks_writer, Watching, answers, ask_all}
use uvloop.Polls.Registry.{Shows}
use uvloop.Polls.Requests.{answers_lem}

-- Handle 1 removes the reader of descriptor 3 and raises; object `o` has descriptor `o + 3`.
abbrev code : ℕ → ℕ → PollProgram ℕ
code h w =
    if h == 1
    then call (removes_reader (fd_int (pos 3))) (λ r. done (raise value_error) (suc w))
    else done (ok tt) w

abbrev test_env : PollEnv ℕ
test_env = record {
  in_use = λ fd w. false;
  fileno = λ o w. (number (pos (suc (suc (suc o)))), w);
  is_socket = λ o. true;
  uv_poll_init = λ fd w. (none, w);
  uv_poll_start = λ fd r x w. (none, w);
  handle_code = code;
  exception_code = λ e w. done (ok tt) w;
}

-- Descriptor 9 is refused.
abbrev refusing_nine : PollEnv ℕ
refusing_nine = record test_env {
  uv_poll_init = λ fd w. (if fd == 9 then some uv_einval else none, w);
}

-- Descriptor 6 cannot be watched.
abbrev refusing : PollEnv ℕ
refusing = record test_env {
  uv_poll_start = λ fd r x w. (if fd == 6 then some uv_einval else none, w);
}

abbrev new_loop : Polls ℕ
new_loop = record {
  world = 0;
  closed = false;
  cancelled = λ h. false;
  objects = λ i. record {
    alive = false;
    fd = 0;
    reading_handle = none;
    writing_handle = none;
    readable = false;
    writable = false;
  };
  next_object = 0;
  polls = [];
  reader_fileobj = [];
  writer_fileobj = [];
  io_refs = λ o. 0;
  ran = [];
}

abbrev events : List PollEvent
events =
    acts (adds_reader (fd_int (pos 3)) 1)
    ∷ acts (adds_writer (file 0) 2)
    ∷ acts (adds_reader (file 3) 4)
    ∷ fires 0 none true true
    ∷ []

test_ran : (run refusing 9 new_loop events).ran ≡ 1 ∷ 2 ∷ []
unfolding run act on_uvpoll_event run_handle
test_ran = refl

abbrev watched : Poll
watched = record {
  alive = true;
  fd = 3;
  reading_handle = none;
  writing_handle = some 2;
  readable = false;
  writable = true;
}

-- The reader that the code of handle 1 removed is no longer watched.
test_watched : ((run refusing 9 new_loop events).objects 0) ≡ watched
unfolding run act on_uvpoll_event run_handle
test_watched = refl

-- A `UVPoll` that libuv refuses is closed, though it is in the table.
test_refused : ((run refusing 9 new_loop events).objects 1).alive ≡ false
unfolding run act on_uvpoll_event run_handle
test_refused = refl

run-Matches_example : Matches ((run refusing 9 new_loop events).objects 0)
run-Matches_example =
    run-Matches refusing 9 new_loop events (λ j a. ground (arith, a)) 0
      (ap (λ p. p.alive) test_watched)

abbrev requests : List Request
requests =
    does (adds_reader (fd_int (pos 3)) 1)
    ∷ does (adds_reader (file 0) 2)
    ∷ does (adds_writer (fd_int (pos 3)) 4)
    ∷ asks_reader (fd_int (pos 3))
    ∷ does (removes_reader (file 0))
    ∷ does (removes_reader (file 0))
    ∷ asks_writer (file 0)
    ∷ does (adds_reader (fd_int (negsuc 0)) 5)
    ∷ does (adds_reader (fd_int (pos 2147483648)) 6)
    ∷ does (adds_writer (fd_int (pos 9)) 7)
    ∷ does (adds_reader (fd_int (pos 8)) 8)
    ∷ []

refusing_nine-Accepting : Accepting refusing_nine
refusing_nine-Accepting = record {
  descriptor = λ o. pos (suc (suc (suc o)));
  unused = λ fd w. refl;
  files = λ o w. refl;
  refused = λ fd. if fd == 9 then some uv_einval else none;
  inits = λ fd w. refl;
  starts = λ fd r w v. refl;
}

abbrev empty : Watching
empty = record {
  readers = λ m. none;
  writers = λ m. none;
  cancelled = λ h. false;
  refuses = λ m. trouble refusing_nine refusing_nine-Accepting m;
}

new_loop-Shows : Shows new_loop empty
new_loop-Shows = record {
  tidy = record {
    alive = λ fd i e. ground (arith, e);
    fd_lem = λ fd i e. ground (arith, e);
    made = λ fd i e. ground (arith, e);
  };
  opened = refl;
  reader = λ m. refl;
  writer = λ m. refl;
  cancelled = λ h. refl;
  clear = λ m e n. refl;
}

requests_answers :
    (ask_all refusing_nine
      (run_handle refusing_nine 9)
      (handle_exception refusing_nine 9)
      requests
      new_loop).0
    ≡ ok true
      ∷ ok true
      ∷ ok true
      ∷ ok true
      ∷ ok true
      ∷ ok false
      ∷ ok true
      ∷ raise value_error
      ∷ raise overflow_error
      ∷ raise (convert_error uv_einval)
      ∷ ok true
      ∷ []
unfolding ask_all has_reader has_writer convert_error
requests_answers = refl

answers_example :
    ((ask_all refusing_nine
        (run_handle refusing_nine 9)
        (handle_exception refusing_nine 9)
        requests
        new_loop).0
      ≡ (answers refusing_nine-Accepting.descriptor requests empty).0)
    × Shows
        (ask_all refusing_nine
          (run_handle refusing_nine 9)
          (handle_exception refusing_nine 9)
          requests
          new_loop).1
        (answers refusing_nine-Accepting.descriptor requests empty).1
answers_example =
    answers_lem refusing_nine (run_handle refusing_nine 9) (handle_exception refusing_nine 9)
      refusing_nine-Accepting requests new_loop empty new_loop-Shows (λ m. refl)
