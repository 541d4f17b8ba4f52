-- ===== src/Signals/Tests.antt =====
-- uvloop/loop.pyx: the theorems on signals at concrete loops, and tests.
use uvloop.Prelude.{
  lookup, ℕ, suc, ◌≡◌, refl, true, false, List, [], ◌∷◌, none, some, ◌==◌, if◌then◌else◌, pos,
  negsuc, arith,
}
use uvloop.Errors.{uv_einval, os_error, plain_os_error}
use uvloop.Python.{ok, raise}
use uvloop.Signals.{
  int_sig, callable, SignalEnv, Signals, received, interrupted, blocked, shutdown_signals,
}
use uvloop.Signals.Handlers.{invoke_signals, add_signal_handler, read_from_self}
use uvloop.Signals.Dispatch.{Calm, Listening, Handled}
use uvloop.Signals.Arrival.{arrived, invoke_signals_lem}
use uvloop.Signals.Pipe.{SignalEvent, sets_up, pauses, shuts_down, reads, adds, NoLeak}
use uvloop.Signals.Runs.{run, run-NoLeak}
use uvloop.Signals.Shutdown.{shutdown_signals_keeps}
use uvloop.Signals.Adding.{add_signal_handler_accepted, add_signal_handler_refused}

-- Signal 15 arrives while Python is asked for signals, once.
abbrev test_env : SignalEnv ℕ
test_env = record {
  is_main_thread = true;
  nsig = 65;
  sigchld = 17;
  sigint = 2;
  signal = λ sig d w. (ok tt, w);
  siginterrupt = λ sig w. (ok tt, w);
  set_wakeup_fd = λ fd w. (ok (negsuc 0), w);
  socketpair = λ w. (ok (w, suc w), suc (suc w));
  setblocking = λ sock w. (ok tt, w);
  fileno = λ sock. sock;
  recv = λ sock w. (received (1 ∷ 0 ∷ []) ∷ interrupted ∷ received (3 ∷ []) ∷ blocked ∷ [], w);
  process_signals = λ w. ((15 ∷ [], ok tt), w);
  add_reader = λ sock w. (ok tt, w);
  remove_reader = λ sock w. (ok tt, w);
  in_order = λ l. l;
}

-- Python refuses every handler.
abbrev refusing : SignalEnv ℕ
refusing = record test_env { signal = λ sig d w. (raise (os_error plain_os_error uv_einval), w) }

abbrev new_signals : Signals ℕ
new_signals = record {
  world = 5;
  closed = false;
  listening = false;
  self_pipe = none;
  signals = [];
  signal_handlers = [];
  old_wakeup_id = negsuc 0;
  cancelled = λ n. false;
  next_handle = 0;
  ready = [];
  async_sent = false;
  made_pairs = [];
  closed_pairs = [];
}

abbrev events : List SignalEvent
events =
    adds (int_sig (pos 1)) callable
    ∷ sets_up
    ∷ adds (int_sig (pos 15)) callable
    ∷ reads 5
    ∷ pauses
    ∷ shuts_down
    ∷ []

-- Handles 7, 8 and 9 are for the signals 1, 3 and 15; handle 8 is cancelled.
abbrev listening : Signals ℕ
listening = record new_signals {
  listening = true;
  self_pipe = some (5, 6);
  signal_handlers = (1, 7) ∷ (3, 8) ∷ (15, 9) ∷ [];
  cancelled = λ n. n == 8;
  made_pairs = (5, 6) ∷ [];
}

abbrev paused : Signals ℕ
paused = record new_signals { signal_handlers = (1, 7) ∷ (15, 9) ∷ [] }

ready_test : (read_from_self test_env 5 listening).1.ready ≡ 7 ∷ 9 ∷ []
unfolding read_from_self
ready_test = refl

handlers_test : (read_from_self test_env 5 listening).1.signal_handlers ≡ (1, 7) ∷ (15, 9) ∷ []
unfolding read_from_self
handlers_test = refl

run_test : (run test_env new_signals events).closed_pairs ≡ (5, 6) ∷ []
unfolding run
run_test = refl

run-NoLeak_example : NoLeak (run test_env new_signals events)
run-NoLeak_example =
    run-NoLeak test_env new_signals events (record { pairs = refl; piped = λ h. absurd (cc h) })

test_env-Calm : Calm test_env
test_env-Calm = record { main = refl; calm = λ w. refl; accepts = λ sig d w. refl }

listening-Listening : Listening test_env listening
listening-Listening = record { closed = refl; listening = refl; valid = λ sig h. ground (arith, h) }

invoke_signals_example :
    Handled test_env
      (arrived test_env (1 ∷ 0 ∷ 3 ∷ []) listening)
      listening
      (invoke_signals test_env (1 ∷ 0 ∷ 3 ∷ []) listening)
invoke_signals_example =
    invoke_signals_lem test_env test_env-Calm (1 ∷ 0 ∷ 3 ∷ []) listening listening-Listening

shutdown_signals_keeps_example : shutdown_signals test_env paused ≡ (ok tt, paused)
shutdown_signals_keeps_example =
    shutdown_signals_keeps test_env paused refl refl refl (refl, (refl, tt))

add_signal_handler_accepted_example :
    ((add_signal_handler test_env (int_sig (pos 3)) callable paused).0 ≡ ok tt)
    × ((m : ℕ)
        → lookup m (add_signal_handler test_env (int_sig (pos 3)) callable paused).1.signal_handlers
          ≡ (if 3 == m then some 0 else lookup m paused.signal_handlers))
add_signal_handler_accepted_example =
    add_signal_handler_accepted test_env 3 paused
      (record { main = refl; unclosed = refl; in_range = refl; other = refl }) (λ w. refl)
      (λ w. refl)

add_signal_handler_refused_example :
    lookup 15 (add_signal_handler refusing (int_sig (pos 15)) callable paused).1.signal_handlers
    ≡ (if 15 == 15 then none else lookup 15 paused.signal_handlers)
add_signal_handler_refused_example =
    add_signal_handler_refused refusing 15 paused (os_error plain_os_error uv_einval)
      (record { main = refl; unclosed = refl; in_range = refl; other = refl }) refl refl 15
