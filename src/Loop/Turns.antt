-- ===== src/Loop/Turns.antt =====
-- uvloop/loop.pyx: rules for what the loop does when libuv calls it back, and for a run of the
-- loop.
use uvloop.Prelude.{
  ℕ, zero, suc, ◌≡◌, true, false, ◌&&◌, List, [], ◌∷◌, ◌++◌, none, some, ◌==◌, length,
}
use uvloop.Errors.{Exception, is_exception}
use uvloop.Python.{M, ◌>>=◌, ◌>>◌, pure, get_state, modify, whenever, catch, finally}
use uvloop.Python.Frames.{
  Frame, Keeps, Keeps-of, Keeps-map, pure-Keeps, get_state-Keeps, branch-Keeps, branch_of-Keeps,
  bind-Keeps, catch-Keeps, finally-Keeps, branch_state,
}
use uvloop.Loop.State.{Env, Loop, idle_stop, check_stop}
use uvloop.Loop.Queue.{stop_now, run_handle}
use uvloop.Loop.Code
use uvloop.Loop.Rounds.{
  Event, idles, checks, wakes, timer_fires, acts, handle_exception, guarded, popleft, run_one,
  run_ready, write_each, exec_queued_writes, finish_round, on_idle, on_wake, idle_callback,
  check_callback, async_callback, timer_callback, react, step, run,
}

module _ {W : Type 0} where
  -- The steps of `exec_queued_writes` and `finish_round`.
  abbrev pub swap : Loop W → Loop W
  swap t = record t { queued_streams = t.executing_streams; executing_streams = t.queued_streams }

  unfoldable pub stop_check : M (Loop W) (Unit {0})
  unfolding check_stop
  stop_check = do
    t ← get_state
    whenever (t.check_running && length t.queued_streams == 0) check_stop

  unfoldable pub rest_round : M (Loop W) (Unit {0})
  unfolding idle_stop
  rest_round = do
    t ← get_state
    whenever (length t.ready == 0 && t.idle_running) idle_stop
    u ← get_state
    whenever u.stopping (modify (λ v. record v { uv_stopped = true }))

-- What the steps of the end of a round keep.
pub record Writes {W : Type 0} (F : Frame (Loop W)) : Type 0 where
  pub written :
      (stream : ℕ) → Keeps F (modify (λ s. record s { written = s.written ++ stream ∷ [] }))
  pub clears_executing : Keeps F (modify (λ s. record s { executing_streams = [] }))
  pub unchecked :
      (s : Loop W)
      → (length s.queued_streams == 0) ≡ true
      → F.Rel s (whenever s.check_running check_stop s).1
  pub swaps : (s : Loop W) → (length s.queued_streams == 0) ≡ false → F.Rel s (swap s)
  pub stops_check : Keeps F stop_check
  pub rests : Keeps F rest_round

pub Writes-map :
    {W : Type 0} {F : Frame (Loop W)} (G : Frame (Loop W))
    → ((s t : Loop W) → F.Rel s t → G.Rel s t)
    → Writes F
    → Writes G
Writes-map {F = F} G f w = record {
  written = λ n. Keeps-map F G f (w.written n);
  clears_executing = Keeps-map F G f w.clears_executing;
  unchecked = λ s h. f s (whenever s.check_running check_stop s).1 (w.unchecked s h);
  swaps = λ s h. f s (swap s) (w.swaps s h);
  stops_check = Keeps-map F G f w.stops_check;
  rests = Keeps-map F G f w.rests;
}

module _ {W : Type 0} (env : Env W) (F : Frame (Loop W)) (k : Code.Code env F) (w : Writes F) where
  write_each-Keeps : (streams : List ℕ) → Keeps F (write_each env streams)
  unfolding write_each
  write_each-Keeps [] = pure-Keeps F tt
  write_each-Keeps (stream ∷ streams) = bind-Keeps F (w.written stream) (λ _.
      bind-Keeps F (Code.run_code-Keeps env F k (env.exec_write stream))
        (λ _. write_each-Keeps streams))

  writing : List ℕ → M (Loop W) (Unit {0})
  writing streams = do
    finally (write_each env streams) (modify (λ t. record t { executing_streams = [] }))
    stop_check

  writing-Keeps : (streams : List ℕ) → Keeps F (writing streams)
  unfolding writing
  writing-Keeps streams =
      bind-Keeps F (finally-Keeps F (write_each-Keeps streams) w.clears_executing)
        (λ _. w.stops_check)

  pub exec_queued_writes-Keeps : Keeps F (exec_queued_writes env)
  unfolding exec_queued_writes writing stop_check
  exec_queued_writes-Keeps = Keeps-of F (exec_queued_writes env) (λ s.
      branch_state (F.Rel s) (length s.queued_streams == 0) (whenever s.check_running check_stop)
        (do modify swap; writing (env.in_order s.queued_streams)) s (w.unchecked s)
        (λ h.
          F.both s (swap s) (writing (env.in_order s.queued_streams) (swap s)).1 (w.swaps s h)
            ((writing-Keeps (env.in_order s.queued_streams)).keeps (swap s))))

  pub finish_round-Keeps : Keeps F (finish_round env)
  unfolding finish_round rest_round
  finish_round-Keeps = bind-Keeps F (get_state-Keeps F) (λ s.
      bind-Keeps F
        (branch-Keeps F (length s.queued_streams == 0) (pure-Keeps F tt) exec_queued_writes-Keeps)
        (λ _. w.rests))

-- What handles an exception of a callback.
module _ {W : Type 0} (env : Env W) (F : Frame (Loop W)) (c : Code.Code env F)
    (ends : (e : Exception) → Keeps F (modify (λ s. record s { last_error = some e }))) where
  pub handle_exception-Keeps : (e : Exception) → Keeps F (handle_exception env e)
  unfolding handle_exception
  handle_exception-Keeps e =
      branch-Keeps F (is_exception e) (Code.call_exception_handler-Keeps env F c e)
        (bind-Keeps F (ends e) (λ _. c.stops none))

  pub guarded-Keeps : {m : M (Loop W) (Unit {0})} → Keeps F m → Keeps F (guarded env m)
  unfolding guarded
  guarded-Keeps h = catch-Keeps F h handle_exception-Keeps

-- What the callbacks of libuv keep.
pub record Turns {W : Type 0} (env : Env W) (F : Frame (Loop W)) : Type 0 where
  pub code : Code.Code env F
  pub writes : Writes F
  pub pops : Keeps F (popleft env)
  pub ends : (e : Exception) → Keeps F (modify (λ s. record s { last_error = some e }))
  pub woken : Keeps F (on_wake env)
  pub async : Keeps F (async_callback env)
  pub fires :
      (n : ℕ) (s : Loop W) → (s.timer_handles n).timer ≡ true → F.Rel s (timer_callback env n s).1

module _ {W : Type 0} (env : Env W) (F : Frame (Loop W)) (k : Turns env F) where
  turn-Keeps :
      (n : ℕ)
      → Keeps F (catch (do run_handle env n; pure true) (λ ex. do stop_now (some ex); pure false))
  turn-Keeps n =
      catch-Keeps F (bind-Keeps F (Code.run_handle-Keeps env F k.code n) (λ _. pure-Keeps F true))
        (λ ex. bind-Keeps F (k.code.stops (some ex)) (λ _. pure-Keeps F false))

  run_one-Keeps : Keeps F (run_one env)
  unfolding run_one
  run_one-Keeps = bind-Keeps F k.pops (λ n.
      bind-Keeps F (get_state-Keeps F)
        (λ s. branch-Keeps F (s.handles n).cancelled (pure-Keeps F true) (turn-Keeps n)))

  run_ready-Keeps : (ntodo : ℕ) → Keeps F (run_ready env ntodo)
  unfolding run_ready
  run_ready-Keeps zero = pure-Keeps F true
  run_ready-Keeps (suc ntodo) =
      bind-Keeps F run_one-Keeps
        (λ goes_on. branch-Keeps F goes_on (run_ready-Keeps ntodo) (pure-Keeps F false))

  pub on_idle-Keeps : Keeps F (on_idle env)
  unfolding on_idle
  on_idle-Keeps = record {
    keeps = λ s.
        (bind-Keeps F (run_ready-Keeps (length s.ready)) (λ goes_on.
            branch-Keeps F goes_on (finish_round-Keeps env F k.code k.writes)
              (pure-Keeps F tt))).keeps
          s;
  }

  react_keeps : (e : Event) → Keeps F (react env e)
  unfolding react idle_callback check_callback timer_callback
  react_keeps idles =
      branch_of-Keeps F (λ s. s.idle_running)
        (guarded-Keeps env F k.code k.ends (Code.reporting-Keeps env F k.code on_idle-Keeps))
        (pure-Keeps F tt)
  react_keeps checks =
      branch_of-Keeps F (λ s. s.check_running)
        (guarded-Keeps env F k.code k.ends
          (Code.reporting-Keeps env F k.code (exec_queued_writes-Keeps env F k.code k.writes)))
        (pure-Keeps F tt)
  react_keeps wakes = branch_of-Keeps F (λ s. s.async_sent) k.async (pure-Keeps F tt)
  react_keeps (timer_fires n) = record {
    keeps = λ s.
        branch_state (F.Rel s) (s.timer_handles n).timer (timer_callback env n) (pure tt) s
          (k.fires n s) (λ _. F.stay s);
  }
  react_keeps (acts action) = bind-Keeps F (k.code.acts action) (λ _. pure-Keeps F tt)

  pub run_keeps : (s : Loop W) (es : List Event) → F.Rel s (run env s es)
  unfolding run step
  run_keeps s [] = F.stay s
  run_keeps s (e ∷ es) =
      F.both s (step env s e) (run env (step env s e) es) ((react_keeps e).keeps s)
        (run_keeps (step env s e) es)
