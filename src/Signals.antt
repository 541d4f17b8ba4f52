-- ===== src/Signals.antt =====
-- uvloop/loop.pyx: Unix signals: the self-pipe, the handlers, and how a signal reaches its
-- callback.
pub mod Handlers
pub mod Pipe
pub mod Dispatch
pub mod Arrival
pub mod Runs
pub mod Shutdown
pub mod Adding
mod Tests
use uvloop.Prelude.{
  lookup, delete, ℕ, zero, suc, ◌≡◌, Bool, true, false, not, ◌&&◌, ◌||◌, List, [], ◌∷◌, ◌++◌,
  Option, none, some, ◌==◌, ltb, length, is_some, if◌then◌else◌, ℤ, pos, negsuc,
}
use uvloop.Errors.{
  Exception, OsClass, UvError, os_error, uv_einval, runtime_error, value_error, type_error,
  key_error, is_exception, is_os_error,
}
use uvloop.Python.{
  M, Outcome, ok, raise, ◌>>=◌, ◌>>◌, pure, throw, get_state, modify, branch, whenever, catch,
}

-- The argument `sig`.
pub data Sig : Type 0 where
  int_sig : ℤ → Sig
  not_int : Sig

-- The argument `callback`: a coroutine (function), a method of asyncio's child watcher, or another
-- callable.
pub data Callback : Type 0 where
  coroutine child_watcher callable : Callback

-- The handlers that are given to `signal.signal`.
pub data Disposition : Type 0 where
  sighandler default_int_handler default_action : Disposition

-- What a call of `recv` on the non-blocking self-pipe returns or raises.
pub data Received : Type 0 where
  received : List ℕ → Received
  interrupted blocked : Received
  fails : Exception → Received

-- Python's signal module, sockets and sets, and the methods of the loop for readers.
pub record SignalEnv (W : Type 0) : Type 0 where
  pub is_main_thread : Bool
  pub nsig : ℕ
  pub sigchld : ℕ
  pub sigint : ℕ
  pub signal : ℕ → Disposition → W → Outcome (Unit {0}) × W
  pub siginterrupt : ℕ → W → Outcome (Unit {0}) × W
  pub set_wakeup_fd : ℤ → W → Outcome ℤ × W
  pub socketpair : W → Outcome (ℕ × ℕ) × W
  pub setblocking : ℕ → W → Outcome (Unit {0}) × W
  pub fileno : ℕ → ℕ
  -- What successive calls of `recv` do; after them the pipe is empty, and `recv` would block.
  pub recv : ℕ → W → List Received × W
  -- `_ceval_process_signals`: the signals that `__sighandler` is called with, and how it ends.
  pub process_signals : W → (List ℕ × Outcome (Unit {0})) × W
  pub add_reader : ℕ → W → Outcome (Unit {0}) × W
  pub remove_reader : ℕ → W → Outcome (Unit {0}) × W
  pub in_order : List ℕ → List ℕ

pub record Signals (W : Type 0) : Type 0 where
  pub world : W
  pub closed : Bool
  pub listening : Bool
  -- `_ssock` and `_csock`, which are set and cleared together.
  pub self_pipe : Option (ℕ × ℕ)
  pub signals : List ℕ
  pub signal_handlers : List (ℕ × ℕ)
  pub old_wakeup_id : ℤ
  pub cancelled : ℕ → Bool
  pub next_handle : ℕ
  pub ready : List ℕ
  pub async_sent : Bool
  -- Records of the pairs of sockets that were made and closed.
  pub made_pairs : List (ℕ × ℕ)
  pub closed_pairs : List (ℕ × ℕ)

abbrev pub member : ℕ → List ℕ → Bool
member n [] = false
member n (m ∷ l) = m == n || member n l

abbrev pub discard : ℕ → List ℕ → List ℕ
discard n [] = []
discard n (m ∷ l) = let rest = discard n l in if m == n then rest else m ∷ rest

-- `set.add`, one after another
abbrev pub add_all : List ℕ → List ℕ → List ℕ
add_all [] l = l
add_all (n ∷ ns) l = add_all ns (if member n l then l else l ++ n ∷ [])

-- `exc.errno == errno_EINVAL`
abbrev pub is_einval : Exception → Bool
is_einval (os_error c uv_einval) = true
is_einval _ = false

abbrev pub open_pairs : Option (ℕ × ℕ) → List (ℕ × ℕ)
open_pairs none = []
open_pairs (some p) = p ∷ []

module _ {W : Type 0} where
  abbrev pub call : {A : Type 0} → (W → Outcome A × W) → M (Signals W) A
  call f s = let r = f s.world in (r.0, record s { world = r.1 })

  -- `_ssock.close()`, `_csock.close()` and both set to `None`.
  unfoldable pub close_pipe : M (Signals W) (Unit {0})
  close_pipe =
      modify (λ s. record s {
        self_pipe = none;
        closed_pairs = s.closed_pairs ++ open_pairs s.self_pipe;
      })

module _ {W : Type 0} (env : SignalEnv W) where
  unfoldable pub check_signal : Sig → M (Signals W) ℕ
  check_signal not_int = throw type_error
  check_signal (int_sig (negsuc n)) = throw value_error
  check_signal (int_sig (pos n)) = branch (ltb 0 n && ltb n env.nsig) (pure n) (throw value_error)

  -- The statements of the `try` block of `_setup_or_resume_signals`.
  unfoldable pub open_pipe : ℕ × ℕ → M (Signals W) (Unit {0})
  open_pipe (ssock, csock) = do
    call (env.setblocking ssock)
    call (env.setblocking csock)
    old ← call (env.set_wakeup_fd (pos (env.fileno csock)))
    modify (λ s. record s { old_wakeup_id = old })

  unfoldable pub listen_on : ℕ × ℕ → M (Signals W) (Unit {0})
  unfolding close_pipe open_pipe
  listen_on pipe = do
    modify (λ t. record t { self_pipe = some pipe; made_pairs = t.made_pairs ++ pipe ∷ [] })
    catch (open_pipe pipe) (λ e. branch (is_exception e) (do close_pipe; throw e) (throw e))
    call (env.add_reader pipe.0)
    modify (λ t. record t { listening = true })

  unfoldable pub setup_or_resume_signals : M (Signals W) (Unit {0})
  unfolding listen_on
  setup_or_resume_signals s =
      branch env.is_main_thread
        (branch s.listening (throw runtime_error) (
          branch (is_some s.self_pipe) (throw runtime_error)
            (do pipe ← call env.socketpair; listen_on pipe)))
        (pure tt) s

  -- `_remove_reader(None)` raises `ValueError`.
  unfoldable pub remove_pipe_reader : M (Signals W) (Unit {0})
  remove_pipe_reader s = elim s.self_pipe [
    | none ↦ throw value_error s
    | some p ↦ call (env.remove_reader p.0) s
  ]

  unfoldable pub pause_signals : M (Signals W) (Unit {0})
  unfolding remove_pipe_reader close_pipe
  pause_signals s =
      branch env.is_main_thread
        (branch s.listening
          (do
            modify (λ t. record t { listening = false })
            _ ← call (env.set_wakeup_fd s.old_wakeup_id)
            remove_pipe_reader
            close_pipe)
          (throw runtime_error))
        (branch s.listening (throw runtime_error) (pure tt)) s

  -- The call of `signal.signal` in `remove_signal_handler`.
  unfoldable pub restore_default : ℕ → M (Signals W) Bool
  restore_default sig = do
    catch
        (call (env.signal sig (if sig == env.sigint then default_int_handler else default_action)))
        (λ e. branch (is_os_error e && is_einval e) (throw runtime_error) (throw e))
    pure true

  unfoldable pub remove_signal_handler : Sig → M (Signals W) Bool
  unfolding check_signal restore_default
  remove_signal_handler arg =
      branch env.is_main_thread
        (do
          sig ← check_signal arg
          s ← get_state
          branch (s.listening && is_some (lookup sig s.signal_handlers))
              (do
                modify (λ t. record t { signal_handlers = delete sig t.signal_handlers })
                restore_default sig)
              (pure false))
        (throw value_error)

  unfoldable pub remove_each : List (ℕ × ℕ) → M (Signals W) (Unit {0})
  unfolding remove_signal_handler
  remove_each [] = pure tt
  remove_each ((sig, h) ∷ d) = do _ ← remove_signal_handler (int_sig (pos sig)); remove_each d

  unfoldable pub shutdown_signals : M (Signals W) (Unit {0})
  unfolding remove_each
  shutdown_signals s =
      branch env.is_main_thread
        (branch s.listening (throw runtime_error)
          (branch (is_some s.self_pipe) (throw runtime_error) (remove_each s.signal_handlers)))
        (pure tt) s
