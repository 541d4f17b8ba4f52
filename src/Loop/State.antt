-- ===== src/Loop/State.antt =====
-- uvloop/loop.pyx and uvloop/cbhandles.pyx: the state of the event loop with its callback handles,
-- and what user code may do to it.
use uvloop.Prelude.{ℕ, Bool, true, false, List, [], ◌∷◌, ◌++◌, Option, ◌==◌, ◌||◌, if◌then◌else◌, ℤ}
use uvloop.Errors.{Exception, runtime_error}
use uvloop.Python.{M, Outcome, pure, throw, modify, branch}

-- The calls of the loop's methods that callbacks make: callbacks, handles, timer handles and
-- streams are numbers. A delay is in milliseconds, rounded.
pub data Action : Type 0 where
  calls_soon calls_soon_threadsafe : ℕ → Action
  calls_later : ℤ → ℕ → Action
  cancels cancels_timer : ℕ → Action
  stops : Action
  queues_write : ℕ → Action

-- A run of user code: it ends with an outcome and a new state of its world, or calls a method and
-- goes on with what that returns (the number of a handle, where there is one) or raises.
pub data Program (W : Type 0) : Type 0 where
  done : Outcome (Unit {0}) → W → Program W
  call : Action → (Outcome ℕ → Program W) → Program W

-- What a `Handle` calls: a Python callable (`cb_type` 1), the method `Loop._stop` bound to `None`,
-- or another bound method (`cb_type` 2 to 5).
pub data Target : Type 0 where
  python : ℕ → Target
  stop_method : Target
  method : ℕ → Target

-- `_cancel` sets the callback and its arguments to `None`.
pub record Handle : Type 0 where
  pub cancelled : Bool
  pub target : Option Target

pub record TimerHandle : Type 0 where
  pub cancelled : Bool
  pub callback : Option ℕ
  -- Whether `timer` is not `None`, and the time that it fires at.
  pub timer : Bool
  pub when : ℕ

-- The code that the loop runs and the repository does not define.
pub record Env (W : Type 0) : Type 0 where
  pub callback : ℕ → W → Program W
  pub bound_method : ℕ → W → Program W
  pub exec_write : ℕ → W → Program W
  pub default_exception_handler : Exception → W → Program W
  pub exception_handler : Option (Exception → W → Program W)
  -- The order in which a Python set is iterated.
  pub in_order : List ℕ → List ℕ
  pub now : W → ℕ

pub record Loop (W : Type 0) : Type 0 where
  pub world : W
  pub closed : Bool
  pub stopping : Bool
  pub last_error : Option Exception
  pub ready : List ℕ
  pub handles : ℕ → Handle
  pub next_handle : ℕ
  pub timer_handles : ℕ → TimerHandle
  pub next_timer : ℕ
  pub timers : List ℕ
  pub queued_streams : List ℕ
  pub executing_streams : List ℕ
  -- `running` of `handler_idle` and `handler_check__exec_writes`; whether `handler_async` was sent
  -- and has not woken the loop yet; whether `uv_stop` was called.
  pub idle_running : Bool
  pub check_running : Bool
  pub async_sent : Bool
  pub uv_stopped : Bool
  -- Records of what was done: handles put into `_ready` and taken out of it, handles and timer
  -- handles whose callback was called, streams written, and calls of `call_exception_handler`.
  pub appended : List ℕ
  pub popped : List ℕ
  pub ran : List ℕ
  pub ran_timers : List ℕ
  pub written : List ℕ
  pub reported : List Exception

abbrev pub update : {A : Type 0} → (ℕ → A) → ℕ → A → ℕ → A
update f n a m = if m == n then a else f m

abbrev pub contains : ℕ → List ℕ → Bool
contains n [] = false
contains n (m ∷ l) = m == n || contains n l

-- `set.add` and `set.remove`
abbrev pub add : ℕ → List ℕ → List ℕ
add n l = if contains n l then l else l ++ n ∷ []

abbrev pub remove : ℕ → List ℕ → List ℕ
remove n [] = []
remove n (m ∷ l) = if m == n then remove n l else m ∷ remove n l

module _ {W : Type 0} where
  -- `UVIdle.start()` and `UVCheck.start()`. The handlers are closed where the loop is; libuv
  -- documents that to start or stop an idle or a check handle always succeeds.
  unfoldable pub idle_start : M (Loop W) (Unit {0})
  idle_start s =
      branch s.closed (throw runtime_error) (modify (λ t. record t { idle_running = true })) s

  unfoldable pub idle_stop : M (Loop W) (Unit {0})
  idle_stop = modify (λ s. record s { idle_running = false })

  unfoldable pub check_start : M (Loop W) (Unit {0})
  check_start s =
      branch s.closed (throw runtime_error) (modify (λ t. record t { check_running = true })) s

  unfoldable pub check_stop : M (Loop W) (Unit {0})
  check_stop = modify (λ s. record s { check_running = false })

  -- `UVAsync.send()`
  unfoldable pub async_send : M (Loop W) (Unit {0})
  async_send s =
      branch s.closed (throw runtime_error) (modify (λ t. record t { async_sent = true })) s

  unfoldable pub check_closed : M (Loop W) (Unit {0})
  check_closed s = branch s.closed (throw runtime_error) (pure tt) s
