-- ===== src/Ssl/State.antt =====
-- uvloop/sslproto.pyx: the state of `SSLProtocol`, its state machine, and what it calls.
use uvloop.Prelude.{ℕ, Bool, true, false, List, [], ◌∷◌, ◌++◌, Option, some}
use uvloop.Errors.{Exception, is_os_error, runtime_error, cancelled_error}
use uvloop.Python.{M, Outcome, ok, ◌>>=◌, ◌>>◌, pure, throw, modify, branch, whenever, get_state}

abbrev pub Bytes : Type 0
Bytes = List ℕ

pub data SslState : Type 0 where
  unwrapped do_handshake wrapped flushing shutdown : SslState

pub data AppState : Type 0 where
  init con_made eof con_lost : AppState

-- What a call of the `SSLObject` ends in: `again` is an `SSLWantReadError` or an
-- `SSLSyscallError` (`ssl_SSLAgainErrors`), `zero_return` an `SSLZeroReturnError`.
pub data SslResult (A : Type 0) : Type 0 where
  done : A → SslResult A
  again zero_return : SslResult A
  fails : Exception → SslResult A

-- What the protocol calls: the `SSLObject` and its two memory buffers, the transport below, and the
-- application's protocol above. `W` is the state of all of it.
pub record Env (W : Type 0) : Type 0 where
  pub wrap_bio : W → Outcome (Unit {0}) × W
  pub handshake : W → SslResult (Unit {0}) × W
  pub getpeercert : W → Outcome (Unit {0}) × W
  pub read : W → SslResult Bytes × W
  pub write : Bytes → W → SslResult ℕ × W
  pub unwrap : W → SslResult (Unit {0}) × W
  pub outgoing_read : W → Bytes × W
  pub outgoing_pending : W → ℕ
  pub incoming_write : Bytes → W → W
  pub incoming_pending : W → ℕ
  pub pending : W → ℕ
  pub transport_write : Bytes → W → Outcome (Unit {0}) × W
  pub transport_close : W → Outcome (Unit {0}) × W
  pub transport_force_close : Option Exception → W → Outcome (Unit {0}) × W
  pub transport_pause_reading : W → Outcome (Unit {0}) × W
  pub transport_resume_reading : W → Outcome (Unit {0}) × W
  pub app_connection_made : W → Outcome (Unit {0}) × W
  pub app_data_received : Bytes → W → Outcome (Unit {0}) × W
  pub app_eof_received : W → Outcome Bool × W
  pub app_pause_writing : W → Outcome (Unit {0}) × W
  pub app_resume_writing : W → Outcome (Unit {0}) × W

-- Callbacks that the protocol gives to the loop.
pub data Scheduled : Type 0 where
  call_do_read : Scheduled
  call_connection_lost : Option Exception → Scheduled

pub data Future : Type 0 where
  pending_future done_future cancelled_future : Future

pub record Ssl (W : Type 0) : Type 0 where
  pub world : W
  pub state : SslState
  pub app_state : AppState
  pub conn_lost : ℕ
  pub backlog : List Bytes
  pub write_buffer_size : ℕ
  -- Which of `_transport`, `_app_transport` and `_app_protocol` are not `None`, and
  -- `_app_transport._closed`.
  pub transport : Bool
  pub app_transport : Bool
  pub app_transport_created : Bool
  pub app_closed : Bool
  pub app_protocol : Bool
  pub waiter : Option Future
  -- Which of the two timeout handles are set.
  pub handshake_timeout : Bool
  pub shutdown_timeout : Bool
  pub ssl_writing_paused : Bool
  pub app_writing_paused : Bool
  pub app_reading_paused : Bool
  pub ssl_reading_paused : Bool
  pub outgoing_high_water : ℕ
  pub outgoing_low_water : ℕ
  pub incoming_high_water : ℕ
  pub incoming_low_water : ℕ
  -- The loop's queue, its exception handler, and the results given to waiters.
  pub ready : List Scheduled
  pub reported : List Exception
  pub woken : List (Option Exception)
  -- How often the application's `connection_made` and `eof_received` were called, and its
  -- `connection_lost` was scheduled.
  pub made_calls : ℕ
  pub eof_calls : ℕ
  pub lost_calls : ℕ

-- The switches of `_set_state`.
unfoldable pub allowed : SslState → SslState → Bool
allowed _ unwrapped = true
allowed unwrapped do_handshake = true
allowed do_handshake wrapped = true
allowed wrapped flushing = true
allowed wrapped shutdown = true
allowed flushing shutdown = true
allowed _ _ = false

-- `self._state in (FLUSHING, SHUTDOWN, UNWRAPPED)`
unfoldable pub is_ending : SslState → Bool
is_ending flushing = true
is_ending shutdown = true
is_ending unwrapped = true
is_ending _ = false

abbrev pub is_wrapped : SslState → Bool
is_wrapped wrapped = true
is_wrapped _ = false

abbrev pub is_handshake : SslState → Bool
is_handshake do_handshake = true
is_handshake _ = false

abbrev pub is_con_made : AppState → Bool
is_con_made con_made = true
is_con_made _ = false

module _ {W : Type 0} where
  abbrev pub call : {A : Type 0} → (W → A × W) → M (Ssl W) A
  call f s = (ok (f s.world).0, record s { world = (f s.world).1 })

  abbrev pub call_python : {A : Type 0} → (W → Outcome A × W) → M (Ssl W) A
  call_python f s = ((f s.world).0, record s { world = (f s.world).1 })

  abbrev pub report : Exception → M (Ssl W) (Unit {0})
  report e = modify (λ s. record s { reported = s.reported ++ e ∷ [] })

  abbrev pub call_soon : Scheduled → M (Ssl W) (Unit {0})
  call_soon c = modify (λ s. record s { ready = s.ready ++ c ∷ [] })

  unfoldable pub set_state : SslState → M (Ssl W) (Unit {0})
  unfolding allowed
  set_state new_state s =
      branch (allowed s.state new_state) (modify (λ t. record t { state = new_state }))
        (throw runtime_error) s

module _ {W : Type 0} (env : Env W) where
  unfoldable pub abort : Option Exception → M (Ssl W) (Unit {0})
  unfolding set_state
  abort exc = do
    set_state unwrapped
    s ← get_state
    whenever s.transport (call_python (env.transport_force_close exc))

  -- `_SSLProtocolTransport._force_close`
  unfoldable pub app_force_close : Option Exception → M (Ssl W) (Unit {0})
  unfolding abort
  app_force_close exc = do modify (λ s. record s { app_closed = true }); abort exc

  -- The end of `_fatal_error`: an `OSError` is only logged in debug mode.
  unfoldable pub report_fatal : Exception → M (Ssl W) (Unit {0})
  report_fatal cancelled_error = pure tt
  report_fatal exc = branch (is_os_error exc) (pure tt) (report exc)

  unfoldable pub fatal_error : Exception → M (Ssl W) (Unit {0})
  unfolding app_force_close report_fatal
  fatal_error exc = do
    s ← get_state
    branch s.app_transport (app_force_close (some exc))
        (whenever s.transport (call_python (env.transport_force_close (some exc))))
    report_fatal exc
