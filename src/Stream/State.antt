-- ===== src/Stream/State.antt =====
-- The state of a `UVStream` (with what it inherits from `UVHandle`, `UVSocketHandle` and
-- `UVBaseTransport`), and the calls that it makes to libuv, to the operating system, to the
-- protocol and to the server.
use uvloop.Prelude.{ℕ, suc, ◌%◌, ◌==◌, ◌||◌, Bool, not, ◌&&◌, List, [], ◌∷◌, ◌++◌, Option}
use uvloop.Errors.{Exception, UvError, runtime_error}
use uvloop.Python.{M, Outcome, ok, modify, branch, pure, throw}

abbrev pub Bytes : Type 0
Bytes = List ℕ

-- What `write(2)` and `uv_try_write` return: a count, or an error code.
pub data Written : Type 0 where
  wrote : ℕ → Written
  failed : UvError → Written

-- What the stream calls and the repository does not define. `W` is the state of all of it. A code
-- of `none` is a return value that is not negative. The callbacks are the protocol's methods.
pub record Env (W : Type 0) : Type 0 where
  -- `write_queue_size` of the `uv_stream_t`.
  pub queue_size : W → ℕ
  pub fileno : W → Option UvError
  pub write : Bytes → W → Written × W
  pub uv_try_write : List Bytes → W → Written × W
  pub uv_write : List Bytes → W → Option UvError × W
  pub uv_shutdown : W → Option UvError × W
  pub uv_read_start : W → Option UvError × W
  pub uv_read_stop : W → Option UvError × W
  pub uv_close : W → W
  pub apple : Bool
  pub is_eprototype : UvError → Bool
  pub is_ewouldblock : UvError → Bool
  -- How often a `write(2)` may be interrupted in a row.
  pub max_interrupts : ℕ
  pub pause_writing : W → Outcome (Unit {0}) × W
  pub resume_writing : W → Outcome (Unit {0}) × W
  pub connection_made : W → Outcome (Unit {0}) × W
  pub connection_lost : Option Exception → W → Outcome (Unit {0}) × W
  pub data_received : Bytes → W → Outcome (Unit {0}) × W
  pub eof_received : W → Outcome Bool × W
  pub has_eof_received : Bool
  pub server_detach : W → Outcome (Unit {0}) × W
  pub release_fileobj : W → Outcome (Unit {0}) × W

-- Callbacks in `loop._ready` that the stream puts there.
pub data Scheduled : Type 0 where
  call_connection_made : Scheduled
  call_connection_lost : Option Exception → Scheduled

-- An `asyncio.Future`, as far as the stream looks at it.
pub data Future : Type 0 where
  pending done cancelled : Future

pub record Stream (W : Type 0) : Type 0 where
  pub world : W
  -- UVHandle: `has_handle` says that `_handle` is not NULL.
  pub closed : Bool
  pub inited : Bool
  pub has_handle : Bool
  -- UVSocketHandle
  pub fileobj : Bool
  -- UVBaseTransport
  pub high_water : ℕ
  pub low_water : ℕ
  pub protocol : Bool
  pub protocol_connected : Bool
  pub protocol_paused : Bool
  pub server : Bool
  pub waiter : Option Future
  -- A `uint32_t`; `wrapped` records whether it ever wrapped round to 0.
  pub conn_lost : ℕ
  pub wrapped : Bool
  pub closing : Bool
  -- UVStream
  pub shutting_down : Bool
  pub reading : Bool
  pub read_error_close : Bool
  pub eof : Bool
  pub buffer : List Bytes
  pub buffer_size : ℕ
  -- The loop: `_ready`, membership in `_queued_streams`, the contexts given to the exception
  -- handler; and the results given to waiters.
  pub ready : List Scheduled
  pub queued : Bool
  pub reported : List Exception
  pub woken : List (Option Exception)

module _ {W : Type 0} where
  -- `self._conn_lost += 1`
  abbrev pub count_loss : M (Stream W) (Unit {0})
  count_loss = modify (λ s. record s {
    conn_lost = suc s.conn_lost % 4294967296;
    wrapped = s.wrapped || suc s.conn_lost % 4294967296 == 0;
  })

  abbrev pub call : {A : Type 0} → (W → A × W) → M (Stream W) A
  call f s = (ok (f s.world).0, record s { world = (f s.world).1 })

  abbrev pub call_python : {A : Type 0} → (W → Outcome A × W) → M (Stream W) A
  call_python f s = ((f s.world).0, record s { world = (f s.world).1 })

  -- `loop.call_exception_handler(...)`
  abbrev pub report : Exception → M (Stream W) (Unit {0})
  report e = modify (λ s. record s { reported = s.reported ++ e ∷ [] })

  -- `loop._call_soon_handle(...)`
  abbrev pub call_soon : Scheduled → M (Stream W) (Unit {0})
  call_soon c = modify (λ s. record s { ready = s.ready ++ c ∷ [] })

  unfoldable pub is_alive : Stream W → Bool
  is_alive s = not s.closed && s.inited

  unfoldable pub ensure_alive : M (Stream W) (Unit {0})
  unfolding is_alive
  ensure_alive s = branch (is_alive s) (pure tt) (throw runtime_error) s
