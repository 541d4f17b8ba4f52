-- ===== src/Polls.antt =====
-- uvloop/handles/poll.pyx, and the readers and writers of uvloop/loop.pyx.
pub mod Methods
pub mod Watched
pub mod Starting
pub mod Kept
pub mod Switching
pub mod Acting
pub mod Runs
pub mod Table
pub mod Finding
pub mod Starts
pub mod Stops
pub mod Dropping
pub mod Watching
pub mod Registry
pub mod Asking
pub mod Adding
pub mod Removing
pub mod Requests
mod Tests
use uvloop.Prelude.{
  ℕ, zero, suc, ◌+◌, ◌-◌, Bool, true, false, not, ◌&&◌, ◌||◌, List, [], ◌∷◌, ◌++◌, Option, none,
  some, ◌==◌, ltb, is_some, if◌then◌else◌, ℤ, pos, negsuc, lookup, store, delete,
}
use uvloop.FlowControl.{int_limit}
use uvloop.Errors.{
  overflow_error, Exception, UvError, convert_error, runtime_error, value_error, key_error,
}
use uvloop.Python.{
  M, Outcome, ok, raise, ◌>>=◌, ◌>>◌, pure, throw, get_state, modify, branch, whenever, catch,
  finally,
}

-- A file descriptor, or an object with a method `fileno`; objects are numbers.
pub data FileObj : Type 0 where
  fd_int : ℤ → FileObj
  file : ℕ → FileObj

-- What `int(fileobj.fileno())` does; `not_a_file` stands for the exceptions that become
-- `ValueError`.
pub data Fileno : Type 0 where
  number : ℤ → Fileno
  not_a_file : Fileno
  fails : Exception → Fileno

-- The calls of the loop's methods that callbacks make; a handle is made for the callback.
pub data PollAction : Type 0 where
  adds_reader adds_writer : FileObj → ℕ → PollAction
  removes_reader removes_writer : FileObj → PollAction

-- A run of user code: it ends with an outcome and a new state of its world, or calls a method and
-- goes on with what that returns or raises.
pub data PollProgram (W : Type 0) : Type 0 where
  done : Outcome (Unit {0}) → W → PollProgram W
  call : PollAction → (Outcome Bool → PollProgram W) → PollProgram W

-- A `UVPoll`. `readable` and `writable` are the mask of the last `uv_poll_start`; libuv watches for
-- nothing after `uv_poll_stop` and `uv_close`.
pub record Poll : Type 0 where
  pub alive : Bool
  pub fd : ℕ
  pub reading_handle : Option ℕ
  pub writing_handle : Option ℕ
  pub readable : Bool
  pub writable : Bool

-- libuv, Python's sockets, the transports of the loop, and the code that a run of a handle and
-- `_handle_exception` come to.
pub record PollEnv (W : Type 0) : Type 0 where
  pub in_use : ℕ → W → Bool
  pub fileno : ℕ → W → Fileno × W
  pub is_socket : ℕ → Bool
  pub uv_poll_init : ℕ → W → Option UvError × W
  pub uv_poll_start : ℕ → Bool → Bool → W → Option UvError × W
  pub handle_code : ℕ → W → PollProgram W
  pub exception_code : Exception → W → PollProgram W

pub record Polls (W : Type 0) : Type 0 where
  pub world : W
  pub closed : Bool
  pub cancelled : ℕ → Bool
  -- The `UVPoll`s that were made, and `_polls`, `_fd_to_reader_fileobj` and
  -- `_fd_to_writer_fileobj`.
  pub objects : ℕ → Poll
  pub next_object : ℕ
  pub polls : List (ℕ × ℕ)
  pub reader_fileobj : List (ℕ × FileObj)
  pub writer_fileobj : List (ℕ × FileObj)
  -- `_io_refs` of the sockets.
  pub io_refs : ℕ → ℕ
  -- A record of the handles whose `_run` was called.
  pub ran : List ℕ

abbrev pub update : {A : Type 0} → (ℕ → A) → ℕ → A → ℕ → A
update f n a m = if m == n then a else f m

abbrev pub is_active : Poll → Bool
is_active p = is_some p.reading_handle || is_some p.writing_handle

module _ {W : Type 0} where
  abbrev pub set_poll : ℕ → (Poll → Poll) → M (Polls W) (Unit {0})
  set_poll i f = modify (λ s. record s { objects = update s.objects i (f (s.objects i)) })

  -- `Handle._cancel`, where there is a handle.
  unfoldable pub cancel : Option ℕ → M (Polls W) (Unit {0})
  cancel none = pure tt
  cancel (some h) = modify (λ s. record s { cancelled = update s.cancelled h true })

  -- libuv documents that `uv_poll_stop` always succeeds.
  unfoldable pub poll_stop : ℕ → M (Polls W) (Unit {0})
  poll_stop i s =
      whenever (s.objects i).alive
        (set_poll i (λ p. record p { readable = false; writable = false })) s

  -- `UVPoll.stop`
  unfoldable pub stop : ℕ → M (Polls W) (Unit {0})
  unfolding cancel poll_stop
  stop i = do
    s ← get_state
    cancel (s.objects i).reading_handle
    set_poll i (λ p. record p { reading_handle = none })
    t ← get_state
    cancel (t.objects i).writing_handle
    set_poll i (λ p. record p { writing_handle = none })
    poll_stop i

  -- `UVPoll._close`
  unfoldable pub close : ℕ → M (Polls W) (Unit {0})
  unfolding stop
  close i = do
    s ← get_state
    whenever (is_active (s.objects i)) (stop i)
    set_poll i (λ p. record p { alive = false; readable = false; writable = false })

  unfoldable pub inc_io_ref : (ℕ → Bool) → FileObj → M (Polls W) (Unit {0})
  inc_io_ref is_socket (fd_int n) = pure tt
  inc_io_ref is_socket (file o) =
      whenever (is_socket o)
        (modify (λ s. record s { io_refs = update s.io_refs o (s.io_refs o + 1) }))

  -- `_decref_socketios` of a socket does nothing to a count of 0.
  unfoldable pub dec_io_ref : (ℕ → Bool) → Option FileObj → M (Polls W) (Unit {0})
  dec_io_ref is_socket none = pure tt
  dec_io_ref is_socket (some (fd_int n)) = pure tt
  dec_io_ref is_socket (some (file o)) =
      whenever (is_socket o)
        (modify (λ s. record s { io_refs = update s.io_refs o (s.io_refs o - 1) }))

  unfoldable pub check_closed : M (Polls W) (Unit {0})
  check_closed s = branch s.closed (throw runtime_error) (pure tt) s

module _ {W : Type 0} (env : PollEnv W) where
  check_fd : ℤ → M (Polls W) ℕ
  check_fd (pos n) = pure n
  check_fd (negsuc n) = throw value_error

  fd_of : Fileno → M (Polls W) ℕ
  unfolding check_fd
  fd_of (number n) = check_fd n
  fd_of not_a_file = throw value_error
  fd_of (fails e) = throw e

  unfoldable pub fileobj_to_fd : FileObj → M (Polls W) ℕ
  unfolding fd_of check_fd
  fileobj_to_fd (fd_int n) s = check_fd n s
  fileobj_to_fd (file o) s = let r = env.fileno o s.world in fd_of r.0 (record s { world = r.1 })

  unfoldable pub ensure_fd_no_transport : ℕ → M (Polls W) (Unit {0})
  ensure_fd_no_transport fd s = branch (env.in_use fd s.world) (throw runtime_error) (pure tt) s

  -- `UVPoll._init`, and the entry in `_polls`.
  unfoldable pub init_poll : ℕ → M (Polls W) ℕ
  init_poll fd s =
      let r = env.uv_poll_init fd s.world in
      elim r.0 as (λ x. Outcome ℕ × Polls W) [
        | some err ↦ (raise (convert_error err), record s { world = r.1 })
        | none ↦ (
          ok s.next_object,
          record s {
            world = r.1;
            objects = update s.objects s.next_object (record {
              alive = true;
              fd = fd;
              reading_handle = none;
              writing_handle = none;
              readable = false;
              writable = false;
            });
            next_object = suc s.next_object;
            polls = store fd s.next_object s.polls;
          },
        )
      ]

  -- `UVPoll.new(self, fd)`: the descriptor becomes a C `int`.
  unfoldable pub new_poll : ℕ → M (Polls W) ℕ
  unfolding init_poll
  new_poll fd s = branch (ltb fd int_limit) (init_poll fd) (throw overflow_error) s

  unfoldable pub find_poll : ℕ → M (Polls W) ℕ
  unfolding new_poll
  find_poll fd s = elim (lookup fd s.polls) as (λ x. Outcome ℕ × Polls W) [
    | some i ↦ (ok i, s)
    | none ↦ new_poll fd s
  ]

  unfoldable pub pop_reader : ℕ → M (Polls W) (Unit {0})
  unfolding dec_io_ref
  pop_reader fd = do
    s ← get_state
    modify (λ t. record t { reader_fileobj = delete fd t.reader_fileobj })
    dec_io_ref env.is_socket (lookup fd s.reader_fileobj)

  unfoldable pub pop_writer : ℕ → M (Polls W) (Unit {0})
  unfolding dec_io_ref
  pop_writer fd = do
    s ← get_state
    modify (λ t. record t { writer_fileobj = delete fd t.writer_fileobj })
    dec_io_ref env.is_socket (lookup fd s.writer_fileobj)

  -- `if not poll.is_active(): del self._polls[fd]; poll._close()`
  unfoldable pub drop_poll : ℕ → ℕ → M (Polls W) (Unit {0})
  unfolding close
  drop_poll fd i = do
    s ← get_state
    branch (is_active (s.objects i)) (pure tt) (
        branch (is_some (lookup fd s.polls))
          (do modify (λ t. record t { polls = delete fd t.polls }); close i) (throw key_error))

  unfoldable pub has_reader : FileObj → M (Polls W) Bool
  unfolding check_closed fileobj_to_fd
  has_reader fileobj = do
    check_closed
    fd ← fileobj_to_fd fileobj
    s ← get_state
    elim (lookup fd s.polls) as (λ x. M (Polls W) Bool) [
      | none ↦ pure false
      | some i ↦ pure ((s.objects i).alive && is_some (s.objects i).reading_handle)
    ]

  unfoldable pub has_writer : FileObj → M (Polls W) Bool
  unfolding check_closed fileobj_to_fd
  has_writer fileobj = do
    check_closed
    fd ← fileobj_to_fd fileobj
    s ← get_state
    elim (lookup fd s.polls) as (λ x. M (Polls W) Bool) [
      | none ↦ pure false
      | some i ↦ pure ((s.objects i).alive && is_some (s.objects i).writing_handle)
    ]
