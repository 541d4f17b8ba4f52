-- ===== src/Polls/Methods.antt =====
-- uvloop/handles/poll.pyx and uvloop/loop.pyx: watching file descriptors, and the callback of
-- libuv.
use uvloop.Prelude.{
  ℕ, zero, suc, Bool, true, false, [], ◌∷◌, ◌++◌, Option, none, some, is_some, lookup, store,
}
use uvloop.Errors.{Exception, UvError, runtime_error}
use uvloop.Python.{
  M, raise, ◌>>=◌, ◌>>◌, pure, throw, get_state, modify, branch, whenever, catch, finally,
}
use uvloop.Polls.{
  FileObj, PollAction, adds_reader, adds_writer, removes_reader, removes_writer, PollProgram, done,
  call, PollEnv, Polls, set_poll, cancel, stop, close, inc_io_ref, check_closed, fileobj_to_fd,
  ensure_fd_no_transport, find_poll, pop_reader, pop_writer, drop_poll,
}

-- Over a run of a handle and `_handle_exception`.
module _ {W : Type 0} (env : PollEnv W) (run_handle : ℕ → M (Polls W) (Unit {0}))
    (handle_exception : Exception → M (Polls W) (Unit {0})) where
  unfoldable pub run_guarded : Option ℕ → M (Polls W) (Unit {0})
  run_guarded none = pure tt
  run_guarded (some h) = catch (run_handle h) handle_exception

  -- `UVPoll._fatal_error`, which raises nothing of its own, also where it is asked to.
  unfoldable pub fatal_error : ℕ → M (Polls W) (Unit {0})
  unfolding run_guarded close
  fatal_error i =
      finally
        (do
          s ← get_state
          run_guarded (s.objects i).reading_handle
          set_poll i (λ p. record p { reading_handle = none })
          t ← get_state
          run_guarded (t.objects i).writing_handle
          set_poll i (λ p. record p { writing_handle = none }))
        (close i)

  -- `err = uv.uv_poll_start(...)` and what follows it.
  unfoldable pub started : ℕ → Bool → Bool → Option UvError → M (Polls W) (Unit {0})
  unfolding fatal_error
  started i r w none = set_poll i (λ p. record p { readable = r; writable = w })
  started i r w (some err) = fatal_error i

  unfoldable pub poll_start : ℕ → Bool → Bool → M (Polls W) (Unit {0})
  unfolding started
  poll_start i r w s =
      branch (s.objects i).alive
        (λ t.
          let e = env.uv_poll_start (t.objects i).fd r w t.world in
          started i r w e.0 (record t { world = e.1 }))
        (throw runtime_error) s

  unfoldable pub start_reading : ℕ → ℕ → M (Polls W) (Unit {0})
  unfolding poll_start cancel
  start_reading i h = do
    s ← get_state
    branch (is_some (s.objects i).reading_handle) (cancel (s.objects i).reading_handle)
        (poll_start i true (is_some (s.objects i).writing_handle))
    set_poll i (λ p. record p { reading_handle = some h })

  unfoldable pub start_writing : ℕ → ℕ → M (Polls W) (Unit {0})
  unfolding poll_start cancel
  start_writing i h = do
    s ← get_state
    branch (is_some (s.objects i).writing_handle) (cancel (s.objects i).writing_handle)
        (poll_start i (is_some (s.objects i).reading_handle) true)
    set_poll i (λ p. record p { writing_handle = some h })

  unfoldable pub stop_reading : ℕ → M (Polls W) Bool
  unfolding poll_start cancel stop
  stop_reading i s =
      branch (is_some (s.objects i).reading_handle)
        (do
          cancel (s.objects i).reading_handle
          set_poll i (λ p. record p { reading_handle = none })
          branch (is_some (s.objects i).writing_handle) (poll_start i false true) (stop i)
          pure true)
        (pure false) s

  unfoldable pub stop_writing : ℕ → M (Polls W) Bool
  unfolding poll_start cancel stop
  stop_writing i s =
      branch (is_some (s.objects i).writing_handle)
        (do
          cancel (s.objects i).writing_handle
          set_poll i (λ p. record p { writing_handle = none })
          branch (is_some (s.objects i).reading_handle) (poll_start i true false) (stop i)
          pure true)
        (pure false) s

  unfoldable pub add_reader : FileObj → ℕ → M (Polls W) (Unit {0})
  unfolding check_closed fileobj_to_fd ensure_fd_no_transport find_poll start_reading pop_reader
      inc_io_ref
  add_reader fileobj h = do
    check_closed
    fd ← fileobj_to_fd env fileobj
    ensure_fd_no_transport env fd
    i ← find_poll env fd
    start_reading i h
    pop_reader env fd
    modify (λ s. record s { reader_fileobj = store fd fileobj s.reader_fileobj })
    inc_io_ref env.is_socket fileobj

  unfoldable pub add_writer : FileObj → ℕ → M (Polls W) (Unit {0})
  unfolding check_closed fileobj_to_fd ensure_fd_no_transport find_poll start_writing pop_writer
      inc_io_ref
  add_writer fileobj h = do
    check_closed
    fd ← fileobj_to_fd env fileobj
    ensure_fd_no_transport env fd
    i ← find_poll env fd
    start_writing i h
    pop_writer env fd
    modify (λ s. record s { writer_fileobj = store fd fileobj s.writer_fileobj })
    inc_io_ref env.is_socket fileobj

  -- What remains of `_remove_reader` where the descriptor has a `UVPoll`.
  unfoldable pub remove_watch : (ℕ → M (Polls W) Bool) → ℕ → M (Polls W) Bool
  unfolding drop_poll
  remove_watch stop_watch fd s =
      branch s.closed (pure false)
        (elim (lookup fd s.polls) as (λ x. M (Polls W) Bool) [
          | none ↦ pure false
          | some i ↦ do result ← stop_watch i; drop_poll env fd i; pure result
        ])
        s

  unfoldable pub remove_reader : FileObj → M (Polls W) Bool
  unfolding fileobj_to_fd ensure_fd_no_transport pop_reader remove_watch stop_reading
  remove_reader fileobj = do
    fd ← fileobj_to_fd env fileobj
    ensure_fd_no_transport env fd
    pop_reader env fd
    remove_watch stop_reading fd

  unfoldable pub remove_writer : FileObj → M (Polls W) Bool
  unfolding fileobj_to_fd ensure_fd_no_transport pop_writer remove_watch stop_writing
  remove_writer fileobj = do
    fd ← fileobj_to_fd env fileobj
    ensure_fd_no_transport env fd
    pop_writer env fd
    remove_watch stop_writing fd

  unfoldable pub gives_true : M (Polls W) (Unit {0}) → M (Polls W) Bool
  gives_true m = do m; pure true

  unfoldable pub act : PollAction → M (Polls W) Bool
  unfolding add_reader add_writer remove_reader remove_writer gives_true
  act (adds_reader fileobj h) = gives_true (add_reader fileobj h)
  act (adds_writer fileobj h) = gives_true (add_writer fileobj h)
  act (removes_reader fileobj) = remove_reader fileobj
  act (removes_writer fileobj) = remove_writer fileobj

  -- A run of user code.
  unfoldable pub perform : PollProgram W → M (Polls W) (Unit {0})
  unfolding act
  perform (done outcome w) s = (outcome, record s { world = w })
  perform (call action next) s = perform (next (act action s).0) (act action s).1

  -- `__on_uvpoll_event` for a handle that is not closed: `status` is an error or 0, and each flag
  -- says that its event or a disconnection is among the events.
  unfoldable pub on_uvpoll_event : ℕ → Option UvError → Bool → Bool → M (Polls W) (Unit {0})
  unfolding fatal_error run_guarded
  on_uvpoll_event i (some err) r w = fatal_error i
  on_uvpoll_event i none r w = do
    s ← get_state
    whenever r (run_guarded (s.objects i).reading_handle)
    t ← get_state
    whenever w (run_guarded (t.objects i).writing_handle)

-- Python limits how deep calls nest: at depth 0 a call of user code raises `RecursionError`, which
-- is a `RuntimeError`.
module _ {W : Type 0} (env : PollEnv W) where
  -- A run of user code at a depth, over the runs at the depth below it.
  unfoldable pub nested :
      (ℕ → M (Polls W) (Unit {0}))
      → (Exception → M (Polls W) (Unit {0}))
      → (W → PollProgram W)
      → M (Polls W) (Unit {0})
  unfolding perform
  nested run report f s = perform env run report (f s.world) s

  unfoldable mutual
    unfolding nested

    pub run_handle : ℕ → ℕ → M (Polls W) (Unit {0})
    run_handle zero h s = (raise runtime_error, s)
    run_handle (suc depth) h s =
        branch (s.cancelled h) (pure tt)
          (do
            modify (λ t. record t { ran = t.ran ++ h ∷ [] })
            nested (run_handle depth) (handle_exception depth) (env.handle_code h))
          s

    pub handle_exception : ℕ → Exception → M (Polls W) (Unit {0})
    handle_exception zero e s = (raise runtime_error, s)
    handle_exception (suc depth) e s =
        nested (run_handle depth) (handle_exception depth) (env.exception_code e) s
