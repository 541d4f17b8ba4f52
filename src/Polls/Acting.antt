-- ===== src/Polls/Acting.antt =====
-- uvloop/handles/poll.pyx and uvloop/loop.pyx: so do adding and removing readers and writers, and
-- the callback of libuv.
use uvloop.Prelude.{ℕ, refl, Bool, true, false, Option, none, some, lookup, store}
use uvloop.Errors.{Exception, UvError}
use uvloop.Python.{M, ◌>>=◌, ◌>>◌, pure}
use uvloop.Python.Frames.{
  Keeps, pure-Keeps, get_state-Keeps, branch-Keeps, branch_of-Keeps, bind-Keeps,
}
use uvloop.Polls.{
  FileObj, PollAction, adds_reader, adds_writer, removes_reader, removes_writer, PollProgram, done,
  call, PollEnv, Polls, drop_poll,
}
use uvloop.Polls.Methods.{
  stop_reading, stop_writing, add_reader, add_writer, remove_watch, remove_reader, remove_writer,
  gives_true, act, perform, on_uvpoll_event,
}
use uvloop.Polls.Watched.{watch, Watched-with_one, same, same-watch}
use uvloop.Polls.Starting.{fatal-Watched, run_guarded-watch}
use uvloop.Polls.Kept.{
  modify-same, inc-same, check_closed-same, fileobj_to_fd-same, ensure-same, pop_reader-same,
  pop_writer-same, find_poll-watch, drop_poll-watch,
}
use uvloop.Polls.Switching.{
  start_reading-watch, start_writing-watch, stop_reading-watch, stop_writing-watch,
}

-- Over a run of a handle and `_handle_exception`.
module _ {W : Type 0} (env : PollEnv W) (run_handle : ℕ → M (Polls W) (Unit {0}))
    (handle_exception : Exception → M (Polls W) (Unit {0}))
    (runs : (x : ℕ → Bool) (h : ℕ) → Keeps (watch x) (run_handle h))
    (reports : (x : ℕ → Bool) (e : Exception) → Keeps (watch x) (handle_exception e)) where
  add_reader-watch :
      (o : FileObj) (h : ℕ) (x : ℕ → Bool)
      → Keeps (watch x) (add_reader env run_handle handle_exception o h)
  unfolding add_reader
  add_reader-watch o h x =
      let F = watch x in
      bind-Keeps F (same-watch x check_closed-same) (λ _.
        bind-Keeps F (same-watch x (fileobj_to_fd-same env o)) (λ fd.
          bind-Keeps F (same-watch x (ensure-same env fd)) (λ _.
            bind-Keeps F (find_poll-watch env fd x) (λ i.
              bind-Keeps F (start_reading-watch env run_handle handle_exception runs reports i h x)
                (λ _. same-watch x (
                  bind-Keeps same (pop_reader-same env fd) (λ _.
                    bind-Keeps same
                      (modify-same (λ s. record s { reader_fileobj = store fd o s.reader_fileobj })
                        (λ s. refl))
                      (λ _. inc-same env.is_socket o))))))))

  add_writer-watch :
      (o : FileObj) (h : ℕ) (x : ℕ → Bool)
      → Keeps (watch x) (add_writer env run_handle handle_exception o h)
  unfolding add_writer
  add_writer-watch o h x =
      let F = watch x in
      bind-Keeps F (same-watch x check_closed-same) (λ _.
        bind-Keeps F (same-watch x (fileobj_to_fd-same env o)) (λ fd.
          bind-Keeps F (same-watch x (ensure-same env fd)) (λ _.
            bind-Keeps F (find_poll-watch env fd x) (λ i.
              bind-Keeps F (start_writing-watch env run_handle handle_exception runs reports i h x)
                (λ _. same-watch x (
                  bind-Keeps same (pop_writer-same env fd) (λ _.
                    bind-Keeps same
                      (modify-same (λ s. record s { writer_fileobj = store fd o s.writer_fileobj })
                        (λ s. refl))
                      (λ _. inc-same env.is_socket o))))))))

  remove_watch-watch :
      (m : ℕ → M (Polls W) Bool) (fd : ℕ) (x : ℕ → Bool)
      → ((i : ℕ) → Keeps (watch x) (m i))
      → Keeps (watch x) (remove_watch env run_handle handle_exception m fd)
  unfolding remove_watch
  remove_watch-watch m fd x h =
      branch_of-Keeps (watch x) (λ s. s.closed) (pure-Keeps (watch x) false)
        (record { keeps = λ s. (go (lookup fd s.polls)).keeps s })
    where
      go :
          (o : Option ℕ)
          → Keeps (watch x) (elim o as (λ y. M (Polls W) Bool) [
            | none ↦ pure false
            | some i ↦ do result ← m i; drop_poll env fd i; pure result
          ])
      go none = pure-Keeps (watch x) false
      go (some i) =
          bind-Keeps (watch x) (h i)
            (λ b. bind-Keeps (watch x) (drop_poll-watch env fd i x) (λ _. pure-Keeps (watch x) b))

  remove_reader-watch :
      (o : FileObj) (x : ℕ → Bool)
      → Keeps (watch x) (remove_reader env run_handle handle_exception o)
  unfolding remove_reader
  remove_reader-watch o x =
      let F = watch x in
      bind-Keeps F (same-watch x (fileobj_to_fd-same env o)) (λ fd.
        bind-Keeps F (same-watch x (ensure-same env fd)) (λ _.
          bind-Keeps F (same-watch x (pop_reader-same env fd)) (λ _.
            remove_watch-watch (stop_reading env run_handle handle_exception) fd x
              (λ i. stop_reading-watch env run_handle handle_exception runs reports i x))))

  remove_writer-watch :
      (o : FileObj) (x : ℕ → Bool)
      → Keeps (watch x) (remove_writer env run_handle handle_exception o)
  unfolding remove_writer
  remove_writer-watch o x =
      let F = watch x in
      bind-Keeps F (same-watch x (fileobj_to_fd-same env o)) (λ fd.
        bind-Keeps F (same-watch x (ensure-same env fd)) (λ _.
          bind-Keeps F (same-watch x (pop_writer-same env fd)) (λ _.
            remove_watch-watch (stop_writing env run_handle handle_exception) fd x
              (λ i. stop_writing-watch env run_handle handle_exception runs reports i x))))

  gives_true-watch :
      (x : ℕ → Bool) {m : M (Polls W) (Unit {0})}
      → Keeps (watch x) m
      → Keeps (watch x) (gives_true env run_handle handle_exception m)
  unfolding gives_true
  gives_true-watch x h = bind-Keeps (watch x) h (λ _. pure-Keeps (watch x) true)

  pub act-watch :
      (action : PollAction) (x : ℕ → Bool)
      → Keeps (watch x) (act env run_handle handle_exception action)
  unfolding act
  act-watch (adds_reader o h) x = gives_true-watch x (add_reader-watch o h x)
  act-watch (adds_writer o h) x = gives_true-watch x (add_writer-watch o h x)
  act-watch (removes_reader o) x = remove_reader-watch o x
  act-watch (removes_writer o) x = remove_writer-watch o x

  pub perform-watch :
      (p : PollProgram W) (x : ℕ → Bool)
      → Keeps (watch x) (perform env run_handle handle_exception p)
  unfolding perform
  perform-watch (done outcome w) x = record { keeps = λ s h. h }
  perform-watch (call action next) x = record {
    keeps = λ s h.
        (perform-watch (next (act env run_handle handle_exception action s).0) x).keeps
          (act env run_handle handle_exception action s).1 ((act-watch action x).keeps s h);
  }

  pub on_uvpoll_event-watch :
      (i : ℕ) (o : Option UvError) (r w : Bool) (x : ℕ → Bool)
      → Keeps (watch x) (on_uvpoll_event env run_handle handle_exception i o r w)
  unfolding on_uvpoll_event
  on_uvpoll_event-watch i (some err) r w x = record {
    keeps = λ s h.
        fatal-Watched env run_handle handle_exception runs reports i x s (Watched-with_one i x s h);
  }
  on_uvpoll_event-watch i none r w x =
      let F = watch x in
      let g = run_guarded-watch env run_handle handle_exception runs reports x in
      bind-Keeps F (get_state-Keeps F) (λ s.
        bind-Keeps F (branch-Keeps F r (g (s.objects i).reading_handle) (pure-Keeps F tt)) (λ _.
          bind-Keeps F (get_state-Keeps F)
            (λ t. branch-Keeps F w (g (t.objects i).writing_handle) (pure-Keeps F tt))))
