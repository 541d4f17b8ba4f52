-- ===== src/Polls/Kept.antt =====
-- uvloop/handles/poll.pyx and uvloop/loop.pyx: the parts of adding and removing readers and
-- writers that run no handle.
use uvloop.Prelude.{
  ℕ, ◌+◌, ◌-◌, ◌≡◌, refl, sym, ap, ◌∙◌, inl, inr, Bool, Option, none, some, ◌==◌, is_some, lookup,
  delete, arith, Bool-cases, ==→eq, pos, negsuc, ℤ,
}
use mathlib.Core.Path.{subst}
use uvloop.Errors.{runtime_error, value_error, key_error}
use uvloop.Python.{modify}
use uvloop.Python.Frames.{
  Keeps, Keeps-of, pure-Keeps, throw-Keeps, get_state-Keeps, branch-Keeps, branch_of-Keeps,
  bind-Keeps,
}
use uvloop.Polls.{
  FileObj, fd_int, file, Fileno, number, not_a_file, fails, Poll, PollEnv, Polls, update, is_active,
  set_poll, close, inc_io_ref, dec_io_ref, check_closed, check_fd, fd_of, fileobj_to_fd,
  ensure_fd_no_transport, new_poll, init_poll, find_poll, pop_reader, pop_writer, drop_poll,
}
use uvloop.Polls.Watched.{
  Matches, Watched, watch, Watched-with_one, same, same-watch, close-Watched,
}

pub update_at : (o : ℕ → Poll) (i : ℕ) (p : Poll) → update o i p i ≡ p
update_at o i p = ground arith

module _ {W : Type 0} where
  -- A `UVPoll` that has a handle for an event gets another one for it.
  pub replaced :
      (i : ℕ) (x : ℕ → Bool) (s : Polls W) (f : Poll → Poll)
      → ((f (s.objects i)).alive ≡ (s.objects i).alive)
      → (Matches (s.objects i) → Matches (f (s.objects i)))
      → Watched x s
      → Watched x (set_poll i f s).1
  replaced i x s f a m w j e b = elim (Bool-cases (j == i)) [
    | inl y ↦
        let u : update s.objects i (f (s.objects i)) j ≡ f (s.objects i) = ground (arith, y) in
        subst Matches (sym u)
          (m (w i (ap x (sym (==→eq j i y)) ∙ e) (sym a ∙ ap (λ p. p.alive) (sym u) ∙ b)))
    | inr n ↦ ground (arith, n, e, b, w j)
  ]

  pub modify-same :
      (f : Polls W → Polls W) → ((s : Polls W) → (f s).objects ≡ s.objects) → Keeps same (modify f)
  modify-same f h = record { keeps = h }

  pub inc-same : (is_socket : ℕ → Bool) (o : FileObj) → Keeps same (inc_io_ref {W = W} is_socket o)
  unfolding inc_io_ref
  inc-same is_socket (fd_int n) = pure-Keeps same tt
  inc-same is_socket (file o) =
      branch-Keeps same (is_socket o)
        (modify-same (λ s. record s { io_refs = update s.io_refs o (s.io_refs o + 1) }) (λ s. refl))
        (pure-Keeps same tt)

  pub dec-same :
      (is_socket : ℕ → Bool) (o : Option FileObj) → Keeps same (dec_io_ref {W = W} is_socket o)
  unfolding dec_io_ref
  dec-same is_socket none = pure-Keeps same tt
  dec-same is_socket (some (fd_int n)) = pure-Keeps same tt
  dec-same is_socket (some (file o)) =
      branch-Keeps same (is_socket o)
        (modify-same (λ s. record s { io_refs = update s.io_refs o (s.io_refs o - 1) }) (λ s. refl))
        (pure-Keeps same tt)

  pub check_closed-same : Keeps same (check_closed {W = W})
  unfolding check_closed
  check_closed-same =
      branch_of-Keeps same (λ s. s.closed) (throw-Keeps same runtime_error) (pure-Keeps same tt)

module _ {W : Type 0} (env : PollEnv W) where
  check_fd-same : (n : ℤ) → Keeps same (check_fd env n)
  unfolding check_fd
  check_fd-same (pos n) = pure-Keeps same n
  check_fd-same (negsuc n) = throw-Keeps same value_error

  fd_of-same : (r : Fileno) → Keeps same (fd_of env r)
  unfolding fd_of
  fd_of-same (number n) = check_fd-same n
  fd_of-same not_a_file = throw-Keeps same value_error
  fd_of-same (fails e) = throw-Keeps same e

  pub fileobj_to_fd-same : (o : FileObj) → Keeps same (fileobj_to_fd env o)
  unfolding fileobj_to_fd
  fileobj_to_fd-same (fd_int n) = record { keeps = λ s. (check_fd-same n).keeps s }
  fileobj_to_fd-same (file o) = record {
    keeps = λ s.
        (fd_of-same (env.fileno o s.world).0).keeps (record s { world = (env.fileno o s.world).1 });
  }

  pub ensure-same : (fd : ℕ) → Keeps same (ensure_fd_no_transport env fd)
  unfolding ensure_fd_no_transport
  ensure-same fd =
      branch_of-Keeps same (λ s. env.in_use fd s.world) (throw-Keeps same runtime_error)
        (pure-Keeps same tt)

  pub pop_reader-same : (fd : ℕ) → Keeps same (pop_reader env fd)
  unfolding pop_reader
  pop_reader-same fd = bind-Keeps same (get_state-Keeps same) (λ s.
      bind-Keeps same
        (modify-same (λ t. record t { reader_fileobj = delete fd t.reader_fileobj }) (λ t. refl))
        (λ _. dec-same env.is_socket (lookup fd s.reader_fileobj)))

  pub pop_writer-same : (fd : ℕ) → Keeps same (pop_writer env fd)
  unfolding pop_writer
  pop_writer-same fd = bind-Keeps same (get_state-Keeps same) (λ s.
      bind-Keeps same
        (modify-same (λ t. record t { writer_fileobj = delete fd t.writer_fileobj }) (λ t. refl))
        (λ _. dec-same env.is_socket (lookup fd s.writer_fileobj)))

  pub find_poll-watch : (fd : ℕ) (x : ℕ → Bool) → Keeps (watch x) (find_poll env fd)
  unfolding find_poll new_poll init_poll
  find_poll-watch fd x = record { keeps = λ s w j e a. ground (arith, e, a, w j) }

  pub drop_poll-watch : (fd i : ℕ) (x : ℕ → Bool) → Keeps (watch x) (drop_poll env fd i)
  unfolding drop_poll
  drop_poll-watch fd i x =
      let F = watch x in
      bind-Keeps F (get_state-Keeps F) (λ s.
        branch-Keeps F (is_active (s.objects i)) (pure-Keeps F tt) (
          branch-Keeps F (is_some (lookup fd s.polls))
            (bind-Keeps F
              (same-watch x (modify-same (λ t. record t { polls = delete fd t.polls }) (λ t. refl)))
              (λ _. Keeps-of F (close i) (λ t w. close-Watched i x t (Watched-with_one i x t w))))
            (throw-Keeps F key_error)))
