-- ===== src/Polls/Asking.antt =====
-- uvloop/loop.pyx: the steps that the methods for readers and writers share.
use uvloop.Prelude.{
  ℕ, ◌+◌, ◌-◌, ◌≡◌, refl, sym, ap, ◌∙◌, Option, none, some, lookup, delete, ◌==◌, false, Bool-cases,
  ==→eq, inl, inr, pos, negsuc, ℤ,
}
use mathlib.Core.Path.{subst}
use uvloop.Errors.{Exception, runtime_error}
use uvloop.Python.{M, Outcome, ok, raise, bind, pure, throw, branch}
use uvloop.Polls.{
  FileObj, fd_int, file, PollEnv, Polls, update, check_closed, fileobj_to_fd, fd_of, check_fd,
  ensure_fd_no_transport, find_poll, pop_reader, pop_writer, inc_io_ref, dec_io_ref,
}
use uvloop.Polls.Finding.{Accepting, trouble, find_lem, find_poll_refused}
use uvloop.Polls.Watching.{Watching, descriptor_of, at_descriptor, if_usable}
use uvloop.Polls.Registry.{Shows, Does, Does-whenever, Shows-other}

module _ {W : Type 0} (env : PollEnv W) (a : Accepting env) where
  -- An open loop.
  pub check_closed_lem : (s : Polls W) (v : Watching) → Shows s v → Does (ok tt) v (check_closed s)
  unfolding check_closed
  check_closed_lem s v d =
      subst (Does (ok tt) v) (sym (ap (λ b. branch b (throw runtime_error) (pure tt) s) d.opened))
        (record { returns = refl; shows = d })

  -- No transport has the descriptor.
  pub ensure_lem :
      (fd : ℕ) (s : Polls W) (v : Watching)
      → Shows s v
      → Does (ok tt) v (ensure_fd_no_transport env fd s)
  unfolding ensure_fd_no_transport
  ensure_lem fd s v d =
      subst (Does (ok tt) v)
        (sym (ap (λ b. branch b (throw runtime_error) (pure tt) s) (a.unused fd s.world)))
        (record { returns = refl; shows = d })

  checked :
      {A : Type 0} (n : ℤ) (s : Polls W) (v : Watching) (k : ℕ → M (Polls W) A)
      (r : ℕ → Outcome A × Watching)
      → Shows s v
      → ((fd : ℕ) (t : Polls W) → Shows t v → Does (r fd).0 (r fd).1 (k fd t))
      → Does (at_descriptor n v r).0 (at_descriptor n v r).1 (bind (check_fd env n s) k)
  unfolding check_fd
  checked (pos n) s v k r d e = e n s d
  checked (negsuc n) s v k r d e = record { returns = refl; shows = d }

  -- What goes on with the descriptor of a file object, or its error.
  pub with_descriptor :
      {A : Type 0} (f : FileObj) (s : Polls W) (v : Watching) (k : ℕ → M (Polls W) A)
      (r : ℕ → Outcome A × Watching)
      → Shows s v
      → ((fd : ℕ) (t : Polls W) → Shows t v → Does (r fd).0 (r fd).1 (k fd t))
      → Does
          (at_descriptor (descriptor_of a.descriptor f) v r).0
          (at_descriptor (descriptor_of a.descriptor f) v r).1
          (bind (fileobj_to_fd env f s) k)
  unfolding fileobj_to_fd fd_of
  with_descriptor (fd_int n) s v k r d e = checked n s v k r d e
  with_descriptor (file o) s v k r d e =
      let t = record s { world = (env.fileno o s.world).1 } in
      subst
        (λ n.
          Does (at_descriptor (a.descriptor o) v r).0 (at_descriptor (a.descriptor o) v r).1
            (bind (fd_of env n t) k))
        (sym (a.files o s.world))
        (checked (a.descriptor o) t v k r
          (Shows-other s v t.world s.reader_fileobj s.writer_fileobj s.io_refs d) e)

  -- A descriptor that is refused is another than one that is not.
  other :
      (fd : ℕ) (v : Watching) (m : ℕ) (x : Exception)
      → v.refuses fd ≡ none
      → v.refuses m ≡ some x
      → (m == fd) ≡ false
  other fd v m x n y = elim (Bool-cases (m == fd)) [
    | inl e ↦ absurd (cc (n, y, ap v.refuses (==→eq m fd e)))
    | inr e ↦ e
  ]

  -- The `UVPoll` of a descriptor, or what the descriptor is refused with.
  pub with_poll :
      (fd : ℕ) (o : Outcome (Unit {0})) (s : Polls W) (v w : Watching)
      (k : ℕ → M (Polls W) (Unit {0}))
      → Shows s v
      → ((m : ℕ) → v.refuses m ≡ trouble env a m)
      → ((i : ℕ) (t : Polls W) → lookup fd t.polls ≡ some i → Shows t v → Does o w (k i t))
      → Does
          (if_usable (v.refuses fd) v (o, w)).0
          (if_usable (v.refuses fd) v (o, w)).1
          (bind (find_poll env fd s) k)
  with_poll fd o s v w k d u e = go (v.refuses fd) refl
    where
      found : v.refuses fd ≡ none → Does o w (bind (find_poll env fd s) k)
      found n =
          let f = find_lem env a fd s d.tidy (sym (u fd) ∙ n) in
          subst (Does o w) (ap (λ x. bind (x, (find_poll env fd s).1) k) (sym f.returns)) (
            e f.index (find_poll env fd s).1 f.entry (record {
              tidy = f.tidy;
              opened = f.closed ∙ d.opened;
              reader = λ m. f.reader m ∙ d.reader m;
              writer = λ m. f.writer m ∙ d.writer m;
              cancelled = λ h. f.cancelled h ∙ d.cancelled h;
              clear = λ m x y. f.entries m (other fd v m x n y) (d.clear m x y);
            }))

      refused :
          (x : Exception) → v.refuses fd ≡ some x → Does (raise x) v (bind (find_poll env fd s) k)
      refused x n =
          let r = find_poll_refused env a fd x s (d.clear fd x n) (sym (u fd) ∙ n) in
          subst (λ y. Does (raise x) v (bind y k)) (sym r.1)
            (record {
              returns = refl;
              shows = Shows-other s v r.0 s.reader_fileobj s.writer_fileobj s.io_refs d;
            })

      go :
          (b : Option Exception)
          → v.refuses fd ≡ b
          → Does (if_usable b v (o, w)).0 (if_usable b v (o, w)).1 (bind (find_poll env fd s) k)
      go none n = found n
      go (some x) n = refused x n

  dec_lem :
      (o : Option FileObj) (s : Polls W) (v : Watching)
      → Shows s v
      → Does (ok tt) v (dec_io_ref env.is_socket o s)
  unfolding dec_io_ref
  dec_lem none s v d = record { returns = refl; shows = d }
  dec_lem (some (fd_int n)) s v d = record { returns = refl; shows = d }
  dec_lem (some (file f)) s v d =
      let t = record s { io_refs = update s.io_refs f (s.io_refs f - 1) } in
      Does-whenever (env.is_socket f) (λ x. (ok tt, t)) s v d
        (record {
          returns = refl;
          shows = Shows-other s v s.world s.reader_fileobj s.writer_fileobj t.io_refs d;
        })

  pub inc_lem :
      (f : FileObj) (s : Polls W) (v : Watching)
      → Shows s v
      → Does (ok tt) v (inc_io_ref env.is_socket f s)
  unfolding inc_io_ref
  inc_lem (fd_int n) s v d = record { returns = refl; shows = d }
  inc_lem (file f) s v d =
      let t = record s { io_refs = update s.io_refs f (s.io_refs f + 1) } in
      Does-whenever (env.is_socket f) (λ x. (ok tt, t)) s v d
        (record {
          returns = refl;
          shows = Shows-other s v s.world s.reader_fileobj s.writer_fileobj t.io_refs d;
        })

  pub pop_reader_lem :
      (fd : ℕ) (s : Polls W) (v : Watching) → Shows s v → Does (ok tt) v (pop_reader env fd s)
  unfolding pop_reader
  pop_reader_lem fd s v d =
      dec_lem (lookup fd s.reader_fileobj)
        (record s { reader_fileobj = delete fd s.reader_fileobj }) v
        (Shows-other s v s.world (delete fd s.reader_fileobj) s.writer_fileobj s.io_refs d)

  pub pop_writer_lem :
      (fd : ℕ) (s : Polls W) (v : Watching) → Shows s v → Does (ok tt) v (pop_writer env fd s)
  unfolding pop_writer
  pop_writer_lem fd s v d =
      dec_lem (lookup fd s.writer_fileobj)
        (record s { writer_fileobj = delete fd s.writer_fileobj }) v
        (Shows-other s v s.world s.reader_fileobj (delete fd s.writer_fileobj) s.io_refs d)
