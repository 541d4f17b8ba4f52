-- ===== src/Polls/Adding.antt =====
-- uvloop/loop.pyx: `_add_reader` and `_add_writer` against the table.
use uvloop.Prelude.{ℕ, ◌≡◌, ap, Bool, true, Option, none, some, lookup, store, pos, negsuc, ℤ}
use uvloop.Errors.{Exception, value_error}
use uvloop.Python.{M, Outcome, ok, raise, bind, pure}
use uvloop.Polls.{
  FileObj, PollEnv, Polls, adds_reader, adds_writer, check_closed, ensure_fd_no_transport,
  pop_reader, pop_writer, inc_io_ref,
}
use uvloop.Polls.Methods.{act, gives_true, add_reader, add_writer, start_reading, start_writing}
use uvloop.Polls.Finding.{Accepting, trouble}
use uvloop.Polls.Starts.{start_reading_lem, start_writing_lem}
use uvloop.Polls.Asking.{
  check_closed_lem, ensure_lem, with_descriptor, with_poll, inc_lem, pop_reader_lem, pop_writer_lem,
}
use uvloop.Polls.Watching.{
  does, Watching, set_reader, set_writer, descriptor_of, at_descriptor, if_usable, answer, ask,
}
use uvloop.Polls.Registry.{Shows, Does, Does-bind, Shows-other, Shows-reader, Shows-writer}

module _ {W : Type 0} (env : PollEnv W) (run_handle : ℕ → M (Polls W) (Unit {0}))
    (handle_exception : Exception → M (Polls W) (Unit {0})) (a : Accepting env) where
  abbrev true_of : Outcome (Unit {0}) → Outcome Bool
  true_of (ok u) = ok true
  true_of (raise e) = raise e

  bound_lem :
      (o : Outcome (Unit {0})) (v : Watching) (r : Outcome (Unit {0}) × Polls W)
      → Does o v r
      → Does (true_of o) v (bind r (λ _. pure true))
  bound_lem o v (ok u, s) d = record { returns = ap true_of d.returns; shows = d.shows }
  bound_lem o v (raise e, s) d = record { returns = ap true_of d.returns; shows = d.shows }

  gives_true_lem :
      (n : ℤ) (v : Watching) (k : ℕ → Watching) (r : Outcome (Unit {0}) × Polls W)
      → Does
          (at_descriptor n v (λ fd. if_usable (v.refuses fd) v (ok tt, k fd))).0
          (at_descriptor n v (λ fd. if_usable (v.refuses fd) v (ok tt, k fd))).1
          r
      → Does
          (at_descriptor n v (λ fd. if_usable (v.refuses fd) v (ok true, k fd))).0
          (at_descriptor n v (λ fd. if_usable (v.refuses fd) v (ok true, k fd))).1
          (bind r (λ _. pure true))
  gives_true_lem (pos n) v k r d = go (v.refuses n) d
    where
      go :
          (o : Option Exception)
          → Does (if_usable o v (ok tt, k n)).0 (if_usable o v (ok tt, k n)).1 r
          → Does
              (if_usable o v (ok true, k n)).0
              (if_usable o v (ok true, k n)).1
              (bind r (λ _. pure true))
      go none d = bound_lem (ok tt) (k n) r d
      go (some e) d = bound_lem (raise e) v r d
  gives_true_lem (negsuc n) v k r d = bound_lem (raise value_error) v r d

  -- The end of `_add_reader`.
  reader_listed :
      (f : FileObj) (fd : ℕ) (s : Polls W) (v : Watching)
      → Shows s v
      → Does (ok tt) v (
          bind (pop_reader env fd s) (λ _ t.
            inc_io_ref env.is_socket f (record t { reader_fileobj = store fd f t.reader_fileobj })))
  reader_listed f fd s v d =
      Does-bind tt (ok tt) v v _ (pop_reader env fd s) (pop_reader_lem env a fd s v d) (λ t x.
        inc_lem env a f (record t { reader_fileobj = store fd f t.reader_fileobj }) v
          (Shows-other t v t.world (store fd f t.reader_fileobj) t.writer_fileobj t.io_refs x))

  started_reader :
      (f : FileObj) (h fd i : ℕ) (s : Polls W) (v : Watching)
      → Shows s v
      → lookup fd s.polls ≡ some i
      → Does (ok tt) (set_reader fd (some h) v) (
          bind (start_reading env run_handle handle_exception i h s) (λ _ t.
            bind (pop_reader env fd t) (λ _ t.
              inc_io_ref env.is_socket f
                (record t { reader_fileobj = store fd f t.reader_fileobj }))))
  started_reader f h fd i s v d e =
      let r = start_reading_lem env run_handle handle_exception a fd i h s d.tidy e in
      let v' = set_reader fd (some h) v in
      let t = (start_reading env run_handle handle_exception i h s).1 in
      Does-bind tt (ok tt) v' v' _ (start_reading env run_handle handle_exception i h s)
        (record { returns = r.0; shows = Shows-reader fd (some h) s t v d r.1 })
        (λ t x. reader_listed f fd t v' x)

  pub adds_reader_lem :
      (f : FileObj) (h : ℕ) (s : Polls W) (v : Watching)
      → Shows s v
      → ((m : ℕ) → v.refuses m ≡ trouble env a m)
      → Does
          (answer a.descriptor (does (adds_reader f h)) v).0
          (answer a.descriptor (does (adds_reader f h)) v).1
          (ask env run_handle handle_exception (does (adds_reader f h)) s)
  unfolding ask act gives_true add_reader answer
  adds_reader_lem f h s v d u =
      gives_true_lem (descriptor_of a.descriptor f) v (λ fd. set_reader fd (some h) v)
        (add_reader env run_handle handle_exception f h s)
        (Does-bind tt _ v _ _ (check_closed s) (check_closed_lem env a s v d) (λ t x.
          with_descriptor env a f t v _
            (λ fd. if_usable (v.refuses fd) v (ok tt, set_reader fd (some h) v)) x
            (λ fd t x.
              Does-bind tt _ v _ _ (ensure_fd_no_transport env fd t) (ensure_lem env a fd t v x)
                (λ t x.
                  with_poll env a fd (ok tt) t v (set_reader fd (some h) v) _ x u
                    (λ i t e x. started_reader f h fd i t v x e)))))

  -- The end of `_add_writer`.
  writer_listed :
      (f : FileObj) (fd : ℕ) (s : Polls W) (v : Watching)
      → Shows s v
      → Does (ok tt) v (
          bind (pop_writer env fd s) (λ _ t.
            inc_io_ref env.is_socket f (record t { writer_fileobj = store fd f t.writer_fileobj })))
  writer_listed f fd s v d =
      Does-bind tt (ok tt) v v _ (pop_writer env fd s) (pop_writer_lem env a fd s v d) (λ t x.
        inc_lem env a f (record t { writer_fileobj = store fd f t.writer_fileobj }) v
          (Shows-other t v t.world t.reader_fileobj (store fd f t.writer_fileobj) t.io_refs x))

  started_writer :
      (f : FileObj) (h fd i : ℕ) (s : Polls W) (v : Watching)
      → Shows s v
      → lookup fd s.polls ≡ some i
      → Does (ok tt) (set_writer fd (some h) v) (
          bind (start_writing env run_handle handle_exception i h s) (λ _ t.
            bind (pop_writer env fd t) (λ _ t.
              inc_io_ref env.is_socket f
                (record t { writer_fileobj = store fd f t.writer_fileobj }))))
  started_writer f h fd i s v d e =
      let r = start_writing_lem env run_handle handle_exception a fd i h s d.tidy e in
      let v' = set_writer fd (some h) v in
      let t = (start_writing env run_handle handle_exception i h s).1 in
      Does-bind tt (ok tt) v' v' _ (start_writing env run_handle handle_exception i h s)
        (record { returns = r.0; shows = Shows-writer fd (some h) s t v d r.1 })
        (λ t x. writer_listed f fd t v' x)

  pub adds_writer_lem :
      (f : FileObj) (h : ℕ) (s : Polls W) (v : Watching)
      → Shows s v
      → ((m : ℕ) → v.refuses m ≡ trouble env a m)
      → Does
          (answer a.descriptor (does (adds_writer f h)) v).0
          (answer a.descriptor (does (adds_writer f h)) v).1
          (ask env run_handle handle_exception (does (adds_writer f h)) s)
  unfolding ask act gives_true add_writer answer
  adds_writer_lem f h s v d u =
      gives_true_lem (descriptor_of a.descriptor f) v (λ fd. set_writer fd (some h) v)
        (add_writer env run_handle handle_exception f h s)
        (Does-bind tt _ v _ _ (check_closed s) (check_closed_lem env a s v d) (λ t x.
          with_descriptor env a f t v _
            (λ fd. if_usable (v.refuses fd) v (ok tt, set_writer fd (some h) v)) x
            (λ fd t x.
              Does-bind tt _ v _ _ (ensure_fd_no_transport env fd t) (ensure_lem env a fd t v x)
                (λ t x.
                  with_poll env a fd (ok tt) t v (set_writer fd (some h) v) _ x u
                    (λ i t e x. started_writer f h fd i t v x e)))))
