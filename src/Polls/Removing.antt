-- ===== src/Polls/Removing.antt =====
-- uvloop/loop.pyx: `_remove_reader` and `_remove_writer` against the table.
use uvloop.Prelude.{ℕ, ◌≡◌, refl, sym, ap, ◌∙◌, Bool, false, Option, none, some, is_some, lookup}
use mathlib.Core.Path.{subst}
use uvloop.Errors.{Exception}
use uvloop.Python.{M, ◌>>=◌, ◌>>◌, ok, bind, pure, branch}
use uvloop.Polls.{
  FileObj, PollEnv, Polls, removes_reader, removes_writer, ensure_fd_no_transport, pop_reader,
  pop_writer, drop_poll,
}
use uvloop.Polls.Methods.{
  act, remove_reader, remove_writer, remove_watch, stop_reading, stop_writing,
}
use uvloop.Polls.Table.{reading_of, writing_of}
use uvloop.Polls.Finding.{Accepting}
use uvloop.Polls.Stops.{stop_reading_lem, stop_writing_lem}
use uvloop.Polls.Dropping.{drop_lem}
use uvloop.Polls.Asking.{ensure_lem, with_descriptor, pop_reader_lem, pop_writer_lem}
use uvloop.Polls.Watching.{does, Watching, set_reader, set_writer, answer, ask}
use uvloop.Polls.Registry.{
  Shows, Does, Does-bind, Shows-reader, Shows-writer, Shows-kept, Shows-no_reader, Shows-no_writer,
}

module _ {W : Type 0} (env : PollEnv W) (run_handle : ℕ → M (Polls W) (Unit {0}))
    (handle_exception : Exception → M (Polls W) (Unit {0})) (a : Accepting env) where
  dropped :
      (fd i : ℕ) (b : Bool) (s : Polls W) (v : Watching)
      → Shows s v
      → lookup fd s.polls ≡ some i
      → Does (ok b) v (bind (drop_poll env fd i s) (λ _. pure b))
  dropped fd i b s v d e =
      let r = drop_lem env fd i s d.tidy e in
      Does-bind tt (ok b) v v _ (drop_poll env fd i s)
        (record { returns = r.0; shows = Shows-kept fd s (drop_poll env fd i s).1 v d r.1 })
        (λ t x. record { returns = refl; shows = x })

  -- A descriptor that has no `UVPoll` has no handle, and `stop_watch` keeps the `UVPoll` of one.
  removed :
      (fd : ℕ) (stop_watch : ℕ → M (Polls W) Bool) (o : Option ℕ) (s : Polls W) (v v' : Watching)
      → Shows s v
      → (lookup fd s.polls ≡ none → Does (ok (is_some o)) v' (ok false, s))
      → ((i : ℕ) → lookup fd s.polls ≡ some i → Does (ok (is_some o)) v' (stop_watch i s))
      → ((i : ℕ) → lookup fd s.polls ≡ some i → (stop_watch i s).1.polls ≡ s.polls)
      → Does (ok (is_some o)) v' (remove_watch env run_handle handle_exception stop_watch fd s)
  unfolding remove_watch
  removed fd stop_watch o s v v' d n e p =
      subst (λ b. Does (ok (is_some o)) v' (branch b (pure false) (rest (lookup fd s.polls)) s))
        (sym d.opened) (go (lookup fd s.polls) refl)
    where
      rest : Option ℕ → M (Polls W) Bool
      rest l = elim l as (λ x. M (Polls W) Bool) [
        | none ↦ pure false
        | some i ↦ do result ← stop_watch i; drop_poll env fd i; pure result
      ]

      go : (l : Option ℕ) → lookup fd s.polls ≡ l → Does (ok (is_some o)) v' (rest l s)
      go none l = n l
      go (some i) l =
          let x = e i l in
          subst
            (λ r.
              Does (ok (is_some o)) v'
                (bind (r, (stop_watch i s).1) (λ b. drop_poll env fd i >> pure b)))
            (sym x.returns)
            (dropped fd i (is_some o) (stop_watch i s).1 v' x.shows (ap (lookup fd) (p i l) ∙ l))

  removed_reader :
      (fd : ℕ) (s : Polls W) (v : Watching)
      → Shows s v
      → Does (ok (is_some (v.readers fd))) (set_reader fd none v) (
          remove_watch env run_handle handle_exception
            (stop_reading env run_handle handle_exception)
            fd
            s)
  removed_reader fd s v d =
      removed fd (stop_reading env run_handle handle_exception) (v.readers fd) s v
        (set_reader fd none v) d
        (λ l.
          let n = sym (d.reader fd) ∙ ap (reading_of s.objects) l in
          record { returns = ap (λ o. ok (is_some o)) (sym n); shows = Shows-no_reader fd s v d n })
        (λ i l.
          let r = stop_reading_lem env run_handle handle_exception a fd i s d.tidy l in
          record {
            returns = r.0 ∙ ap (λ o. ok (is_some o)) (d.reader fd);
            shows =
                Shows-reader fd none s (stop_reading env run_handle handle_exception i s).1 v d r.1;
          })
        (λ i l. (stop_reading_lem env run_handle handle_exception a fd i s d.tidy l).2)

  pub removes_reader_lem :
      (f : FileObj) (s : Polls W) (v : Watching)
      → Shows s v
      → Does
          (answer a.descriptor (does (removes_reader f)) v).0
          (answer a.descriptor (does (removes_reader f)) v).1
          (ask env run_handle handle_exception (does (removes_reader f)) s)
  unfolding ask act remove_reader answer
  removes_reader_lem f s v d =
      with_descriptor env a f s v _ (λ fd. (ok (is_some (v.readers fd)), set_reader fd none v)) d
        (λ fd t x.
          let o = ok (is_some (v.readers fd)) in
          Does-bind tt o v (set_reader fd none v) _ (ensure_fd_no_transport env fd t)
            (ensure_lem env a fd t v x)
            (λ t x.
              Does-bind tt o v (set_reader fd none v) _ (pop_reader env fd t)
                (pop_reader_lem env a fd t v x) (λ t x. removed_reader fd t v x)))

  removed_writer :
      (fd : ℕ) (s : Polls W) (v : Watching)
      → Shows s v
      → Does (ok (is_some (v.writers fd))) (set_writer fd none v) (
          remove_watch env run_handle handle_exception
            (stop_writing env run_handle handle_exception)
            fd
            s)
  removed_writer fd s v d =
      removed fd (stop_writing env run_handle handle_exception) (v.writers fd) s v
        (set_writer fd none v) d
        (λ l.
          let n = sym (d.writer fd) ∙ ap (writing_of s.objects) l in
          record { returns = ap (λ o. ok (is_some o)) (sym n); shows = Shows-no_writer fd s v d n })
        (λ i l.
          let r = stop_writing_lem env run_handle handle_exception a fd i s d.tidy l in
          record {
            returns = r.0 ∙ ap (λ o. ok (is_some o)) (d.writer fd);
            shows =
                Shows-writer fd none s (stop_writing env run_handle handle_exception i s).1 v d r.1;
          })
        (λ i l. (stop_writing_lem env run_handle handle_exception a fd i s d.tidy l).2)

  pub removes_writer_lem :
      (f : FileObj) (s : Polls W) (v : Watching)
      → Shows s v
      → Does
          (answer a.descriptor (does (removes_writer f)) v).0
          (answer a.descriptor (does (removes_writer f)) v).1
          (ask env run_handle handle_exception (does (removes_writer f)) s)
  unfolding ask act remove_writer answer
  removes_writer_lem f s v d =
      with_descriptor env a f s v _ (λ fd. (ok (is_some (v.writers fd)), set_writer fd none v)) d
        (λ fd t x.
          let o = ok (is_some (v.writers fd)) in
          Does-bind tt o v (set_writer fd none v) _ (ensure_fd_no_transport env fd t)
            (ensure_lem env a fd t v x)
            (λ t x.
              Does-bind tt o v (set_writer fd none v) _ (pop_writer env fd t)
                (pop_writer_lem env a fd t v x) (λ t x. removed_writer fd t v x)))
