-- ===== src/Polls/Starts.antt =====
-- uvloop/handles/poll.pyx: starting to read and to write, where libuv accepts it.
use uvloop.Prelude.{
  ℕ, ◌≡◌, refl, sym, ap, ◌∙◌, Bool, true, Option, none, some, is_some, lookup, arith,
}
use mathlib.Core.Path.{subst}
use uvloop.Errors.{Exception}
use uvloop.Python.{M, Outcome, ok, bind, branch}
use uvloop.Polls.{Poll, PollEnv, Polls, set_poll, cancel}
use uvloop.Polls.Methods.{started, poll_start, start_reading, start_writing}
use uvloop.Polls.Table.{
  reading_of, writing_of, cancel_one, Tidy, reader_of, writer_of, Became, Became-cast, changed,
}
use uvloop.Polls.Finding.{Accepting}

module _ {W : Type 0} (env : PollEnv W) (run_handle : ℕ → M (Polls W) (Unit {0}))
    (handle_exception : Exception → M (Polls W) (Unit {0})) (a : Accepting env) where
  -- A live `UVPoll` is watched.
  pub poll_start_eq :
      (i : ℕ) (r w : Bool) (s : Polls W)
      → (s.objects i).alive ≡ true
      → poll_start env run_handle handle_exception i r w s
        ≡ set_poll i
            (λ p. record p { readable = r; writable = w })
            (record s { world = (env.uv_poll_start (s.objects i).fd r w s.world).1 })
  unfolding poll_start started
  poll_start_eq i r w s e = ground (arith, e, a.starts (s.objects i).fd r w s.world)

  -- A descriptor gets a reader, and the one before is cancelled.
  pub start_reading_lem :
      (fd i h : ℕ) (s : Polls W)
      → Tidy s
      → lookup fd s.polls ≡ some i
      → ((start_reading env run_handle handle_exception i h s).0 ≡ ok tt)
        × Became fd
            (some h)
            (writer_of s fd)
            (cancel_one (reader_of s fd) s.cancelled)
            s
            (start_reading env run_handle handle_exception i h s).1
  unfolding start_reading cancel
  start_reading_lem fd i h s d e = go (s.objects i).reading_handle refl
    where
      then_set : Outcome (Unit {0}) × Polls W → Outcome (Unit {0}) × Polls W
      then_set r = bind r (λ _. set_poll i (λ p. record p { reading_handle = some h }))

      alive : (s.objects i).alive ≡ true
      alive = d.alive fd i e

      Good : Outcome (Unit {0}) × Polls W → Type 0
      Good r =
          (r.0 ≡ ok tt)
          × Became fd (some h) (writer_of s fd) (cancel_one (reader_of s fd) s.cancelled) s r.1

      writer_eq : (s.objects i).writing_handle ≡ writer_of s fd
      writer_eq = ap (writing_of s.objects) (sym e)

      go :
          (o : Option ℕ)
          → (s.objects i).reading_handle ≡ o
          → Good (
              then_set (
                branch
                  (is_some o)
                  (cancel o)
                  (poll_start env run_handle handle_exception i true
                    (is_some (s.objects i).writing_handle))
                  s))
      go (some k) q =
          let p : Poll = record (s.objects i) { reading_handle = some h } in
          let t : Polls W = (then_set (cancel (some k) s)).1 in
          (
            refl,
            Became-cast fd (some h) (some h) p.writing_handle (writer_of s fd) t.cancelled
                (cancel_one (reader_of s fd) s.cancelled) s t
                (changed fd i p s t d e alive (d.fd_lem fd i e) (λ j. refl) refl refl refl) refl
                writer_eq
                (λ m. sym (ap (λ x. cancel_one x s.cancelled m) (ap (reading_of s.objects) e ∙ q))),
          )
      go none q =
          let w = is_some (s.objects i).writing_handle in
          let p : Poll = record (s.objects i) {
            reading_handle = some h;
            readable = true;
            writable = w;
          } in
          let v = (env.uv_poll_start (s.objects i).fd true w s.world).1 in
          let r =
            set_poll i (λ x. record x { readable = true; writable = w }) (record s { world = v }) in
          let t : Polls W = (then_set r).1 in
          subst Good (ap then_set (sym (poll_start_eq i true w s alive))) (
            refl,
            Became-cast fd (some h) (some h) p.writing_handle (writer_of s fd) t.cancelled
                (cancel_one (reader_of s fd) s.cancelled) s t
                (changed fd i p s t d e alive (d.fd_lem fd i e) (λ j. ground arith) refl refl refl)
                refl writer_eq
                (λ m. sym (ap (λ x. cancel_one x s.cancelled m) (ap (reading_of s.objects) e ∙ q))),
          )

  -- A descriptor gets a writer, and the one before is cancelled.
  pub start_writing_lem :
      (fd i h : ℕ) (s : Polls W)
      → Tidy s
      → lookup fd s.polls ≡ some i
      → ((start_writing env run_handle handle_exception i h s).0 ≡ ok tt)
        × Became fd
            (reader_of s fd)
            (some h)
            (cancel_one (writer_of s fd) s.cancelled)
            s
            (start_writing env run_handle handle_exception i h s).1
  unfolding start_writing cancel
  start_writing_lem fd i h s d e = go (s.objects i).writing_handle refl
    where
      then_set : Outcome (Unit {0}) × Polls W → Outcome (Unit {0}) × Polls W
      then_set r = bind r (λ _. set_poll i (λ p. record p { writing_handle = some h }))

      alive : (s.objects i).alive ≡ true
      alive = d.alive fd i e

      Good : Outcome (Unit {0}) × Polls W → Type 0
      Good r =
          (r.0 ≡ ok tt)
          × Became fd (reader_of s fd) (some h) (cancel_one (writer_of s fd) s.cancelled) s r.1

      reader_eq : (s.objects i).reading_handle ≡ reader_of s fd
      reader_eq = ap (reading_of s.objects) (sym e)

      go :
          (o : Option ℕ)
          → (s.objects i).writing_handle ≡ o
          → Good (
              then_set (
                branch
                  (is_some o)
                  (cancel o)
                  (poll_start env run_handle handle_exception i
                    (is_some (s.objects i).reading_handle)
                    true)
                  s))
      go (some k) q =
          let p : Poll = record (s.objects i) { writing_handle = some h } in
          let t : Polls W = (then_set (cancel (some k) s)).1 in
          (
            refl,
            Became-cast fd p.reading_handle (reader_of s fd) (some h) (some h) t.cancelled
                (cancel_one (writer_of s fd) s.cancelled) s t
                (changed fd i p s t d e alive (d.fd_lem fd i e) (λ j. refl) refl refl refl)
                reader_eq refl
                (λ m. sym (ap (λ x. cancel_one x s.cancelled m) (ap (writing_of s.objects) e ∙ q))),
          )
      go none q =
          let w = is_some (s.objects i).reading_handle in
          let p : Poll = record (s.objects i) {
            writing_handle = some h;
            readable = w;
            writable = true;
          } in
          let v = (env.uv_poll_start (s.objects i).fd w true s.world).1 in
          let r =
            set_poll i (λ x. record x { readable = w; writable = true }) (record s { world = v }) in
          let t : Polls W = (then_set r).1 in
          subst Good (ap then_set (sym (poll_start_eq i w true s alive))) (
            refl,
            Became-cast fd p.reading_handle (reader_of s fd) (some h) (some h) t.cancelled
                (cancel_one (writer_of s fd) s.cancelled) s t
                (changed fd i p s t d e alive (d.fd_lem fd i e) (λ j. ground arith) refl refl refl)
                reader_eq refl
                (λ m. sym (ap (λ x. cancel_one x s.cancelled m) (ap (writing_of s.objects) e ∙ q))),
          )
