-- ===== src/Polls/Stops.antt =====
-- uvloop/handles/poll.pyx: stopping to read and to write, where libuv accepts it.
use uvloop.Prelude.{
  ℕ, ◌≡◌, refl, sym, ap, ◌∙◌, Bool, true, false, Option, none, some, is_some, lookup, arith,
}
use mathlib.Core.Path.{subst}
use uvloop.Errors.{Exception}
use uvloop.Python.{M, ◌>>◌, Outcome, ok, raise, bind, pure, branch}
use uvloop.Polls.{Poll, PollEnv, Polls, update, set_poll, cancel, stop, poll_stop}
use uvloop.Polls.Methods.{poll_start, stop_reading, stop_writing}
use uvloop.Polls.Table.{
  reading_of, writing_of, cancel_one, Tidy, reader_of, writer_of, Became, Became-cast, changed,
}
use uvloop.Polls.Finding.{Accepting}
use uvloop.Polls.Starts.{poll_start_eq}

module _ {W : Type 0} where
  -- `stop` of a `UVPoll` with no handle ends the watching, and cancels nothing.
  record Idle (i : ℕ) (s : Polls W) (r : Outcome (Unit {0}) × Polls W) : Type 0 where
    returns : r.0 ≡ ok tt
    objects :
        (j : ℕ)
        → r.1.objects j
          ≡ update s.objects i (record (s.objects i) { readable = false; writable = false }) j
    cancelled : (h : ℕ) → r.1.cancelled h ≡ s.cancelled h
    polls : r.1.polls ≡ s.polls
    next : r.1.next_object ≡ s.next_object
    closed : r.1.closed ≡ s.closed

  stop-Idle :
      (i : ℕ) (s : Polls W)
      → (s.objects i).alive ≡ true
      → (s.objects i).reading_handle ≡ none
      → (s.objects i).writing_handle ≡ none
      → Idle i s (stop i s)
  unfolding stop cancel poll_stop
  stop-Idle i s a r w = record {
    returns = ground (arith, a, r, w);
    objects = λ j. ground (arith, a, r, w);
    cancelled = λ h. ground (arith, a, r, w);
    polls = ground (arith, a, r, w);
    next = ground (arith, a, r, w);
    closed = ground (arith, a, r, w);
  }

module _ {W : Type 0} (env : PollEnv W) (run_handle : ℕ → M (Polls W) (Unit {0}))
    (handle_exception : Exception → M (Polls W) (Unit {0})) (a : Accepting env) where
  -- A descriptor loses its reader, which is cancelled.
  pub stop_reading_lem :
      (fd i : ℕ) (s : Polls W)
      → Tidy s
      → lookup fd s.polls ≡ some i
      → ((stop_reading env run_handle handle_exception i s).0 ≡ ok (is_some (reader_of s fd)))
        × Became fd none
            (writer_of s fd)
            (cancel_one (reader_of s fd) s.cancelled)
            s
            (stop_reading env run_handle handle_exception i s).1
        × ((stop_reading env run_handle handle_exception i s).1.polls ≡ s.polls)
  unfolding stop_reading cancel
  stop_reading_lem fd i s d e = go (s.objects i).reading_handle refl
    where
      Good : Outcome Bool × Polls W → Type 0
      Good r =
          (r.0 ≡ ok (is_some (reader_of s fd)))
          × Became fd none (writer_of s fd) (cancel_one (reader_of s fd) s.cancelled) s r.1
          × (r.1.polls ≡ s.polls)

      reader_eq : (o : Option ℕ) → (s.objects i).reading_handle ≡ o → o ≡ reader_of s fd
      reader_eq o q = sym q ∙ ap (reading_of s.objects) (sym e)

      f : Poll → Poll
      f p = record p { reading_handle = none }

      -- The state when the reader is cancelled.
      t : ℕ → Polls W
      t k = (set_poll i f (cancel (some k) s).1).1

      made :
          (k : ℕ) (p : Poll) (v : Polls W)
          → (s.objects i).reading_handle ≡ some k
          → p.alive ≡ true
          → p.fd ≡ fd
          → p.reading_handle ≡ none
          → p.writing_handle ≡ (s.objects i).writing_handle
          → ((j : ℕ) → v.objects j ≡ update s.objects i p j)
          → ((h : ℕ) → v.cancelled h ≡ update s.cancelled k true h)
          → v.polls ≡ s.polls
          → v.next_object ≡ s.next_object
          → v.closed ≡ s.closed
          → Good (ok true, v)
      made k p v q al fe pr pw o c x y z = (
        ap (λ b. ok (is_some b)) (reader_eq (some k) q),
        Became-cast fd p.reading_handle none p.writing_handle (writer_of s fd) v.cancelled
            (cancel_one (reader_of s fd) s.cancelled) s v (changed fd i p s v d e al fe o x y z) pr
            (pw ∙ ap (writing_of s.objects) (sym e))
            (λ h. c h ∙ ap (λ b. cancel_one b s.cancelled h) (reader_eq (some k) q)),
        x,
      )

      at_i : (k : ℕ) → (t k).objects i ≡ f (s.objects i)
      at_i k = ground arith

      alive : (k : ℕ) → ((t k).objects i).alive ≡ true
      alive k = ap (λ p. p.alive) (at_i k) ∙ d.alive fd i e

      then_true : Outcome (Unit {0}) × Polls W → Type 0
      then_true r = Good (bind r (λ _. pure true))

      idle :
          (k : ℕ) (r : Outcome (Unit {0}) × Polls W)
          → (s.objects i).reading_handle ≡ some k
          → Idle i (t k) r
          → then_true r
      idle k (ok u, v) q n =
          made k
            (record (s.objects i) { reading_handle = none; readable = false; writable = false }) v q
            (d.alive fd i e) (d.fd_lem fd i e) refl refl (λ j. n.objects j ∙ ground arith)
            n.cancelled n.polls n.next n.closed
      idle k (raise x, v) q n = ground (arith, n.returns)

      ends :
          (k : ℕ) (w : Option ℕ)
          → (s.objects i).reading_handle ≡ some k
          → (s.objects i).writing_handle ≡ w
          → Good (
              bind
                (branch
                  (is_some w)
                  (poll_start env run_handle handle_exception i false true)
                  (stop i)
                  (t k))
                (λ _. pure true))
      ends k (some m) q u =
          let v = (env.uv_poll_start ((t k).objects i).fd false true (t k).world).1 in
          let r =
            set_poll i (λ p. record p { readable = false; writable = true })
              (record (t k) { world = v }) in
          subst then_true
            (sym (poll_start_eq env run_handle handle_exception a i false true (t k) (alive k)))
            (made k
              (record (s.objects i) { reading_handle = none; readable = false; writable = true })
              r.1 q (d.alive fd i e) (d.fd_lem fd i e) refl refl (λ j. ground arith) (λ h. refl)
              refl refl refl)
      ends k none q u = idle k (stop i (t k)) q (
          stop-Idle i (t k) (alive k) (ap (λ p. p.reading_handle) (at_i k))
            (ap (λ p. p.writing_handle) (at_i k) ∙ u))

      go :
          (o : Option ℕ)
          → (s.objects i).reading_handle ≡ o
          → Good (
              branch
                (is_some o)
                (do
                  cancel o
                  set_poll i (λ p. record p { reading_handle = none })
                  branch
                      (is_some (s.objects i).writing_handle)
                      (poll_start env run_handle handle_exception i false true)
                      (stop i)
                  pure true)
                (pure false)
                s)
      go none q = (
        ap (λ b. ok (is_some b)) (reader_eq none q),
        Became-cast fd (s.objects i).reading_handle none (s.objects i).writing_handle
            (writer_of s fd) s.cancelled (cancel_one (reader_of s fd) s.cancelled) s s
            (changed fd i (s.objects i) s s d e (d.alive fd i e) (d.fd_lem fd i e)
              (λ j. ground arith) refl refl refl)
            q (ap (writing_of s.objects) (sym e))
            (λ h. ap (λ b. cancel_one b s.cancelled h) (reader_eq none q)),
        refl,
      )
      go (some k) q = ends k (s.objects i).writing_handle q refl

  -- A descriptor loses its writer, which is cancelled.
  pub stop_writing_lem :
      (fd i : ℕ) (s : Polls W)
      → Tidy s
      → lookup fd s.polls ≡ some i
      → ((stop_writing env run_handle handle_exception i s).0 ≡ ok (is_some (writer_of s fd)))
        × Became fd
            (reader_of s fd)
            none
            (cancel_one (writer_of s fd) s.cancelled)
            s
            (stop_writing env run_handle handle_exception i s).1
        × ((stop_writing env run_handle handle_exception i s).1.polls ≡ s.polls)
  unfolding stop_writing cancel
  stop_writing_lem fd i s d e = go (s.objects i).writing_handle refl
    where
      Good : Outcome Bool × Polls W → Type 0
      Good r =
          (r.0 ≡ ok (is_some (writer_of s fd)))
          × Became fd (reader_of s fd) none (cancel_one (writer_of s fd) s.cancelled) s r.1
          × (r.1.polls ≡ s.polls)

      writer_eq : (o : Option ℕ) → (s.objects i).writing_handle ≡ o → o ≡ writer_of s fd
      writer_eq o q = sym q ∙ ap (writing_of s.objects) (sym e)

      f : Poll → Poll
      f p = record p { writing_handle = none }

      -- The state when the writer is cancelled.
      t : ℕ → Polls W
      t k = (set_poll i f (cancel (some k) s).1).1

      made :
          (k : ℕ) (p : Poll) (v : Polls W)
          → (s.objects i).writing_handle ≡ some k
          → p.alive ≡ true
          → p.fd ≡ fd
          → p.writing_handle ≡ none
          → p.reading_handle ≡ (s.objects i).reading_handle
          → ((j : ℕ) → v.objects j ≡ update s.objects i p j)
          → ((h : ℕ) → v.cancelled h ≡ update s.cancelled k true h)
          → v.polls ≡ s.polls
          → v.next_object ≡ s.next_object
          → v.closed ≡ s.closed
          → Good (ok true, v)
      made k p v q al fe pr pw o c x y z = (
        ap (λ b. ok (is_some b)) (writer_eq (some k) q),
        Became-cast fd p.reading_handle (reader_of s fd) p.writing_handle none v.cancelled
            (cancel_one (writer_of s fd) s.cancelled) s v (changed fd i p s v d e al fe o x y z)
            (pw ∙ ap (reading_of s.objects) (sym e)) pr
            (λ h. c h ∙ ap (λ b. cancel_one b s.cancelled h) (writer_eq (some k) q)),
        x,
      )

      at_i : (k : ℕ) → (t k).objects i ≡ f (s.objects i)
      at_i k = ground arith

      alive : (k : ℕ) → ((t k).objects i).alive ≡ true
      alive k = ap (λ p. p.alive) (at_i k) ∙ d.alive fd i e

      then_true : Outcome (Unit {0}) × Polls W → Type 0
      then_true r = Good (bind r (λ _. pure true))

      idle :
          (k : ℕ) (r : Outcome (Unit {0}) × Polls W)
          → (s.objects i).writing_handle ≡ some k
          → Idle i (t k) r
          → then_true r
      idle k (ok u, v) q n =
          made k
            (record (s.objects i) { writing_handle = none; readable = false; writable = false }) v q
            (d.alive fd i e) (d.fd_lem fd i e) refl refl (λ j. n.objects j ∙ ground arith)
            n.cancelled n.polls n.next n.closed
      idle k (raise x, v) q n = ground (arith, n.returns)

      ends :
          (k : ℕ) (w : Option ℕ)
          → (s.objects i).writing_handle ≡ some k
          → (s.objects i).reading_handle ≡ w
          → Good (
              bind
                (branch
                  (is_some w)
                  (poll_start env run_handle handle_exception i true false)
                  (stop i)
                  (t k))
                (λ _. pure true))
      ends k (some m) q u =
          let v = (env.uv_poll_start ((t k).objects i).fd true false (t k).world).1 in
          let r =
            set_poll i (λ p. record p { readable = true; writable = false })
              (record (t k) { world = v }) in
          subst then_true
            (sym (poll_start_eq env run_handle handle_exception a i true false (t k) (alive k)))
            (made k
              (record (s.objects i) { writing_handle = none; readable = true; writable = false })
              r.1 q (d.alive fd i e) (d.fd_lem fd i e) refl refl (λ j. ground arith) (λ h. refl)
              refl refl refl)
      ends k none q u = idle k (stop i (t k)) q (
          stop-Idle i (t k) (alive k) (ap (λ p. p.reading_handle) (at_i k) ∙ u)
            (ap (λ p. p.writing_handle) (at_i k)))

      go :
          (o : Option ℕ)
          → (s.objects i).writing_handle ≡ o
          → Good (
              branch
                (is_some o)
                (do
                  cancel o
                  set_poll i (λ p. record p { writing_handle = none })
                  branch
                      (is_some (s.objects i).reading_handle)
                      (poll_start env run_handle handle_exception i true false)
                      (stop i)
                  pure true)
                (pure false)
                s)
      go none q = (
        ap (λ b. ok (is_some b)) (writer_eq none q),
        Became-cast fd (s.objects i).reading_handle (reader_of s fd) (s.objects i).writing_handle
            none s.cancelled (cancel_one (writer_of s fd) s.cancelled) s s
            (changed fd i (s.objects i) s s d e (d.alive fd i e) (d.fd_lem fd i e)
              (λ j. ground arith) refl refl refl)
            (ap (reading_of s.objects) (sym e)) q
            (λ h. ap (λ b. cancel_one b s.cancelled h) (writer_eq none q)),
        refl,
      )
      go (some k) q = ends k (s.objects i).reading_handle q refl
