-- ===== src/Polls/Dropping.antt =====
-- uvloop/loop.pyx: a `UVPoll` with no handle is closed and leaves the table.
use uvloop.Prelude.{
  ℕ, ◌≡◌, refl, sym, ap, ◌∙◌, inl, inr, Bool, true, false, Option, none, some, ◌==◌, if◌then◌else◌,
  lookup, delete, lookup-delete, arith, Bool-cases,
}
use mathlib.Core.Path.{subst}
use uvloop.Python.{Outcome, ok}
use uvloop.Polls.{Poll, PollEnv, Polls, update, is_active, close, drop_poll}
use uvloop.Polls.Table.{
  reading_of, writing_of, Tidy, reader_of, writer_of, Became, Became-cast, same_poll, changed,
}

module _ {W : Type 0} (env : PollEnv W) where
  abbrev gone : ℕ → ℕ → Polls W → Polls W
  gone fd i s = record s {
    polls = delete fd s.polls;
    objects =
        update s.objects i
          (record (s.objects i) { alive = false; readable = false; writable = false });
  }

  drop_eq :
      (fd i : ℕ) (s : Polls W)
      → lookup fd s.polls ≡ some i
      → is_active (s.objects i) ≡ false
      → drop_poll env fd i s ≡ (ok tt, gone fd i s)
  unfolding drop_poll close
  drop_eq fd i s e n = ground (arith, e, n)

  gone_lem :
      (fd i : ℕ) (s : Polls W)
      → Tidy s
      → lookup fd s.polls ≡ some i
      → (s.objects i).reading_handle ≡ none
      → (s.objects i).writing_handle ≡ none
      → Became fd none none s.cancelled s (gone fd i s)
  gone_lem fd i s d e r w =
      let look = λ (m : ℕ). lookup-delete m fd s.polls in
      record {
        tidy = record {
          alive = λ m j k. ground (arith, k, look m, d.alive m j, same_poll fd i m j s d e);
          fd_lem = λ m j k. ground (arith, k, look m, d.fd_lem m j, same_poll fd i m j s d e);
          made = λ m j k. ground (arith, k, look m, d.made m j);
        };
        reader = λ m.
            ap (reading_of (gone fd i s).objects) (look m)
            ∙ reads m (fd == m) refl (lookup m s.polls) refl;
        writer = λ m.
            ap (writing_of (gone fd i s).objects) (look m)
            ∙ writes m (fd == m) refl (lookup m s.polls) refl;
        cancelled = λ h. refl;
        closed = refl;
        entries = λ m k. ground (arith, look m, k);
      }
    where
      reads :
          (m : ℕ) (b : Bool)
          → (fd == m) ≡ b
          → (l : Option ℕ) → lookup m s.polls ≡ l
          → reading_of (gone fd i s).objects (if b then none else l)
            ≡ (if m == fd then none else reader_of s m)
      reads m b y none l = ground (arith, l, y)
      reads m b y (some j) l = ground (arith, l, y, same_poll fd i m j s d e l)

      writes :
          (m : ℕ) (b : Bool)
          → (fd == m) ≡ b
          → (l : Option ℕ) → lookup m s.polls ≡ l
          → writing_of (gone fd i s).objects (if b then none else l)
            ≡ (if m == fd then none else writer_of s m)
      writes m b y none l = ground (arith, l, y)
      writes m b y (some j) l = ground (arith, l, y, same_poll fd i m j s d e l)

  no_reader : (p : Poll) → is_active p ≡ false → p.reading_handle ≡ none
  no_reader p n = ground (arith, n)

  no_writer : (p : Poll) → is_active p ≡ false → p.writing_handle ≡ none
  no_writer p n = ground (arith, n)

  -- The entry of a descriptor goes if it has no handle; the handles of all descriptors stay.
  pub drop_lem :
      (fd i : ℕ) (s : Polls W)
      → Tidy s
      → lookup fd s.polls ≡ some i
      → ((drop_poll env fd i s).0 ≡ ok tt)
        × Became fd (reader_of s fd) (writer_of s fd) s.cancelled s (drop_poll env fd i s).1
  unfolding drop_poll
  drop_lem fd i s d e = elim (Bool-cases (is_active (s.objects i))) [
    | inl y ↦ subst Good (sym (keeps y)) (
      refl,
      Became-cast fd p.reading_handle (reader_of s fd) p.writing_handle (writer_of s fd) s.cancelled
          s.cancelled s s
          (changed fd i p s s d e (d.alive fd i e) (d.fd_lem fd i e) (λ j. ground arith) refl refl
            refl)
          (ap (reading_of s.objects) (sym e)) (ap (writing_of s.objects) (sym e)) (λ h. refl),
    )
    | inr n ↦ subst Good (sym (drop_eq fd i s e n)) (
      refl,
      Became-cast fd none (reader_of s fd) none (writer_of s fd) s.cancelled s.cancelled s
          (gone fd i s) (gone_lem fd i s d e (no_reader p n) (no_writer p n))
          (sym (ap (reading_of s.objects) e ∙ no_reader p n))
          (sym (ap (writing_of s.objects) e ∙ no_writer p n)) (λ h. refl),
    )
  ]
    where
      p : Poll
      p = s.objects i

      Good : Outcome (Unit {0}) × Polls W → Type 0
      Good r = (r.0 ≡ ok tt) × Became fd (reader_of s fd) (writer_of s fd) s.cancelled s r.1

      keeps : is_active (s.objects i) ≡ true → drop_poll env fd i s ≡ (ok tt, s)
      keeps y = ground (arith, y)
