-- ===== src/Polls/Finding.antt =====
-- uvloop/loop.pyx: finding or making the `UVPoll` of a descriptor.
use uvloop.Prelude.{
  ℕ, suc, ◌≡◌, refl, sym, ap, ◌∙◌, Bool, true, false, Option, none, some, ◌==◌, ltb, if◌then◌else◌,
  lookup, store, lookup-store, arith, ==→eq, ℤ,
}
use mathlib.Core.Path.{subst}
use uvloop.Errors.{Exception, UvError, convert_error, overflow_error}
use uvloop.Python.{Outcome, ok, raise}
use uvloop.FlowControl.{int_limit}
use uvloop.Polls.{init_poll, number, Poll, PollEnv, Polls, update, find_poll, new_poll}
use uvloop.Polls.Table.{reading_of, writing_of, Tidy, reader_of, writer_of}

-- No transport uses a descriptor, an object with `fileno` has a number for each; whether libuv
-- accepts a descriptor, which one that is not open is not, depends on the descriptor only; and to
-- watch one that it accepted succeeds.
pub record Accepting {W : Type 0} (env : PollEnv W) : Type 0 where
  pub descriptor : ℕ → ℤ
  pub refused : ℕ → Option UvError
  pub unused : (fd : ℕ) (w : W) → env.in_use fd w ≡ false
  pub files : (o : ℕ) (w : W) → (env.fileno o w).0 ≡ number (descriptor o)
  pub inits : (fd : ℕ) (w : W) → (env.uv_poll_init fd w).0 ≡ refused fd
  pub starts : (fd : ℕ) (r w : Bool) (v : W) → (env.uv_poll_start fd r w v).0 ≡ none

-- What a descriptor is refused with: it does not fit a C `int`, or libuv reports an error.
abbrev pub trouble_of : Bool → Option UvError → Option Exception
trouble_of false o = some overflow_error
trouble_of true none = none
trouble_of true (some err) = some (convert_error err)

abbrev pub trouble : {W : Type 0} (env : PollEnv W) → Accepting env → ℕ → Option Exception
trouble env a fd = trouble_of (ltb fd int_limit) (a.refused fd)

module _ {W : Type 0} (env : PollEnv W) (a : Accepting env) where
  -- What the entry for a descriptor is when `find_poll` has found or made it.
  pub record Found (fd : ℕ) (s : Polls W) (r : Outcome ℕ × Polls W) : Type 0 where
    pub index : ℕ
    pub returns : r.0 ≡ ok index
    pub tidy : Tidy r.1
    pub entry : lookup fd r.1.polls ≡ some index
    pub reader : (m : ℕ) → reader_of r.1 m ≡ reader_of s m
    pub writer : (m : ℕ) → writer_of r.1 m ≡ writer_of s m
    pub cancelled : (h : ℕ) → r.1.cancelled h ≡ s.cancelled h
    pub closed : r.1.closed ≡ s.closed
    pub entries : (m : ℕ) → (m == fd) ≡ false → lookup m s.polls ≡ none → lookup m r.1.polls ≡ none

  abbrev fresh : ℕ → Poll
  fresh fd = record {
    alive = true;
    fd = fd;
    reading_handle = none;
    writing_handle = none;
    readable = false;
    writable = false;
  }

  abbrev made_poll : ℕ → Polls W → Polls W
  made_poll fd s = record s {
    world = (env.uv_poll_init fd s.world).1;
    objects = update s.objects s.next_object (fresh fd);
    next_object = suc s.next_object;
    polls = store fd s.next_object s.polls;
  }

  new_poll_eq :
      (fd : ℕ) (s : Polls W)
      → trouble env a fd ≡ none
      → new_poll env fd s ≡ (ok s.next_object, made_poll fd s)
  unfolding new_poll init_poll
  new_poll_eq fd s u = go (ltb fd int_limit) (a.refused fd) u refl (a.inits fd s.world)
    where
      go :
          (b : Bool) (o : Option UvError)
          → trouble_of b o ≡ none
          → ltb fd int_limit ≡ b
          → (env.uv_poll_init fd s.world).0 ≡ o
          → new_poll env fd s ≡ (ok s.next_object, made_poll fd s)
      go true none u p q = ground (arith, p, q)
      go true (some err) u p q = absurd (cc u)
      go false o u p q = absurd (cc u)

  -- A descriptor that is refused changes nothing but the world.
  pub new_poll_refused :
      (fd : ℕ) (e : Exception) (s : Polls W)
      → trouble env a fd ≡ some e
      → (w : W) × (new_poll env fd s ≡ (raise e, record s { world = w }))
  unfolding new_poll init_poll
  new_poll_refused fd e s u = go (ltb fd int_limit) (a.refused fd) u refl (a.inits fd s.world)
    where
      go :
          (b : Bool) (o : Option UvError)
          → trouble_of b o ≡ some e
          → ltb fd int_limit ≡ b
          → (env.uv_poll_init fd s.world).0 ≡ o
          → (w : W) × (new_poll env fd s ≡ (raise e, record s { world = w }))
      go true none u p q = absurd (cc u)
      go true (some err) u p q = ((env.uv_poll_init fd s.world).1, ground (arith, p, q, u))
      go false o u p q = (s.world, ground (arith, p, u))

  new-Found :
      (fd : ℕ) (s : Polls W)
      → Tidy s
      → lookup fd s.polls ≡ none
      → Found fd s (ok s.next_object, made_poll fd s)
  new-Found fd s d e =
      let look = λ (m : ℕ). lookup-store m fd s.next_object s.polls in
      record {
        index = s.next_object;
        returns = refl;
        tidy = record {
          alive = λ m j k. ground (arith, k, look m, d.alive m j, d.made m j);
          fd_lem = λ m j k. ground (arith, k, look m, d.fd_lem m j, d.made m j);
          made = λ m j k. ground (arith, k, look m, d.made m j);
        };
        entry = ground (arith, look fd);
        reader = λ m.
            ap (reading_of (made_poll fd s).objects) (look m)
            ∙ reads m (fd == m) refl (lookup m s.polls) refl;
        writer = λ m.
            ap (writing_of (made_poll fd s).objects) (look m)
            ∙ writes m (fd == m) refl (lookup m s.polls) refl;
        cancelled = λ h. refl;
        closed = refl;
        entries = λ m n k. ground (arith, n, k, look m);
      }
    where
      reads :
          (m : ℕ) (b : Bool)
          → (fd == m) ≡ b
          → (l : Option ℕ) → lookup m s.polls ≡ l
          → reading_of (made_poll fd s).objects (if b then some s.next_object else l)
            ≡ reading_of s.objects l
      reads m true y none l = ground arith
      reads m true y (some j) l = absurd (cc (l, ap (λ x. lookup x s.polls) (==→eq fd m y), e))
      reads m false y none l = refl
      reads m false y (some j) l = ground (arith, d.made m j l)

      writes :
          (m : ℕ) (b : Bool)
          → (fd == m) ≡ b
          → (l : Option ℕ) → lookup m s.polls ≡ l
          → writing_of (made_poll fd s).objects (if b then some s.next_object else l)
            ≡ writing_of s.objects l
      writes m true y none l = ground arith
      writes m true y (some j) l = absurd (cc (l, ap (λ x. lookup x s.polls) (==→eq fd m y), e))
      writes m false y none l = refl
      writes m false y (some j) l = ground (arith, d.made m j l)

  pub find_lem :
      (fd : ℕ) (s : Polls W) → Tidy s → trouble env a fd ≡ none → Found fd s (find_poll env fd s)
  unfolding find_poll
  find_lem fd s d u = go (lookup fd s.polls) refl
    where
      go :
          (o : Option ℕ)
          → lookup fd s.polls ≡ o
          → Found fd s (elim o as (λ x. Outcome ℕ × Polls W) [
            | some i ↦ (ok i, s)
            | none ↦ new_poll env fd s
          ])
      go none e = subst (Found fd s) (sym (new_poll_eq fd s u)) (new-Found fd s d e)
      go (some i) e = record {
        index = i;
        returns = refl;
        tidy = d;
        entry = e;
        reader = λ m. refl;
        writer = λ m. refl;
        cancelled = λ h. refl;
        closed = refl;
        entries = λ m n k. k;
      }

  -- A descriptor that is refused and not in the table gets no entry.
  pub find_poll_refused :
      (fd : ℕ) (e : Exception) (s : Polls W)
      → lookup fd s.polls ≡ none
      → trouble env a fd ≡ some e
      → (w : W) × (find_poll env fd s ≡ (raise e, record s { world = w }))
  unfolding find_poll
  find_poll_refused fd e s n u =
      subst
        (λ o.
          (w : W) × ((elim o as (λ x. Outcome ℕ × Polls W) [
            | some i ↦ (ok i, s)
            | none ↦ new_poll env fd s
          ])
            ≡ (raise e, record s { world = w })))
        (sym n) (new_poll_refused fd e s u)
