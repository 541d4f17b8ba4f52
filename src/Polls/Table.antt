-- ===== src/Polls/Table.antt =====
-- uvloop/loop.pyx: the table of `UVPoll`s, where libuv accepts what it is asked to watch.
use uvloop.Prelude.{
  ℕ, ◌<◌, ◌≡◌, refl, sym, ap, ◌∙◌, inl, inr, Bool, true, false, Option, none, some, ◌==◌,
  if◌then◌else◌, lookup, arith, Bool-cases, ==→eq,
}
use uvloop.Polls.{Poll, Polls, update}

-- The handles that a descriptor has.
abbrev pub reading_of : (ℕ → Poll) → Option ℕ → Option ℕ
reading_of o none = none
reading_of o (some i) = (o i).reading_handle

abbrev pub writing_of : (ℕ → Poll) → Option ℕ → Option ℕ
writing_of o none = none
writing_of o (some i) = (o i).writing_handle

abbrev pub cancel_one : Option ℕ → (ℕ → Bool) → ℕ → Bool
cancel_one none c h = c h
cancel_one (some k) c h = if h == k then true else c h

module _ {W : Type 0} where
  -- An entry of the table is a `UVPoll` of that descriptor that is not closed.
  pub record Tidy (s : Polls W) : Type 0 where
    pub alive : (fd i : ℕ) → lookup fd s.polls ≡ some i → (s.objects i).alive ≡ true
    pub fd_lem : (fd i : ℕ) → lookup fd s.polls ≡ some i → (s.objects i).fd ≡ fd
    pub made : (fd i : ℕ) → lookup fd s.polls ≡ some i → i < s.next_object

  abbrev pub reader_of : Polls W → ℕ → Option ℕ
  reader_of s fd = reading_of s.objects (lookup fd s.polls)

  abbrev pub writer_of : Polls W → ℕ → Option ℕ
  writer_of s fd = writing_of s.objects (lookup fd s.polls)

  -- From `s` to `t` descriptor `fd` gets the handles `r` and `w`, and handles are cancelled.
  pub record Became (fd : ℕ) (r w : Option ℕ) (c : ℕ → Bool) (s t : Polls W) : Type 0 where
    pub tidy : Tidy t
    pub reader : (m : ℕ) → reader_of t m ≡ (if m == fd then r else reader_of s m)
    pub writer : (m : ℕ) → writer_of t m ≡ (if m == fd then w else writer_of s m)
    pub cancelled : (h : ℕ) → t.cancelled h ≡ c h
    pub closed : t.closed ≡ s.closed
    pub entries : (m : ℕ) → lookup m s.polls ≡ none → lookup m t.polls ≡ none

  pub Became-cast :
      (fd : ℕ) (r r' w w' : Option ℕ) (c c' : ℕ → Bool) (s t : Polls W)
      → Became fd r w c s t
      → r ≡ r'
      → w ≡ w'
      → ((h : ℕ) → c h ≡ c' h)
      → Became fd r' w' c' s t
  Became-cast fd r r' w w' c c' s t b x y z = record {
    tidy = b.tidy;
    reader = λ m. b.reader m ∙ ap (λ o. if m == fd then o else reader_of s m) x;
    writer = λ m. b.writer m ∙ ap (λ o. if m == fd then o else writer_of s m) y;
    cancelled = λ h. b.cancelled h ∙ z h;
    closed = b.closed;
    entries = b.entries;
  }

  -- A descriptor has the `UVPoll` that changes exactly if it is the one that changes.
  pub same_poll :
      (fd i m j : ℕ) (s : Polls W)
      → Tidy s
      → lookup fd s.polls ≡ some i
      → lookup m s.polls ≡ some j
      → (j == i) ≡ (m == fd)
  same_poll fd i m j s d e l = elim (Bool-cases (m == fd)) [
    | inl y ↦ ground (arith, y, sym l ∙ ap (λ x. lookup x s.polls) (==→eq m fd y) ∙ e)
    | inr n ↦ elim (Bool-cases (j == i)) [
      | inl z ↦
          absurd (ground (arith, n, d.fd_lem m j l, d.fd_lem fd i e, ap s.objects (==→eq j i z)))
      | inr z ↦ n' z n
    ]
  ]
    where
      n' : (j == i) ≡ false → (m == fd) ≡ false → (j == i) ≡ (m == fd)
      n' a b = a ∙ sym b

  -- The `UVPoll` of a descriptor changes.
  pub changed :
      (fd i : ℕ) (p : Poll) (s t : Polls W)
      → Tidy s
      → lookup fd s.polls ≡ some i
      → p.alive ≡ true
      → p.fd ≡ fd
      → ((j : ℕ) → t.objects j ≡ update s.objects i p j)
      → t.polls ≡ s.polls
      → t.next_object ≡ s.next_object
      → t.closed ≡ s.closed
      → Became fd p.reading_handle p.writing_handle t.cancelled s t
  changed fd i p s t d e a b o q n c = record {
    tidy = record {
      alive = λ m j k.
          ap (λ x. x.alive) (o j) ∙ ground (arith, a, d.alive m j (sym (ap (lookup m) q) ∙ k));
      fd_lem = λ m j k.
          ap (λ x. x.fd) (o j)
          ∙ ground (
            arith,
            b,
            d.fd_lem m j (sym (ap (lookup m) q) ∙ k),
            same_poll fd i m j s d e (sym (ap (lookup m) q) ∙ k),
          );
      made = λ m j k. omega (arith, n, d.made m j (sym (ap (lookup m) q) ∙ k));
    };
    reader = λ m. ap (reading_of t.objects) (ap (lookup m) q) ∙ reads m (lookup m s.polls) refl;
    writer = λ m. ap (writing_of t.objects) (ap (lookup m) q) ∙ writes m (lookup m s.polls) refl;
    cancelled = λ h. refl;
    closed = c;
    entries = λ m k. ap (lookup m) q ∙ k;
  }
    where
      no_entry : (m : ℕ) → lookup m s.polls ≡ none → (m == fd) ≡ false
      no_entry m l = elim (Bool-cases (m == fd)) [
        | inl y ↦ absurd (cc (l, ap (λ x. lookup x s.polls) (==→eq m fd y), e))
        | inr n ↦ n
      ]

      reads :
          (m : ℕ) (l : Option ℕ)
          → lookup m s.polls ≡ l
          → reading_of t.objects l ≡ (if m == fd then p.reading_handle else reading_of s.objects l)
      reads m none l = rw (no_entry m l) refl
      reads m (some j) l =
          ap (λ x. x.reading_handle) (o j) ∙ ground (arith, same_poll fd i m j s d e l)

      writes :
          (m : ℕ) (l : Option ℕ)
          → lookup m s.polls ≡ l
          → writing_of t.objects l ≡ (if m == fd then p.writing_handle else writing_of s.objects l)
      writes m none l = rw (no_entry m l) refl
      writes m (some j) l =
          ap (λ x. x.writing_handle) (o j) ∙ ground (arith, same_poll fd i m j s d e l)
