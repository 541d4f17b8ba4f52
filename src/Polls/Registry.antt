-- ===== src/Polls/Registry.antt =====
-- uvloop/loop.pyx: a loop that shows a table of readers and writers.
use uvloop.Prelude.{
  ℕ, ◌≡◌, refl, sym, ap, ◌∙◌, inl, inr, Bool, true, false, List, Option, none, some, ◌==◌,
  if◌then◌else◌, Bool-cases, lookup, ==→eq,
}
use mathlib.Core.Path.{subst}
use uvloop.Errors.{Exception}
use uvloop.Python.{M, Outcome, ok, bind, whenever}
use uvloop.Polls.{FileObj, Polls}
use uvloop.Polls.Table.{cancel_one, Tidy, reader_of, writer_of, Became}
use uvloop.Polls.Watching.{Watching, set_reader, set_writer}

own_entry :
    (f : ℕ → Option ℕ) (fd : ℕ) (o : Option ℕ)
    → o ≡ f fd
    → (m : ℕ) → (if m == fd then o else f m) ≡ f m
own_entry f fd o e m = elim (Bool-cases (m == fd)) [
  | inl y ↦ rw y (e ∙ sym (ap f (==→eq m fd y)))
  | inr n ↦ rw n refl
]

cancel_eq :
    (o : Option ℕ) (c c' : ℕ → Bool)
    → ((h : ℕ) → c h ≡ c' h)
    → (h : ℕ) → cancel_one o c h ≡ cancel_one o c' h
cancel_eq none c c' e h = e h
cancel_eq (some k) c c' e h = ap (λ b. if h == k then true else b) (e h)

module _ {W : Type 0} where
  -- An open loop whose table is `v`.
  pub record Shows (s : Polls W) (v : Watching) : Type 0 where
    pub tidy : Tidy s
    pub opened : s.closed ≡ false
    pub reader : (m : ℕ) → reader_of s m ≡ v.readers m
    pub writer : (m : ℕ) → writer_of s m ≡ v.writers m
    pub cancelled : (h : ℕ) → s.cancelled h ≡ v.cancelled h
    pub clear : (m : ℕ) (e : Exception) → v.refuses m ≡ some e → lookup m s.polls ≡ none

  -- A computation ends with the outcome `o` in a state whose table is `v`.
  pub record Does {A : Type 0} (o : Outcome A) (v : Watching) (r : Outcome A × Polls W)
      : Type 0 where
    pub returns : r.0 ≡ o
    pub shows : Shows r.1 v

  pub Does-bind :
      {A B : Type 0} (a : A) (o : Outcome B) (v w : Watching) (f : A → M (Polls W) B)
      (r : Outcome A × Polls W)
      → Does (ok a) v r
      → ((t : Polls W) → Shows t v → Does o w (f a t))
      → Does o w (bind r f)
  Does-bind a o v w f r d k =
      subst (Does o w) (ap (λ x. bind (x, r.1) f) (sym d.returns)) (k r.1 d.shows)

  pub Does-whenever :
      (b : Bool) (m : M (Polls W) (Unit {0})) (s : Polls W) (v : Watching)
      → Shows s v
      → Does (ok tt) v (m s)
      → Does (ok tt) v (whenever b m s)
  Does-whenever true m s v d e = e
  Does-whenever false m s v d e = record { returns = refl; shows = d }

  -- The table does not depend on the other fields.
  pub Shows-other :
      (s : Polls W) (v : Watching) (w : W) (rs ws : List (ℕ × FileObj)) (refs : ℕ → ℕ)
      → Shows s v
      → Shows (record s { world = w; reader_fileobj = rs; writer_fileobj = ws; io_refs = refs }) v
  Shows-other s v w rs ws refs d = record {
    tidy = record { alive = d.tidy.alive; fd_lem = d.tidy.fd_lem; made = d.tidy.made };
    opened = d.opened;
    reader = d.reader;
    writer = d.writer;
    cancelled = d.cancelled;
    clear = d.clear;
  }

  -- The handles of a descriptor change.
  Shows-Became :
      (fd : ℕ) (r w : Option ℕ) (c : ℕ → Bool) (s t : Polls W) (v v' : Watching)
      → Shows s v
      → Became fd r w c s t
      → ((m : ℕ) → (if m == fd then r else v.readers m) ≡ v'.readers m)
      → ((m : ℕ) → (if m == fd then w else v.writers m) ≡ v'.writers m)
      → ((h : ℕ) → c h ≡ v'.cancelled h)
      → v'.refuses ≡ v.refuses
      → Shows t v'
  Shows-Became fd r w c s t v v' d b x y z u = record {
    tidy = b.tidy;
    opened = b.closed ∙ d.opened;
    reader = λ m. b.reader m ∙ ap (λ o. if m == fd then r else o) (d.reader m) ∙ x m;
    writer = λ m. b.writer m ∙ ap (λ o. if m == fd then w else o) (d.writer m) ∙ y m;
    cancelled = λ h. b.cancelled h ∙ z h;
    clear = λ m e n. b.entries m (d.clear m e (sym (ap (λ f. f m) u) ∙ n));
  }

  pub Shows-reader :
      (fd : ℕ) (o : Option ℕ) (s t : Polls W) (v : Watching)
      → Shows s v
      → Became fd o (writer_of s fd) (cancel_one (reader_of s fd) s.cancelled) s t
      → Shows t (set_reader fd o v)
  Shows-reader fd o s t v d b =
      Shows-Became fd o (writer_of s fd) (cancel_one (reader_of s fd) s.cancelled) s t v
        (set_reader fd o v) d b (λ m. refl) (own_entry v.writers fd (writer_of s fd) (d.writer fd))
        (λ h.
          ap (λ r. cancel_one r s.cancelled h) (d.reader fd)
          ∙ cancel_eq (v.readers fd) s.cancelled v.cancelled d.cancelled h)
        refl

  pub Shows-writer :
      (fd : ℕ) (o : Option ℕ) (s t : Polls W) (v : Watching)
      → Shows s v
      → Became fd (reader_of s fd) o (cancel_one (writer_of s fd) s.cancelled) s t
      → Shows t (set_writer fd o v)
  Shows-writer fd o s t v d b =
      Shows-Became fd (reader_of s fd) o (cancel_one (writer_of s fd) s.cancelled) s t v
        (set_writer fd o v) d b (own_entry v.readers fd (reader_of s fd) (d.reader fd)) (λ m. refl)
        (λ h.
          ap (λ r. cancel_one r s.cancelled h) (d.writer fd)
          ∙ cancel_eq (v.writers fd) s.cancelled v.cancelled d.cancelled h)
        refl

  pub Shows-kept :
      (fd : ℕ) (s t : Polls W) (v : Watching)
      → Shows s v
      → Became fd (reader_of s fd) (writer_of s fd) s.cancelled s t
      → Shows t v
  Shows-kept fd s t v d b =
      Shows-Became fd (reader_of s fd) (writer_of s fd) s.cancelled s t v v d b
        (own_entry v.readers fd (reader_of s fd) (d.reader fd))
        (own_entry v.writers fd (writer_of s fd) (d.writer fd)) d.cancelled refl

  -- Removing what is not there changes nothing.
  pub Shows-no_reader :
      (fd : ℕ) (s : Polls W) (v : Watching)
      → Shows s v
      → v.readers fd ≡ none
      → Shows s (set_reader fd none v)
  Shows-no_reader fd s v d e = record {
    tidy = d.tidy;
    opened = d.opened;
    reader = λ m. d.reader m ∙ sym (own_entry v.readers fd none (sym e) m);
    writer = d.writer;
    cancelled = λ h. d.cancelled h ∙ ap (λ o. cancel_one o v.cancelled h) (sym e);
    clear = d.clear;
  }

  pub Shows-no_writer :
      (fd : ℕ) (s : Polls W) (v : Watching)
      → Shows s v
      → v.writers fd ≡ none
      → Shows s (set_writer fd none v)
  Shows-no_writer fd s v d e = record {
    tidy = d.tidy;
    opened = d.opened;
    reader = d.reader;
    writer = λ m. d.writer m ∙ sym (own_entry v.writers fd none (sym e) m);
    cancelled = λ h. d.cancelled h ∙ ap (λ o. cancel_one o v.cancelled h) (sym e);
    clear = d.clear;
  }
