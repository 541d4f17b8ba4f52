-- ===== src/Python/Frames.antt =====
-- What a method does to the state, whether it returns or raises: rules for a relation between the
-- states before and after that is reflexive and transitive.
use uvloop.Prelude.{Bool, true, false, ◌≡◌, refl}
use uvloop.Errors.{Exception}
use uvloop.Python.{
  Outcome, ok, raise, M, bind, ◌>>=◌, pure, throw, get_state, branch, handle, catch, after, finally,
}

pub record Frame (S : Type 0) : Type 1 where
  pub Rel : S → S → Type 0
  pub stay : (s : S) → Rel s s
  pub both : (s t u : S) → Rel s t → Rel t u → Rel s u

pub record Keeps {S A : Type 0} (F : Frame S) (m : M S A) : Type 0 where
  pub keeps : (s : S) → F.Rel s (m s).1

module _ {S A : Type 0} (F : Frame S) where
  pub Keeps-of : (m : M S A) → ((s : S) → F.Rel s (m s).1) → Keeps F m
  Keeps-of m h = record { keeps = h }

  pub pure-Keeps : (a : A) → Keeps F (pure {S = S} a)
  pure-Keeps a = record { keeps = λ s. F.stay s }

  pub throw-Keeps : (e : Exception) → Keeps F (throw {S = S} {A = A} e)
  throw-Keeps e = record { keeps = λ s. F.stay s }

  branch_keeps :
      (b : Bool) (m k : M S A) (s : S)
      → F.Rel s (m s).1
      → F.Rel s (k s).1
      → F.Rel s (branch b m k s).1
  branch_keeps true m k s hm hk = hm
  branch_keeps false m k s hm hk = hk

  pub branch-Keeps : (b : Bool) {m k : M S A} → Keeps F m → Keeps F k → Keeps F (branch b m k)
  branch-Keeps b {m} {k} hm hk = record {
    keeps = λ s. branch_keeps b m k s (hm.keeps s) (hk.keeps s);
  }

  -- Where the test reads the state.
  pub branch_of-Keeps :
      (b : S → Bool) {m k : M S A} → Keeps F m → Keeps F k → Keeps F (λ s. branch (b s) m k s)
  branch_of-Keeps b {m} {k} hm hk = record {
    keeps = λ s. branch_keeps (b s) m k s (hm.keeps s) (hk.keeps s);
  }

  handle_keeps :
      (s : S) (r : Outcome A × S) (h : Exception → M S A)
      → F.Rel s r.1
      → ((e : Exception) → Keeps F (h e))
      → F.Rel s (handle r h).1
  handle_keeps s (ok a, t) h hr hh = hr
  handle_keeps s (raise e, t) h hr hh = F.both s t (h e t).1 hr ((hh e).keeps t)

  pub catch-Keeps :
      {m : M S A} {h : Exception → M S A}
      → Keeps F m
      → ((e : Exception) → Keeps F (h e))
      → Keeps F (catch m h)
  catch-Keeps {m} {h} hm hh = record { keeps = λ s. handle_keeps s (m s) h (hm.keeps s) hh }

module _ {S : Type 0} (F : Frame S) where
  pub get_state-Keeps : Keeps F (get_state {S = S})
  get_state-Keeps = record { keeps = λ s. F.stay s }

module _ {S A B : Type 0} (F : Frame S) where
  bind_keeps :
      (s : S) (r : Outcome A × S) (f : A → M S B)
      → F.Rel s r.1
      → ((a : A) → Keeps F (f a))
      → F.Rel s (bind r f).1
  bind_keeps s (ok a, t) f hr hf = F.both s t (f a t).1 hr ((hf a).keeps t)
  bind_keeps s (raise e, t) f hr hf = hr

  pub bind-Keeps :
      {m : M S A} {f : A → M S B} → Keeps F m → ((a : A) → Keeps F (f a)) → Keeps F (m >>= f)
  bind-Keeps {m} {f} hm hf = record { keeps = λ s. bind_keeps s (m s) f (hm.keeps s) hf }

module _ {S A : Type 0} (F : Frame S) where
  after_keeps :
      (s : S) (r : Outcome A × S) (k : M S (Unit {0}))
      → F.Rel s r.1
      → Keeps F k
      → F.Rel s (after r k).1
  after_keeps s (ok a, t) k hr hk =
      bind_keeps F s (k t) (λ _. pure a) (F.both s t (k t).1 hr (hk.keeps t)) (λ _. pure-Keeps F a)
  after_keeps s (raise e, t) k hr hk =
      bind_keeps F s (k t) (λ _. throw e) (F.both s t (k t).1 hr (hk.keeps t))
        (λ _. throw-Keeps F e)

  pub finally-Keeps :
      {m : M S A} {k : M S (Unit {0})} → Keeps F m → Keeps F k → Keeps F (finally m k)
  finally-Keeps {m} {k} hm hk = record { keeps = λ s. after_keeps s (m s) k (hm.keeps s) hk }

module _ {S : Type 0} where
  -- What holds after the first part and is kept by the second.
  pub bind_post {ℓ} :
      {A B : Type 0} (P : S → Type ℓ) (r : Outcome A × S) (f : A → M S B)
      → P r.1
      → ((a : A) (t : S) → P t → P (f a t).1)
      → P (bind r f).1
  bind_post P (ok a, t) f hr hf = hf a t hr
  bind_post P (raise e, t) f hr hf = hr

-- What holds of the state, and of the value where there is one.
abbrev pub Post {ℓ} : {S A : Type 0} → (A → S → Type ℓ) → (S → Type ℓ) → Outcome A × S → Type ℓ
Post Q E (ok a, s) = Q a s
Post Q E (raise e, s) = E s

module _ {S : Type 0} where
  pub Post_state {ℓ} :
      {A : Type 0} (P : S → Type ℓ) (r : Outcome A × S) → Post (λ _ t. P t) P r → P r.1
  Post_state P (ok a, t) h = h
  Post_state P (raise e, t) h = h

  pub Post-map {ℓ} :
      {A : Type 0} (Q R : A → S → Type ℓ) (E : S → Type ℓ) (r : Outcome A × S)
      → Post Q E r
      → ((a : A) (t : S) → Q a t → R a t)
      → Post R E r
  Post-map Q R E (ok a, t) h f = f a t h
  Post-map Q R E (raise e, t) h f = h

  pub Post-of {ℓ κ} :
      {A : Type 0} (P : S → Type ℓ) (Q : A → S → Type κ) (E : S → Type κ) (r : Outcome A × S)
      → P r.1
      → ((a : A) (t : S) → P t → Q a t)
      → ((t : S) → P t → E t)
      → Post Q E r
  Post-of P Q E (ok a, t) h hq he = hq a t h
  Post-of P Q E (raise e, t) h hq he = he t h

  pub bind-Post {ℓ} :
      {A B : Type 0} (Q : A → S → Type ℓ) (E : S → Type ℓ) (Q' : B → S → Type ℓ) (r : Outcome A × S)
      (f : A → M S B)
      → Post Q E r
      → ((a : A) (t : S) → Q a t → Post Q' E (f a t))
      → Post Q' E (bind r f)
  bind-Post Q E Q' (ok a, t) f hr hf = hf a t hr
  bind-Post Q E Q' (raise e, t) f hr hf = hr

  pub branch-Post {ℓ} :
      {A : Type 0} (Q : A → S → Type ℓ) (E : S → Type ℓ) (b : Bool) (m k : M S A) (s : S)
      → (b ≡ true → Post Q E (m s))
      → (b ≡ false → Post Q E (k s))
      → Post Q E (branch b m k s)
  branch-Post Q E true m k s hm hk = hm refl
  branch-Post Q E false m k s hm hk = hk refl

  pub branch_state {ℓ} :
      {A : Type 0} (P : S → Type ℓ) (b : Bool) (m k : M S A) (s : S)
      → (b ≡ true → P (m s).1)
      → (b ≡ false → P (k s).1)
      → P (branch b m k s).1
  branch_state P true m k s hm hk = hm refl
  branch_state P false m k s hm hk = hk refl

  pub bind_state {ℓ κ} :
      {A B : Type 0} (Q : A → S → Type ℓ) (E : S → Type ℓ) (P : S → Type κ) (r : Outcome A × S)
      (f : A → M S B)
      → Post Q E r
      → ((a : A) (t : S) → Q a t → P (f a t).1)
      → ((t : S) → E t → P t)
      → P (bind r f).1
  bind_state Q E P (ok a, t) f hr hf he = hf a t hr
  bind_state Q E P (raise e, t) f hr hf he = he t hr

module _ {S A : Type 0} where
  pub Keeps-map :
      (F G : Frame S) → ((s t : S) → F.Rel s t → G.Rel s t) → {m : M S A} → Keeps F m → Keeps G m
  Keeps-map F G f {m} h = record { keeps = λ s. f s (m s).1 (h.keeps s) }

-- A property of the state, kept where it holds.
abbrev pub preserves : {S : Type 0} → (S → Type 0) → Frame S
preserves P = record { Rel = λ s t. P s → P t; stay = λ s h. h; both = λ s t u f g h. g (f h) }

module _ {S : Type 0} where
  pub bind-pure : {A : Type 0} (r : Outcome (Unit {0}) × S) (a : A) → (bind r (λ _. pure a)).1 ≡ r.1
  bind-pure (ok b, u) a = refl
  bind-pure (raise e, u) a = refl

  bind-throw :
      (A : Type 0) (r : Outcome (Unit {0}) × S) (e : Exception)
      → (bind {B = A} r (λ _. throw e)).1 ≡ r.1
  bind-throw A (ok b, u) e = refl
  bind-throw A (raise x, u) e = refl

  -- The state after a `finally` clause.
  pub after_state :
      {A : Type 0} (r : Outcome A × S) (k : M S (Unit {0})) → (after r k).1 ≡ (k r.1).1
  after_state (ok a, t) k = bind-pure (k t) a
  after_state {A} (raise e, t) k = bind-throw A (k t) e
