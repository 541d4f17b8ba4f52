-- ===== src/Python.antt =====
-- Python control flow over a state that survives an exception: a method returns the new state
-- beside its value or the exception that it raised.
pub mod Frames
use uvloop.Prelude.{Bool}
use uvloop.Errors.{Exception}

pub data Outcome {ℓ} (A : Type ℓ) : Type ℓ where
  ok : A → Outcome A
  raise : Exception → Outcome A

abbrev pub M : Type 0 → Type 0 → Type 0
M S A = S → Outcome A × S

abbrev pub bind : {S A B : Type 0} → Outcome A × S → (A → M S B) → Outcome B × S
bind (ok a, s) f = f a s
bind (raise e, s) f = (raise e, s)

infixl 5 ◌>>=◌ ◌>>◌
abbrev pub ◌>>=◌ : {S A B : Type 0} → M S A → (A → M S B) → M S B
◌>>=◌ m f s = bind (m s) f

abbrev pub ◌>>◌ : {S B : Type 0} → M S (Unit {0}) → M S B → M S B
m >> k = m >>= λ _. k

abbrev pub pure : {S A : Type 0} → A → M S A
pure a s = (ok a, s)

abbrev pub throw : {S A : Type 0} → Exception → M S A
throw e s = (raise e, s)

abbrev pub get_state : {S : Type 0} → M S S
get_state s = (ok s, s)

abbrev pub modify : {S : Type 0} → (S → S) → M S (Unit {0})
modify f s = (ok tt, f s)

abbrev pub branch : {S A : Type 0} → Bool → M S A → M S A → M S A
branch b m k s = elim b [ Bool.true ↦ m s | Bool.false ↦ k s ]

-- `if b: m`
abbrev pub whenever : {S : Type 0} → Bool → M S (Unit {0}) → M S (Unit {0})
whenever b m = branch b m (pure tt)

abbrev pub handle : {S A : Type 0} → Outcome A × S → (Exception → M S A) → Outcome A × S
handle (ok a, s) h = (ok a, s)
handle (raise e, s) h = h e s

-- `try: m` with `except BaseException as e: h e`
abbrev pub catch : {S A : Type 0} → M S A → (Exception → M S A) → M S A
catch m h s = handle (m s) h

abbrev pub after : {S A : Type 0} → Outcome A × S → M S (Unit {0}) → Outcome A × S
after (ok a, s) k = bind (k s) (λ _. pure a)
after (raise e, s) k = bind (k s) (λ _. throw e)

-- `try: m` with `finally: k`
abbrev pub finally : {S A : Type 0} → M S A → M S (Unit {0}) → M S A
finally m k s = after (m s) k
