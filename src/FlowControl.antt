-- ===== src/FlowControl.antt =====
-- uvloop/includes/flowcontrol.pxd: the water marks of the write and read buffers. They are C
-- integers of 32 bits: a Python integer that does not fit raises `OverflowError`, and `4 * l`
-- wraps.
mod Limits
mod Tests
use uvloop.Prelude.{
  ℕ, ◌+◌, ◌-◌, ◌*◌, ◌/◌, ◌%◌, Bool, true, false, ◌&&◌, Option, none, some, ltb, leb, if◌then◌else◌,
  ℤ, pos, negsuc,
}
use uvloop.Errors.{Exception, value_error, overflow_error}
use uvloop.Python.{Outcome, ok, raise}

abbrev pub int_limit : ℕ
int_limit = 2147483648

abbrev pub word : ℕ
word = 4294967296

-- The conversion of a Python integer to `int`.
unfoldable pub to_int : ℤ → Outcome ℤ
to_int (pos n) = if ltb n int_limit then ok (pos n) else raise overflow_error
to_int (negsuc n) = if ltb n int_limit then ok (negsuc n) else raise overflow_error

-- The integer that 32 bits stand for.
unfoldable pub from_bits : ℕ → ℤ
from_bits b = if ltb b int_limit then pos b else negsuc (word - 1 - b)

-- `4 * l`, on C integers.
unfoldable pub times_4 : ℤ → ℤ
unfolding from_bits
times_4 (pos n) = from_bits (4 * n % word)
times_4 (negsuc n) = from_bits (word - 1 - (4 * n + 3) % word)

-- `h // 4`, rounded down.
unfoldable pub div_4 : ℤ → ℤ
div_4 (pos n) = pos (n / 4)
div_4 (negsuc n) = negsuc (n / 4)

-- `b <= a`
abbrev pub geb : ℤ → ℤ → Bool
geb (pos a) (pos b) = leb b a
geb (pos a) (negsuc b) = true
geb (negsuc a) (pos b) = false
geb (negsuc a) (negsuc b) = leb a b

infixl 5 ◌>>=◌
abbrev pub ◌>>=◌ {ℓ κ} : {A : Type ℓ} {B : Type κ} → Outcome A → (A → Outcome B) → Outcome B
ok a >>= f = f a
raise e >>= f = raise e

-- `h`, from `high`, or else from `low`, or else from the default; `kb` is a C `int` that is not
-- negative, and `kb * 1024` wraps.
unfoldable pub high_mark : Option ℤ → Option ℤ → ℕ → Outcome ℤ
unfolding to_int times_4 from_bits
high_mark (some high) low kb = to_int high
high_mark none (some low) kb = do l ← to_int low; ok (times_4 l)
high_mark none none kb = ok (from_bits (kb * 1024 % word))

unfoldable pub low_mark : Option ℤ → ℤ → Outcome ℤ
unfolding to_int div_4
low_mark none h = ok (div_4 h)
low_mark (some low) h = to_int low

-- `if not h >= l >= 0: raise ValueError`
unfoldable pub check_marks : ℤ → ℤ → Outcome (ℤ × ℤ)
check_marks h l = if geb h l && geb l (pos 0) then ok (h, l) else raise value_error

unfoldable pub add_flowcontrol_defaults : Option ℤ → Option ℤ → ℕ → Outcome (ℤ × ℤ)
unfolding high_mark low_mark check_marks
add_flowcontrol_defaults high low kb = do
  h ← high_mark high low kb
  l ← low_mark low h
  check_marks h l
