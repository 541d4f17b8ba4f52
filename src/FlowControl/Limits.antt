-- ===== src/FlowControl/Limits.antt =====
-- uvloop/includes/flowcontrol.pxd: the marks that come out, and those that are refused.
use uvloop.Prelude.{
  ℕ, ◌*◌, ◌≤◌, ◌<◌, ◌≡◌, Option, none, some, ℤ, pos, negsuc, arith, leb, if◌then◌else◌,
}
use uvloop.Errors.{value_error}
use uvloop.Python.{Outcome, ok, raise}
use uvloop.FlowControl.{
  int_limit, add_flowcontrol_defaults, high_mark, low_mark, check_marks, ◌>>=◌,
}

-- Neither mark is negative, and the low one is at most the high one.
abbrev pub Ordered : ℤ → ℤ → Type 0
Ordered (pos h) (pos l) = l ≤ h
Ordered _ _ = ⊥

>>=-eq-ok {ℓ κ} :
    {A : Type ℓ} {B : Type κ} (m : Outcome A) (f : A → Outcome B) {b : B}
    → (m >>= f) ≡ ok b
    → (a : A) × (f a ≡ ok b)
>>=-eq-ok (ok a) f h = (a, h)
>>=-eq-ok (raise e) f h = cc

check_marks-Ordered : (h l : ℤ) {p : ℤ × ℤ} → check_marks h l ≡ ok p → Ordered p.0 p.1
unfolding check_marks
check_marks-Ordered (pos h) (pos l) e = ground arith
check_marks-Ordered (pos h) (negsuc l) e = ground arith
check_marks-Ordered (negsuc h) (pos l) e = ground arith
check_marks-Ordered (negsuc h) (negsuc l) e = ground arith

-- Marks that are accepted are not negative and the low one is at most the high one, whichever of
-- the two were given.
pub add_flowcontrol_defaults-Ordered :
    (high low : Option ℤ) (kb : ℕ) {p : ℤ × ℤ}
    → add_flowcontrol_defaults high low kb ≡ ok p
    → Ordered p.0 p.1
unfolding add_flowcontrol_defaults
add_flowcontrol_defaults-Ordered high low kb e =
    let (h, f) =
      >>=-eq-ok (high_mark high low kb) (λ (h : ℤ). low_mark low h >>= λ (l : ℤ). check_marks h l)
        e in
    let (l, g) = >>=-eq-ok (low_mark low h) (λ (l : ℤ). check_marks h l) f in
    check_marks-Ordered h l g

-- Of two marks that are not negative and fit the C integers, both are taken as they are if the low
-- one is at most the high one, and `ValueError` is raised if not.
pub add_flowcontrol_defaults_given :
    (high low kb : ℕ)
    → high < int_limit
    → low < int_limit
    → add_flowcontrol_defaults (some (pos high)) (some (pos low)) kb
      ≡ (if leb low high then ok (pos high, pos low) else raise value_error)
unfolding add_flowcontrol_defaults
add_flowcontrol_defaults_given high low kb p q = ground arith

-- With no mark given, the high one is `kb` KiB, and the low one a quarter of it, where `kb * 1024`
-- fits a C `int`.
pub add_flowcontrol_defaults_default :
    (kb : ℕ)
    → kb * 1024 < int_limit
    → add_flowcontrol_defaults none none kb ≡ ok (pos (kb * 1024), pos (kb * 256))
unfolding add_flowcontrol_defaults
add_flowcontrol_defaults_default kb p = ground arith

-- A low mark alone that is not negative makes the high one four times as large, where that fits.
pub add_flowcontrol_defaults_low :
    (low kb : ℕ)
    → 4 * low < int_limit
    → add_flowcontrol_defaults none (some (pos low)) kb ≡ ok (pos (4 * low), pos low)
unfolding add_flowcontrol_defaults
add_flowcontrol_defaults_low low kb p = ground arith
