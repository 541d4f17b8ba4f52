-- ===== src/FlowControl/Tests.antt =====
-- uvloop/includes/flowcontrol.pxd: the water marks at concrete inputs.
use uvloop.Prelude.{◌≡◌, refl, none, some, pos, arith}
use uvloop.Errors.{value_error}
use uvloop.Python.{ok, raise}
use uvloop.FlowControl.{add_flowcontrol_defaults}
use uvloop.FlowControl.Limits.{
  Ordered, add_flowcontrol_defaults-Ordered, add_flowcontrol_defaults_given,
  add_flowcontrol_defaults_default, add_flowcontrol_defaults_low,
}

-- The default of `set_write_buffer_limits()`: 64 KiB and 16 KiB.
defaults : add_flowcontrol_defaults none none 64 ≡ ok (pos 65536, pos 16384)
unfolding add_flowcontrol_defaults
defaults = refl

-- 4 * 2 ^ 30 wraps to 0, which is less than the low mark.
low_wraps : add_flowcontrol_defaults none (some (pos 1073741824)) 64 ≡ raise value_error
unfolding add_flowcontrol_defaults
low_wraps = refl

quarter : add_flowcontrol_defaults (some (pos 100)) none 64 ≡ ok (pos 100, pos 25)
unfolding add_flowcontrol_defaults
quarter = refl

add_flowcontrol_defaults-Ordered_example : Ordered (pos 100) (pos 25)
add_flowcontrol_defaults-Ordered_example =
    add_flowcontrol_defaults-Ordered (some (pos 100)) none 64 quarter

add_flowcontrol_defaults_given_example :
    add_flowcontrol_defaults (some (pos 10)) (some (pos 20)) 64 ≡ raise value_error
add_flowcontrol_defaults_given_example =
    add_flowcontrol_defaults_given 10 20 64 (omega arith) (omega arith)

add_flowcontrol_defaults_default_example :
    add_flowcontrol_defaults none none 512 ≡ ok (pos 524288, pos 131072)
add_flowcontrol_defaults_default_example = add_flowcontrol_defaults_default 512 (omega arith)

add_flowcontrol_defaults_low_example :
    add_flowcontrol_defaults none (some (pos 1000)) 64 ≡ ok (pos 4000, pos 1000)
add_flowcontrol_defaults_low_example = add_flowcontrol_defaults_low 1000 64 (omega arith)
