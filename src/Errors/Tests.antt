-- ===== src/Errors/Tests.antt =====
-- uvloop/errors.pyx: the conversion of concrete codes.
use uvloop.Prelude.{◌≡◌, false, ◌↔◌}
use uvloop.Errors.{UvError, convert_error, is_os_error}
use uvloop.Errors.Codes.{convert_error-IsOsError}

convert_error-IsOsError_example :
    (is_os_error (convert_error UvError.uv_epipe) ≡ false)
    ↔ (UvError.uv_epipe ≡ UvError.uv_ecanceled)
convert_error-IsOsError_example = convert_error-IsOsError UvError.uv_epipe
