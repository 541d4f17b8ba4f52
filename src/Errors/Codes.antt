-- ===== src/Errors/Codes.antt =====
-- uvloop/errors.pyx: what an exception tells of the code that it was made from.
use uvloop.Prelude.{Bool, true, ◌≡◌, refl, Option, some, none, false, ◌↔◌}
use uvloop.Errors.{UvError, Exception, convert_error, is_os_error}

-- A `socket.gaierror`.
abbrev pub is_gai : Exception → Bool
is_gai (Exception.gai_error e) = true
is_gai _ = false

-- What a reader of the exception sees of the code.
abbrev pub code_of : Exception → Option UvError
code_of (Exception.os_error c e) = some e
code_of Exception.cancelled_error = some UvError.uv_ecanceled
code_of _ = none

-- Every code but `UV_ECANCELED` becomes an `OSError` (a `gaierror` is one), and `UV_ECANCELED` does
-- not: it becomes the `CancelledError`, which `except OSError` does not catch.
pub convert_error-IsOsError :
    (e : UvError) → (is_os_error (convert_error e) ≡ false) ↔ (e ≡ UvError.uv_ecanceled)
unfolding convert_error
convert_error-IsOsError UvError.uv_ecanceled = (λ _. refl, λ _. refl)
convert_error-IsOsError _ = (λ h. cc, λ h. cc)
