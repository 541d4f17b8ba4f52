-- ===== src/Errors.antt =====
-- uvloop/errors.pyx: libuv error codes to Python exceptions; and the exceptions that the modelled
-- code raises or is handed.
mod Codes
mod Tests
use uvloop.Prelude.{ℕ, Bool, true, false, Option, none, some, ◌||◌}

-- The constants of `uv.pxd` that the source names. libuv documents them as distinct negative
-- numbers; `other n` is any further code.
pub data UvError : Type 0 where
  uv_eacces uv_eperm uv_eagain uv_ealready uv_epipe uv_eshutdown uv_econnaborted : UvError
  uv_econnrefused uv_econnreset uv_eexist uv_enoent uv_eintr uv_eisdir uv_esrch : UvError
  uv_etimedout uv_ecanceled uv_eof uv_enobufs uv_einval : UvError
  uv_eai_addrfamily uv_eai_again uv_eai_badflags uv_eai_badhints uv_eai_canceled : UvError
  uv_eai_fail uv_eai_family uv_eai_memory uv_eai_nodata uv_eai_noname uv_eai_overflow : UvError
  uv_eai_protocol uv_eai_service uv_eai_socktype : UvError
  other : ℕ → UvError

-- The subclasses of `OSError` that the table names.
pub data OsClass : Type 0 where
  plain_os_error permission_error blocking_io_error broken_pipe_error : OsClass
  connection_aborted_error connection_refused_error connection_reset_error : OsClass
  file_exists_error file_not_found_error interrupted_error is_a_directory_error : OsClass
  process_lookup_error timeout_error : OsClass

-- The names of the `socket.EAI_*` constants. Their values are not modelled: a constant that Python
-- lacks is -1, so several names can stand for one number.
pub data SocketError : Type 0 where
  eai_addrfamily eai_again eai_badflags eai_badhints eai_canceled eai_fail eai_family : SocketError
  eai_memory eai_nodata eai_noname eai_overflow eai_protocol eai_service : SocketError
  eai_socktype : SocketError

-- Python exceptions. An `OSError` keeps its class and the code that its `errno` is the negation of.
-- `user n` is an exception of the application that derives from `Exception`, `user_base n` one that
-- derives from `BaseException` only; `ssl_error` and `certificate_error` are `ssl.SSLError`s;
-- `message_error` is an `OSError` with a message and no `errno`.
pub data Exception : Type 0 where
  os_error : OsClass → UvError → Exception
  gai_error : SocketError → Exception
  cancelled_error runtime_error value_error type_error assertion_error : Exception
  key_error index_error overflow_error invalid_state_error keyboard_interrupt system_exit :
      Exception
  ssl_error user user_base : ℕ → Exception
  certificate_error message_error attribute_error : Exception

-- `isinstance(exc, OSError)`; `socket.gaierror` and `ssl.SSLError` are subclasses.
abbrev pub is_os_error : Exception → Bool
is_os_error (os_error c e) = true
is_os_error (gai_error e) = true
is_os_error (ssl_error n) = true
is_os_error certificate_error = true
is_os_error message_error = true
is_os_error _ = false

-- What `except (KeyboardInterrupt, SystemExit)` catches.
abbrev pub is_interrupt : Exception → Bool
is_interrupt keyboard_interrupt = true
is_interrupt system_exit = true
is_interrupt _ = false

-- `isinstance(exc, Exception)`.
abbrev pub is_exception : Exception → Bool
is_exception keyboard_interrupt = false
is_exception system_exit = false
is_exception cancelled_error = false
is_exception (user_base n) = false
is_exception _ = true

-- `isinstance(exc, ssl.SSLError)`.
abbrev pub is_ssl_error : Exception → Bool
is_ssl_error (ssl_error n) = true
is_ssl_error certificate_error = true
is_ssl_error _ = false

os_class : UvError → OsClass
os_class uv_eacces = permission_error
os_class uv_eperm = permission_error
os_class uv_eagain = blocking_io_error
os_class uv_ealready = blocking_io_error
os_class uv_epipe = broken_pipe_error
os_class uv_eshutdown = broken_pipe_error
os_class uv_econnaborted = connection_aborted_error
os_class uv_econnrefused = connection_refused_error
os_class uv_econnreset = connection_reset_error
os_class uv_eexist = file_exists_error
os_class uv_enoent = file_not_found_error
os_class uv_eintr = interrupted_error
os_class uv_eisdir = is_a_directory_error
os_class uv_esrch = process_lookup_error
os_class uv_etimedout = timeout_error
os_class _ = plain_os_error

unfoldable pub convert_python_error : UvError → Exception
unfolding os_class
convert_python_error uverr = os_error (os_class uverr) uverr

-- `none` is the 0 of the source.
unfoldable pub convert_socket_error : UvError → Option SocketError
convert_socket_error uv_eai_addrfamily = some eai_addrfamily
convert_socket_error uv_eai_again = some eai_again
convert_socket_error uv_eai_badflags = some eai_badflags
convert_socket_error uv_eai_badhints = some eai_badhints
convert_socket_error uv_eai_canceled = some eai_canceled
convert_socket_error uv_eai_fail = some eai_fail
convert_socket_error uv_eai_family = some eai_family
convert_socket_error uv_eai_memory = some eai_memory
convert_socket_error uv_eai_nodata = some eai_nodata
convert_socket_error uv_eai_noname = some eai_noname
convert_socket_error uv_eai_overflow = some eai_overflow
convert_socket_error uv_eai_protocol = some eai_protocol
convert_socket_error uv_eai_service = some eai_service
convert_socket_error uv_eai_socktype = some eai_socktype
convert_socket_error _ = none

-- `uverr == uv.UV_ECANCELED`
abbrev is_canceled : UvError → Bool
is_canceled uv_ecanceled = true
is_canceled _ = false

known_error : Option SocketError → UvError → Exception
known_error (some sock_err) uverr = gai_error sock_err
known_error none uverr = convert_python_error uverr

unfoldable pub convert_error : UvError → Exception
unfolding known_error convert_python_error convert_socket_error
convert_error uverr = elim (is_canceled uverr) [
  | true ↦ cancelled_error
  | false ↦ known_error (convert_socket_error uverr) uverr
]
