-- ===== src/Dns/Tests.antt =====
-- uvloop/dns.pyx: the theorems at concrete addresses, and tests.

use uvloop.Prelude.{
  ℕ, ◌≡◌, refl, Bool, true, false, List, [], ◌∷◌, none, some, ◌==◌, length, if◌then◌else◌, ℤ, pos,
  negsuc, inl, inr, map, ◌⊎◌,
}
use uvloop.Errors.{UvError, uv_einval, convert_error, value_error, type_error}
use uvloop.Python.{ok, raise}
use mathlib.Core.List.{lookup}
use uvloop.FlowControl.{to_int}
use uvloop.Lru.{get, setitem}
use uvloop.Lru.Entries.{od_set}
use uvloop.Dns.{
  Item, int, str, bytes, bytearray, list, Addr, tuple, item, Family, af_unspec, af_inet, af_inet6,
  af_unix, any_proto, tcp, in4, in6, un, quadruple, DnsEnv, Cache, convert_sockaddr_to_pyaddr,
  convert_new,
}
use uvloop.Dns.Cached.{convert, convert_each}
use uvloop.Dns.Mild.{Mild}
use uvloop.Dns.Static.{SocketTypes, proto_of, static_getaddrinfo_pyaddr}

abbrev stored : ℤ → ℕ
stored (pos n) = n
stored (negsuc n) = 0

-- A host of 4 bytes is an IPv4 address, one of 6 bytes an IPv6 address. The machine has the bytes
-- of 2 words in the other order, which for the flow information stands as an addition.
abbrev test_env : DnsEnv
test_env = record {
  int_of_text = λ t. none;
  int_of_bytes = λ b. none;
  int_of_object = λ n. raise type_error;
  c_int_of_object = λ n. raise type_error;
  decode = λ b. ok b;
  getservbyname = λ t p. ok (pos 80);
  encode_ascii = λ t. some t;
  encode_idna = λ t. raise value_error;
  decode_ascii = λ i. ok [];
  encode_path = λ t. ok t;
  uv_ip4_addr = λ h n. if length h == 4 then inr (7, stored n) else inl uv_einval;
  uv_ip6_addr = λ h n. if length h == 6 then inr (9, stored n) else inl uv_einval;
  uv_ip4_name = λ a. inr (1 ∷ 2 ∷ 3 ∷ 4 ∷ []);
  uv_ip6_name = λ a. inr (1 ∷ 2 ∷ 3 ∷ 4 ∷ 5 ∷ 6 ∷ []);
  ntohs = λ n. n;
  ntohl = λ n. if n == 1 then 16777216 else n;
}

abbrev four : Item
four = str (1 ∷ 2 ∷ 3 ∷ 4 ∷ [])

abbrev six : Item
six = bytes (1 ∷ 2 ∷ 3 ∷ 4 ∷ 5 ∷ 6 ∷ [])

-- The second is in the cache for the other family, and a list and a `bytearray` have no hash.
abbrev conversions : List (Family × Addr)
conversions =
    (af_inet, tuple (four ∷ int (pos 80) ∷ []))
    ∷ (af_inet6, tuple (four ∷ int (pos 80) ∷ []))
    ∷ (af_inet, tuple (four ∷ int (pos 80) ∷ []))
    ∷ (af_inet6, tuple (six ∷ int (pos 80) ∷ int (pos 1) ∷ []))
    ∷ (af_inet6, tuple (six ∷ list 0 ∷ []))
    ∷ (af_inet, tuple (bytearray (1 ∷ 2 ∷ 3 ∷ 4 ∷ []) ∷ int (pos 80) ∷ []))
    ∷ []

abbrev cache : Cache
cache = record { dict = []; maxsize = 2 }

test_reference :
    map (λ q. convert test_env q.0 q.1) conversions
    ≡ ok (in4 7 80)
      ∷ raise (convert_error uv_einval)
      ∷ ok (in4 7 80)
      ∷ ok (in6 9 80 1 0)
      ∷ raise type_error
      ∷ raise type_error
      ∷ []
unfolding convert_new to_int
test_reference = refl

-- The flow information 1 comes back with its bytes in the other order.
test_flowinfo :
    convert_sockaddr_to_pyaddr test_env (in6 9 80 1 0)
    ≡ ok (quadruple (1 ∷ 2 ∷ 3 ∷ 4 ∷ 5 ∷ 6 ∷ []) 80 16777216 0)
unfolding convert_sockaddr_to_pyaddr
test_flowinfo = refl

-- Without the hash that the cache asks for, a `bytearray` is a host.
test_bytearray :
    convert_new test_env af_inet (tuple (bytearray (1 ∷ 2 ∷ 3 ∷ 4 ∷ []) ∷ int (pos 80) ∷ []))
    ≡ ok (in4 7 80)
unfolding convert_new to_int
test_bytearray = refl

-- A path that is a text is kept under its bytes, so it is converted each time.
test_path :
    (convert_each test_env ((af_unix, item (str (5 ∷ []))) ∷ []) cache).1.dict
    ≡ (item (bytes (5 ∷ [])), some (record { family = af_unix; addr = un (5 ∷ []) })) ∷ []
unfolding convert_each get setitem lookup od_set
test_path = refl

abbrev linux : SocketTypes
linux = record { has_nonblock = true; sock_stream = 1; sock_dgram = 2 }

abbrev parsed : Bool → ℕ → ℤ → UvError ⊎ (ℕ × ℕ)
parsed b a n = if b then inr (a, stored n) else inl uv_einval

test_found :
    (static_getaddrinfo_pyaddr test_env linux six
      (int (pos 80))
      af_unspec
      2049
      any_proto
      false
      cache).0
    ≡ ok (
        some (record {
          family = af_inet6;
          proto = tcp;
          canon_name = [];
          addr = quadruple (1 ∷ 2 ∷ 3 ∷ 4 ∷ 5 ∷ 6 ∷ []) 80 0 0;
        }))
unfolding static_getaddrinfo_pyaddr proto_of to_int convert_sockaddr_to_pyaddr get setitem lookup
    convert_error od_set
test_found = refl
