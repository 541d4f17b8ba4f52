-- ===== src/Dns.antt =====
-- uvloop/dns.pyx: addresses of Python and of C, and the cache between them.
pub mod Cached
pub mod Mild
pub mod Static
pub mod Lookups
mod Tests
use native.Mathlib.Decide.{ℕ_discrete}
use mathlib.Core.Logic.{ite}
use uvloop.Prelude.{
  ℕ, zero, suc, ◌-◌, ◌%◌, Bool, true, false, ◌&&◌, List, [], ◌∷◌, Option, none, some, ◌==◌, ltb,
  length, if◌then◌else◌, ℤ, pos, negsuc, ◌⊎◌, inl, inr,
}
use uvloop.Errors.{
  Exception, UvError, convert_error, value_error, type_error, runtime_error, message_error,
}
use uvloop.Python.{M, Outcome, ok, raise, ◌>>=◌, ◌>>◌, pure, throw}
use uvloop.FlowControl.{to_int, word}
use uvloop.Lru.{LruCache, get, setitem}

-- A Python object that is no tuple. `object n` is any other object, `list n` one without a hash,
-- such as a list; a `bytearray` has no hash either.
pub data Item : Type 0 where
  none_item : Item
  int : ℤ → Item
  str bytes bytearray : List ℕ → Item
  object list : ℕ → Item

-- What is given as an address.
pub data Addr : Type 0 where
  tuple : List Item → Addr
  item : Item → Addr

pub data Family : Type 0 where
  af_unspec af_inet af_inet6 af_unix : Family
  other_family : ℕ → Family

-- `proto`; `any_proto` is 0.
pub data Proto : Type 0 where
  any_proto tcp udp : Proto
  other_proto : ℕ → Proto

-- A C address, with its port and its flow information as they are stored.
pub data Sockaddr : Type 0 where
  in4 : ℕ → ℕ → Sockaddr
  in6 : ℕ → ℕ → ℕ → ℕ → Sockaddr
  un : List ℕ → Sockaddr
  unknown : ℕ → Sockaddr

-- What Python makes of a C address.
pub data PyAddr : Type 0 where
  pair : List ℕ → ℕ → PyAddr
  quadruple : List ℕ → ℕ → ℕ → ℕ → PyAddr
  path : List ℕ → PyAddr

-- Python's conversions, codecs and service names, libuv's functions on addresses, and the byte
-- order of the machine. An object that an address holds is converted by `int_of_object`, or to a C
-- `int` by `c_int_of_object`; `decode_ascii` is what its method `decode` does.
pub record DnsEnv : Type 0 where
  pub int_of_text : List ℕ → Option ℤ
  pub int_of_bytes : List ℕ → Option ℤ
  pub int_of_object : ℕ → Outcome ℤ
  pub c_int_of_object : ℕ → Outcome ℤ
  pub decode : List ℕ → Outcome (List ℕ)
  pub getservbyname : List ℕ → Proto → Outcome ℤ
  pub encode_ascii : List ℕ → Option (List ℕ)
  pub encode_idna : List ℕ → Outcome (List ℕ)
  pub decode_ascii : Item → Outcome (List ℕ)
  pub encode_path : List ℕ → Outcome (List ℕ)
  pub uv_ip4_addr : List ℕ → ℤ → UvError ⊎ (ℕ × ℕ)
  pub uv_ip6_addr : List ℕ → ℤ → UvError ⊎ (ℕ × ℕ)
  pub uv_ip4_name : ℕ → UvError ⊎ List ℕ
  pub uv_ip6_name : ℕ → UvError ⊎ List ℕ
  pub ntohs : ℕ → ℕ
  pub ntohl : ℕ → ℕ

-- A converted address in the cache.
pub record SockAddrHolder : Type 0 where
  pub family : Family
  pub addr : Sockaddr

pub Addr-discrete : Discrete Addr
Addr-discrete = hlevel ℕ_discrete

pub Family-discrete : Discrete Family
Family-discrete = hlevel ℕ_discrete

abbrev pub Cache : Type 0
Cache = LruCache Addr (Option SockAddrHolder)

infixl 5 ◌then◌
abbrev pub ◌then◌ : {A B : Type 0} → Outcome A → (A → Outcome B) → Outcome B
ok a then f = f a
raise e then f = raise e

abbrev hashable_item : Item → Bool
hashable_item (list n) = false
hashable_item (bytearray b) = false
hashable_item _ = true

abbrev pub hashable : Addr → Bool
hashable (item i) = hashable_item i
hashable (tuple []) = true
hashable (tuple (i ∷ is)) = hashable_item i && hashable (tuple is)

-- Four bytes of a C `int`.
abbrev to_word : ℤ → ℕ
to_word (pos n) = n
to_word (negsuc n) = word - 1 - n

module _ (env : DnsEnv) where
  -- The end of `__port_to_int`, for a text.
  service : List ℕ → Option Proto → Outcome ℤ
  service name (some tcp) = env.getservbyname name tcp
  service name (some udp) = env.getservbyname name udp
  service name _ = raise message_error

  -- `int(port)` of an object that is neither text nor bytes.
  int_or_error : Outcome ℤ → Outcome ℤ
  int_or_error (ok n) = ok n
  int_or_error (raise value_error) = raise message_error
  int_or_error (raise type_error) = raise message_error
  int_or_error (raise e) = raise e

  unfoldable pub port_to_int : Item → Option Proto → Outcome ℤ
  unfolding service int_or_error
  port_to_int (int n) proto = ok n
  port_to_int none_item proto = ok (pos 0)
  port_to_int (str []) proto = ok (pos 0)
  port_to_int (bytes []) proto = ok (pos 0)
  port_to_int (str t) proto = elim (env.int_of_text t) [ some n ↦ ok n | none ↦ service t proto ]
  port_to_int (bytes b) proto = elim (env.int_of_bytes b) [
    | some n ↦ ok n
    | none ↦ env.decode b then λ t. service t proto
  ]
  port_to_int (bytearray []) proto = ok (pos 0)
  port_to_int (bytearray b) proto = elim (env.int_of_bytes b) [
    | some n ↦ ok n
    | none ↦ raise message_error
  ]
  port_to_int (object n) proto = int_or_error (env.int_of_object n)
  port_to_int (list n) proto = int_or_error (env.int_of_object n)

  unfoldable pub convert_sockaddr_to_pyaddr : Sockaddr → Outcome PyAddr
  convert_sockaddr_to_pyaddr (in4 a port) = elim (env.uv_ip4_name a) [
    | inl err ↦ raise (convert_error err)
    | inr name ↦ ok (pair name (env.ntohs port))
  ]
  convert_sockaddr_to_pyaddr (in6 a port flowinfo scope_id) = elim (env.uv_ip6_name a) [
    | inl err ↦ raise (convert_error err)
    | inr name ↦ ok (quadruple name (env.ntohs port) (env.ntohl flowinfo) scope_id)
  ]
  convert_sockaddr_to_pyaddr (un p) = ok (path p)
  convert_sockaddr_to_pyaddr (unknown n) = raise runtime_error

  encode_host : Item → Outcome (List ℕ)
  encode_host (str t) = elim (env.encode_ascii t) [ some b ↦ ok b | none ↦ env.encode_idna t ]
  encode_host (bytes b) = ok b
  encode_host (bytearray b) = ok b
  encode_host _ = raise type_error

  -- The conversion of a Python object to a C `int`.
  c_int : Item → Outcome ℤ
  c_int (int n) = to_int n
  c_int (object n) = env.c_int_of_object n
  c_int (list n) = env.c_int_of_object n
  c_int _ = raise type_error

  converted4 : UvError ⊎ (ℕ × ℕ) → Outcome Sockaddr
  converted4 (inl err) = raise (convert_error err)
  converted4 (inr (a, port)) = ok (in4 a port)

  converted6 : ℤ → ℤ → UvError ⊎ (ℕ × ℕ) → Outcome Sockaddr
  converted6 flowinfo scope_id (inl err) = raise (convert_error err)
  converted6 flowinfo scope_id (inr (a, port)) =
      ok (in6 a port (to_word flowinfo) (to_word scope_id))

  convert_inet : Addr → Outcome Sockaddr
  unfolding encode_host port_to_int converted4
  convert_inet (tuple (host ∷ port ∷ [])) = encode_host host then λ h.
      port_to_int port none then λ p. to_int p then λ n. converted4 (env.uv_ip4_addr h n)
  convert_inet (tuple _) = raise value_error
  convert_inet (item i) = raise type_error

  convert_inet6_parts : Item → Item → Item → Item → Outcome Sockaddr
  unfolding encode_host port_to_int c_int converted6
  convert_inet6_parts host port flowinfo scope_id = encode_host host then λ h.
      port_to_int port none then λ p. c_int flowinfo then λ f.
      c_int scope_id then λ s. to_int p then λ n. converted6 f s (env.uv_ip6_addr h n)

  convert_inet6 : Addr → Outcome Sockaddr
  unfolding convert_inet6_parts
  convert_inet6 (tuple (host ∷ port ∷ [])) =
      convert_inet6_parts host port (int (pos 0)) (int (pos 0))
  convert_inet6 (tuple (host ∷ port ∷ flowinfo ∷ [])) =
      convert_inet6_parts host port flowinfo (int (pos 0))
  convert_inet6 (tuple (host ∷ port ∷ flowinfo ∷ scope_id ∷ [])) =
      convert_inet6_parts host port flowinfo scope_id
  convert_inet6 (tuple _) = raise value_error
  convert_inet6 (item i) = raise type_error

  check_path : List ℕ → Outcome Sockaddr
  check_path b = if ltb 107 (length b) then raise value_error else ok (un b)

  convert_unix : Addr → Outcome Sockaddr
  unfolding check_path
  convert_unix (item (str t)) = env.encode_path t then check_path
  convert_unix (item (bytes b)) = check_path b
  convert_unix _ = raise type_error

  -- `__convert_pyaddr_to_sockaddr` where the cache does not help.
  unfoldable pub convert_new : Family → Addr → Outcome Sockaddr
  unfolding convert_inet convert_inet6 convert_unix
  convert_new af_inet addr = convert_inet addr
  convert_new af_inet6 addr = convert_inet6 addr
  convert_new af_unix addr = convert_unix addr
  convert_new _ addr = raise value_error

  -- The key of a new entry of the cache: a path that is a text was replaced by its bytes.
  unfoldable pub kept_as : Family → Addr → Addr
  kept_as af_unix (item (str t)) = elim (env.encode_path t) as (λ x. Addr) [
    | ok b ↦ item (bytes b)
    | raise e ↦ item (str t)
  ]
  kept_as _ addr = addr

  -- `sockaddrs[addr] = ret`, once there is a `ret`.
  unfoldable pub remember : Family → Addr → Outcome Sockaddr → M Cache Sockaddr
  remember family addr (raise e) = throw e
  remember family addr (ok a) = do
    setitem Addr-discrete addr (some (record { family = family; addr = a }))
    pure a

  unfoldable pub found : Family → Addr → Option SockAddrHolder → M Cache Sockaddr
  unfolding convert_new remember kept_as
  found family addr none = remember family (kept_as family addr) (convert_new family addr)
  found family addr (some ret) =
      ite (Family-discrete ret.family family) (pure ret.addr)
        (remember family (kept_as family addr) (convert_new family addr))

  unfoldable pub convert_pyaddr_to_sockaddr : Family → Addr → M Cache Sockaddr
  unfolding found
  convert_pyaddr_to_sockaddr family addr c =
      if hashable addr
      then (do ret ← get Addr-discrete addr none; found family addr ret) c
      else (raise type_error, c)
