-- ===== src/Dns/Static.antt =====
-- uvloop/dns.pyx: addresses that need no lookup.

use uvloop.Prelude.{
  ℕ, ◌%◌, Bool, true, false, List, [], ◌∷◌, Option, none, some, ◌==◌, if◌then◌else◌, ℤ,
}
use uvloop.Errors.{is_exception}
use uvloop.Python.{M, ◌>>=◌, Outcome, ok, raise, bind, pure}
use uvloop.Dns.{
  Item, int, str, tuple, Family, af_unspec, af_inet, af_inet6, Proto, any_proto, tcp, udp, Sockaddr,
  PyAddr, DnsEnv, Cache, ◌then◌, port_to_int, convert_sockaddr_to_pyaddr,
  convert_pyaddr_to_sockaddr,
}

-- The numbers of `SOCK_STREAM` and `SOCK_DGRAM`, and whether `socket.type` can have more bits.
pub record SocketTypes : Type 0 where
  pub has_nonblock : Bool
  pub sock_stream : ℕ
  pub sock_dgram : ℕ

-- `sock_type & 0xF` is the remainder by 16.
abbrev is_sock : SocketTypes → ℕ → ℕ → Bool
is_sock types kind sock_type = (if types.has_nonblock then sock_type % 16 else sock_type) == kind

unfoldable pub proto_of : SocketTypes → ℕ → Option Proto
proto_of types sock_type =
    if is_sock types types.sock_stream sock_type
    then some tcp
    else if is_sock types types.sock_dgram sock_type
    then some udp
    else none

abbrev pub allowed : Proto → Bool
allowed any_proto = true
allowed tcp = true
allowed udp = true
allowed _ = false

-- An `Outcome` of which `except Exception: pass` makes a missing value.
abbrev pub ignored : {A : Type 0} → Outcome A → Outcome (Option A)
ignored (ok a) = ok (some a)
ignored (raise e) = if is_exception e then ok none else raise e

-- What `__static_getaddrinfo` returns, with the address that it writes; it gives back the type of
-- socket as it was given.
pub record Found : Type 0 where
  pub family : Family
  pub proto : Proto
  pub addr : Sockaddr

-- What `__static_getaddrinfo_pyaddr` returns, but for the type of socket.
pub record AddrEntry : Type 0 where
  pub family : Family
  pub proto : Proto
  pub canon_name : List ℕ
  pub addr : PyAddr

module _ (env : DnsEnv) where
  -- One `try` of `__static_getaddrinfo`.
  unfoldable pub attempt : Family → Item → ℤ → Proto → M Cache (Option Found)
  unfolding convert_pyaddr_to_sockaddr
  attempt family host port proto c =
      let r = convert_pyaddr_to_sockaddr env family (tuple (host ∷ int port ∷ [])) c in
      bind (ignored r.0, r.1)
        (λ o. pure (elim o [
          | none ↦ none
          | some a ↦ some (record { family = family; proto = proto; addr = a })
        ]))

  unfoldable pub attempts : Family → Item → ℤ → Proto → M Cache (Option Found)
  unfolding attempt
  attempts af_unspec host port proto = do
    o ← attempt af_inet host port proto
    elim o as (λ x. M Cache (Option Found)) [
      | some f ↦ pure (some f)
      | none ↦ attempt af_inet6 host port proto
    ]
  attempts family host port proto = attempt family host port proto

  unfoldable pub canon_name : Bool → Item → Outcome (List ℕ)
  canon_name true (str t) = ok t
  canon_name true host = env.decode_ascii host
  canon_name false host = ok []

  -- The entry for what `__static_getaddrinfo` found; `canonical` is the flag `AI_CANONNAME`.
  unfoldable pub entry_of : Bool → Item → Option Found → Outcome (Option AddrEntry)
  unfolding canon_name
  entry_of canonical host none = ok none
  entry_of canonical host (some f) = ignored (convert_sockaddr_to_pyaddr env f.addr) then λ o.
      elim o as (λ x. Outcome (Option AddrEntry)) [
        | none ↦ ok none
        | some a ↦ canon_name canonical host then λ name.
            ok (some (record { family = f.family; proto = f.proto; canon_name = name; addr = a }))
      ]

module _ (env : DnsEnv) (types : SocketTypes) where
  unfoldable pub static_getaddrinfo : Item → Item → Family → ℕ → Proto → M Cache (Option Found)
  unfolding attempts proto_of
  static_getaddrinfo host port family sock_type proto c =
      if allowed proto
      then elim (proto_of types sock_type) as (λ x. Outcome (Option Found) × Cache) [
        | none ↦ (ok none, c)
        | some p ↦
            bind (ignored (port_to_int env port (some p)), c)
              (λ o. elim o as (λ x. M Cache (Option Found)) [
                | none ↦ pure none
                | some n ↦ attempts env family host n p
              ])
      ]
      else (ok none, c)

  unfoldable pub static_getaddrinfo_pyaddr :
      Item → Item → Family → ℕ → Proto → Bool → M Cache (Option AddrEntry)
  unfolding static_getaddrinfo entry_of
  static_getaddrinfo_pyaddr host port family sock_type proto canonical = do
    triplet ← static_getaddrinfo host port family sock_type proto
    λ c. (entry_of env canonical host triplet, c)
