-- ===== src/Dns/Lookups.antt =====
-- uvloop/dns.pyx: `__static_getaddrinfo` against the first family that the host is an address of.
use uvloop.Prelude.{ℕ, Bool, List, [], ◌∷◌, Option, none, some, if◌then◌else◌, ℤ}
use uvloop.Python.{Outcome, ok, raise}
use uvloop.Dns.{
  Item, int, tuple, Family, af_unspec, af_inet, af_inet6, Proto, DnsEnv, ◌then◌, port_to_int,
  convert_sockaddr_to_pyaddr,
}
use uvloop.Dns.Cached.{convert}
use uvloop.Dns.Mild.{Mild}
use uvloop.Dns.Static.{SocketTypes, proto_of, allowed, Found, AddrEntry, canon_name}

abbrev pub to_option : {A : Type 0} → Outcome A → Option A
to_option (ok a) = some a
to_option (raise e) = none

-- The families that are tried, in order.
abbrev pub families_of : Family → List Family
families_of af_unspec = af_inet ∷ af_inet6 ∷ []
families_of family = family ∷ []

-- A partial value of a partial value.
infixl 5 ◌and_then◌
abbrev pub ◌and_then◌ : {A B : Type 0} → Option A → (A → Option B) → Option B
none and_then f = none
some a and_then f = f a

module _ (env : DnsEnv) where
  -- The first family for which the host and the port convert; a host without a hash does not.
  abbrev pub first_found : List Family → Item → ℤ → Proto → Option Found
  first_found [] host port proto = none
  first_found (f ∷ fs) host port proto =
      elim (to_option (convert env f (tuple (host ∷ int port ∷ [])))) [
        | some a ↦ some (record { family = f; proto = proto; addr = a })
        | none ↦ first_found fs host port proto
      ]

  -- What a lookup finds, whatever the cache holds.
  abbrev pub finds : SocketTypes → Item → Item → Family → ℕ → Proto → Option Found
  finds types host port family sock_type proto =
      if allowed proto
      then (proto_of types sock_type and_then λ p.
          to_option (port_to_int env port (some p)) and_then λ n.
          first_found (families_of family) host n p)
      else none

  -- The entry of what was found.
  abbrev pub entry : Bool → Item → Option Found → Outcome (Option AddrEntry)
  entry canonical host none = ok none
  entry canonical host (some f) =
      elim (to_option (convert_sockaddr_to_pyaddr env f.addr))
        as (λ x. Outcome (Option AddrEntry)) [
          | none ↦ ok none
          | some a ↦ canon_name env canonical host then λ name.
              ok (some (record { family = f.family; proto = f.proto; canon_name = name; addr = a }))
        ]
