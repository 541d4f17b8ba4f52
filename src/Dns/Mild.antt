-- ===== src/Dns/Mild.antt =====
-- uvloop/dns.pyx: conversions raise nothing that `except Exception` does not catch.

use uvloop.Prelude.{
  ℕ, ◌≡◌, refl, ◌⊎◌, inl, inr, Bool, true, false, List, [], ◌∷◌, Option, none, some, ltb, length,
  if◌then◌else◌, ℤ, pos, negsuc, arith,
}
use uvloop.Errors.{message_error, UvError, convert_error, is_exception, value_error, type_error}
use uvloop.Python.{Outcome, ok, raise}
use uvloop.FlowControl.{to_int}
use uvloop.Dns.{
  Item, none_item, int, str, bytes, bytearray, object, list, Addr, tuple, item, Family, af_unspec,
  af_inet, af_inet6, af_unix, other_family, Proto, any_proto, tcp, udp, other_proto, Sockaddr, in4,
  in6, un, unknown, DnsEnv, PyAddr, pair, quadruple, ◌then◌, service, int_or_error, port_to_int,
  convert_sockaddr_to_pyaddr, encode_host, c_int, converted4, converted6, convert_inet,
  convert_inet6_parts, convert_inet6, check_path, convert_unix, convert_new, hashable,
}
use uvloop.Dns.Cached.{convert}

abbrev pub Caught : {A : Type 0} → Outcome A → Type 0
Caught (ok a) = Unit
Caught (raise e) = is_exception e ≡ true

abbrev pub Reported : {A : Type 0} → UvError ⊎ A → Type 0
Reported (inl err) = is_exception (convert_error err) ≡ true
Reported (inr a) = Unit

-- Python's codecs and conversions raise what derives from `Exception`, and libuv's functions on
-- addresses report no cancellation.
pub record Mild (env : DnsEnv) : Type 0 where
  pub ints : (n : ℕ) → Caught (env.int_of_object n)
  pub c_ints : (n : ℕ) → Caught (env.c_int_of_object n)
  pub decodes : (b : List ℕ) → Caught (env.decode b)
  pub services : (t : List ℕ) (p : Proto) → Caught (env.getservbyname t p)
  pub idna : (t : List ℕ) → Caught (env.encode_idna t)
  pub paths : (t : List ℕ) → Caught (env.encode_path t)
  pub ip4 : (h : List ℕ) (n : ℤ) → Reported (env.uv_ip4_addr h n)
  pub ip6 : (h : List ℕ) (n : ℤ) → Reported (env.uv_ip6_addr h n)
  pub name4 : (a : ℕ) → Reported (env.uv_ip4_name a)
  pub name6 : (a : ℕ) → Reported (env.uv_ip6_name a)

then-Caught :
    {A B : Type 0} (o : Outcome A) (f : A → Outcome B)
    → Caught o
    → ((a : A) → Caught (f a))
    → Caught (o then f)
then-Caught (ok a) f c k = k a
then-Caught (raise e) f c k = c

to_int-Caught : (n : ℤ) → Caught (to_int n)
unfolding to_int
to_int-Caught (pos n) = ground arith
to_int-Caught (negsuc n) = ground arith

module _ (env : DnsEnv) (m : Mild env) where
  service-Caught : (t : List ℕ) (p : Option Proto) → Caught (service env t p)
  unfolding service
  service-Caught t none = refl
  service-Caught t (some any_proto) = refl
  service-Caught t (some tcp) = m.services t tcp
  service-Caught t (some udp) = m.services t udp
  service-Caught t (some (other_proto n)) = refl

  int_or_error-Caught : (o : Outcome ℤ) → Caught o → Caught (int_or_error env o)
  unfolding int_or_error
  int_or_error-Caught (ok n) c = tt
  int_or_error-Caught (raise e) c = ground (arith, c)

  pub port_to_int-Caught : (port : Item) (p : Option Proto) → Caught (port_to_int env port p)
  unfolding port_to_int
  port_to_int-Caught none_item p = tt
  port_to_int-Caught (int n) p = tt
  port_to_int-Caught (str []) p = tt
  port_to_int-Caught (str (c ∷ t)) p = go (env.int_of_text (c ∷ t))
    where
      go :
          (o : Option ℤ)
          → Caught (elim o as (λ x. Outcome ℤ) [ some n ↦ ok n | none ↦ service env (c ∷ t) p ])
      go none = service-Caught (c ∷ t) p
      go (some n) = tt
  port_to_int-Caught (bytes []) p = tt
  port_to_int-Caught (bytes (c ∷ b)) p = go (env.int_of_bytes (c ∷ b))
    where
      go :
          (o : Option ℤ)
          → Caught (elim o as (λ x. Outcome ℤ) [
            | some n ↦ ok n
            | none ↦ env.decode (c ∷ b) then λ t. service env t p
          ])
      go none =
          then-Caught (env.decode (c ∷ b)) (λ t. service env t p) (m.decodes (c ∷ b))
            (λ t. service-Caught t p)
      go (some n) = tt
  port_to_int-Caught (bytearray []) p = tt
  port_to_int-Caught (bytearray (c ∷ b)) p = go (env.int_of_bytes (c ∷ b))
    where
      go :
          (o : Option ℤ)
          → Caught (elim o as (λ x. Outcome ℤ) [ some n ↦ ok n | none ↦ raise message_error ])
      go none = refl
      go (some n) = tt
  port_to_int-Caught (object n) p = int_or_error-Caught (env.int_of_object n) (m.ints n)
  port_to_int-Caught (list n) p = int_or_error-Caught (env.int_of_object n) (m.ints n)

  encode_host-Caught : (host : Item) → Caught (encode_host env host)
  unfolding encode_host
  encode_host-Caught none_item = refl
  encode_host-Caught (int n) = refl
  encode_host-Caught (str t) = go (env.encode_ascii t)
    where
      go :
          (o : Option (List ℕ))
          → Caught (elim o as (λ x. Outcome (List ℕ)) [ some b ↦ ok b | none ↦ env.encode_idna t ])
      go none = m.idna t
      go (some b) = tt
  encode_host-Caught (bytes b) = tt
  encode_host-Caught (bytearray b) = tt
  encode_host-Caught (object n) = refl
  encode_host-Caught (list n) = refl

  c_int-Caught : (i : Item) → Caught (c_int env i)
  unfolding c_int
  c_int-Caught none_item = refl
  c_int-Caught (int n) = to_int-Caught n
  c_int-Caught (str t) = refl
  c_int-Caught (bytes b) = refl
  c_int-Caught (bytearray b) = refl
  c_int-Caught (object n) = m.c_ints n
  c_int-Caught (list n) = m.c_ints n

  converted4-Caught : (r : UvError ⊎ (ℕ × ℕ)) → Reported r → Caught (converted4 env r)
  unfolding converted4
  converted4-Caught (inl err) c = c
  converted4-Caught (inr (a, port)) c = tt

  converted6-Caught : (f s : ℤ) (r : UvError ⊎ (ℕ × ℕ)) → Reported r → Caught (converted6 env f s r)
  unfolding converted6
  converted6-Caught f s (inl err) c = c
  converted6-Caught f s (inr (a, port)) c = tt

  convert_inet-Caught : (addr : Addr) → Caught (convert_inet env addr)
  unfolding convert_inet
  convert_inet-Caught (item i) = refl
  convert_inet-Caught (tuple []) = refl
  convert_inet-Caught (tuple (a ∷ [])) = refl
  convert_inet-Caught (tuple (host ∷ port ∷ [])) =
      then-Caught (encode_host env host) _ (encode_host-Caught host) (λ h.
        then-Caught (port_to_int env port none) _ (port_to_int-Caught port none) (λ p.
          then-Caught (to_int p) _ (to_int-Caught p)
            (λ n. converted4-Caught (env.uv_ip4_addr h n) (m.ip4 h n))))
  convert_inet-Caught (tuple (a ∷ b ∷ c ∷ l)) = refl

  inet6_parts-Caught :
      (host port flowinfo scope_id : Item)
      → Caught (convert_inet6_parts env host port flowinfo scope_id)
  unfolding convert_inet6_parts
  inet6_parts-Caught host port flowinfo scope_id =
      then-Caught (encode_host env host) _ (encode_host-Caught host) (λ h.
        then-Caught (port_to_int env port none) _ (port_to_int-Caught port none) (λ p.
          then-Caught (c_int env flowinfo) _ (c_int-Caught flowinfo) (λ f.
            then-Caught (c_int env scope_id) _ (c_int-Caught scope_id) (λ s.
              then-Caught (to_int p) _ (to_int-Caught p)
                (λ n. converted6-Caught f s (env.uv_ip6_addr h n) (m.ip6 h n))))))

  convert_inet6-Caught : (addr : Addr) → Caught (convert_inet6 env addr)
  unfolding convert_inet6
  convert_inet6-Caught (item i) = refl
  convert_inet6-Caught (tuple []) = refl
  convert_inet6-Caught (tuple (a ∷ [])) = refl
  convert_inet6-Caught (tuple (a ∷ b ∷ [])) = inet6_parts-Caught a b (int (pos 0)) (int (pos 0))
  convert_inet6-Caught (tuple (a ∷ b ∷ c ∷ [])) = inet6_parts-Caught a b c (int (pos 0))
  convert_inet6-Caught (tuple (a ∷ b ∷ c ∷ d ∷ [])) = inet6_parts-Caught a b c d
  convert_inet6-Caught (tuple (a ∷ b ∷ c ∷ d ∷ e ∷ l)) = refl

  check_path-Caught : (b : List ℕ) → Caught (check_path env b)
  unfolding check_path
  check_path-Caught b = go (ltb 107 (length b))
    where
      go : (x : Bool) → Caught (if x then raise value_error else ok (un b))
      go true = refl
      go false = tt

  convert_unix-Caught : (addr : Addr) → Caught (convert_unix env addr)
  unfolding convert_unix
  convert_unix-Caught (tuple l) = refl
  convert_unix-Caught (item none_item) = refl
  convert_unix-Caught (item (int n)) = refl
  convert_unix-Caught (item (str t)) =
      then-Caught (env.encode_path t) (check_path env) (m.paths t) check_path-Caught
  convert_unix-Caught (item (bytes b)) = check_path-Caught b
  convert_unix-Caught (item (bytearray b)) = refl
  convert_unix-Caught (item (object n)) = refl
  convert_unix-Caught (item (list n)) = refl

  convert_new-Caught : (family : Family) (addr : Addr) → Caught (convert_new env family addr)
  unfolding convert_new
  convert_new-Caught af_unspec addr = refl
  convert_new-Caught af_inet addr = convert_inet-Caught addr
  convert_new-Caught af_inet6 addr = convert_inet6-Caught addr
  convert_new-Caught af_unix addr = convert_unix-Caught addr
  convert_new-Caught (other_family n) addr = refl

  pub convert-Caught : (family : Family) (addr : Addr) → Caught (convert env family addr)
  convert-Caught family addr = go (hashable addr)
    where
      go : (b : Bool) → Caught (if b then convert_new env family addr else raise type_error)
      go true = convert_new-Caught family addr
      go false = refl

  pub pyaddr-Caught : (a : Sockaddr) → Caught (convert_sockaddr_to_pyaddr env a)
  unfolding convert_sockaddr_to_pyaddr
  pyaddr-Caught (in4 a port) = go (env.uv_ip4_name a) (m.name4 a)
    where
      go :
          (r : UvError ⊎ List ℕ)
          → Reported r
          → Caught (elim r as (λ x. Outcome PyAddr) [
            | inl err ↦ raise (convert_error err)
            | inr name ↦ ok (pair name (env.ntohs port))
          ])
      go (inl err) c = c
      go (inr name) c = tt
  pyaddr-Caught (in6 a port flowinfo scope_id) = go (env.uv_ip6_name a) (m.name6 a)
    where
      go :
          (r : UvError ⊎ List ℕ)
          → Reported r
          → Caught (elim r as (λ x. Outcome PyAddr) [
            | inl err ↦ raise (convert_error err)
            | inr name ↦ ok (quadruple name (env.ntohs port) (env.ntohl flowinfo) scope_id)
          ])
      go (inl err) c = c
      go (inr name) c = tt
  pyaddr-Caught (un p) = tt
  pyaddr-Caught (unknown n) = refl
