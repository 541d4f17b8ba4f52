-- ===== src/Dns/Cached.antt =====
-- uvloop/dns.pyx: the cache of converted addresses.
use mathlib.Core.Logic.{ite}
use mathlib.Core.Path.{subst}
use uvloop.Prelude.{
  ℕ, ◌≡◌, refl, sym, ap, ◌∙◌, ◌⊎◌, inl, inr, Bool, true, false, List, [], ◌∷◌, Option, none, some,
  All, if◌then◌else◌,
}
use uvloop.Errors.{type_error}
use uvloop.Python.{◌>>=◌, Outcome, ok, raise, bind, pure}
use uvloop.Lru.{get, setitem}
use uvloop.Lru.Kept.{get_lem, setitem-All, setitem_returns}
use uvloop.Dns.{
  Addr, Family, Sockaddr, DnsEnv, SockAddrHolder, Addr-discrete, Family-discrete, Cache, hashable,
  convert_new, convert_unix, check_path, kept_as, remember, af_unspec, af_inet, af_inet6, af_unix,
  other_family, tuple, item, none_item, int, str, bytes, bytearray, object, list, ◌then◌, found,
  convert_pyaddr_to_sockaddr,
}

module _ (env : DnsEnv) where
  -- An address that has a hash is converted anew; one that has none is a `TypeError`.
  abbrev pub convert : Family → Addr → Outcome Sockaddr
  convert family addr = if hashable addr then convert_new env family addr else raise type_error

  -- What is kept for an address is what it converts to, for the family that is kept with it.
  abbrev pub Right : Addr × Option SockAddrHolder → Type 0
  Right (addr, none) = Unit
  Right (addr, some h) = convert_new env h.family addr ≡ ok h.addr

  abbrev pub Sound : Cache → Type 0
  Sound c = All Right c.dict

  -- A step with the outcome `o` that leaves the cache right.
  pub record Gives {A : Type 0} (o : Outcome A) (r : Outcome A × Cache) : Type 0 where
    pub returns : r.0 ≡ o
    pub sound : Sound r.1

  remember_lem :
      (family : Family) (addr : Addr) (c : Cache)
      → Sound c
      → (o : Outcome Sockaddr) → convert_new env family addr ≡ o
      → Gives o (remember env family addr o c)
  unfolding remember
  remember_lem family addr c s (raise e) q = record { returns = refl; sound = s }
  remember_lem family addr c s (ok a) q =
      let h : SockAddrHolder = record { family = family; addr = a } in
      subst (λ r. Gives (ok a) (bind (r, (setitem Addr-discrete addr (some h) c).1) (λ _. pure a)))
        (sym (setitem_returns Addr-discrete addr (some h) c))
        (record { returns = refl; sound = setitem-All Addr-discrete Right addr (some h) c q s })

  kept_as_lem :
      (family : Family) (addr : Addr)
      → convert_new env family (kept_as env family addr) ≡ convert_new env family addr
  unfolding kept_as convert_new convert_unix
  kept_as_lem af_unspec addr = refl
  kept_as_lem af_inet addr = refl
  kept_as_lem af_inet6 addr = refl
  kept_as_lem (other_family n) addr = refl
  kept_as_lem af_unix (tuple l) = refl
  kept_as_lem af_unix (item none_item) = refl
  kept_as_lem af_unix (item (int n)) = refl
  kept_as_lem af_unix (item (bytes b)) = refl
  kept_as_lem af_unix (item (bytearray b)) = refl
  kept_as_lem af_unix (item (object n)) = refl
  kept_as_lem af_unix (item (list n)) = refl
  kept_as_lem af_unix (item (str t)) = go (env.encode_path t) refl
    where
      key : Outcome (List ℕ) → Addr
      key o = elim o as (λ x. Addr) [ ok b ↦ item (bytes b) | raise e ↦ item (str t) ]

      go :
          (o : Outcome (List ℕ))
          → env.encode_path t ≡ o
          → convert_unix env (key o) ≡ (o then check_path env)
      go (ok b) q = refl
      go (raise e) q = ap (λ o. o then check_path env) q

  -- A new entry.
  new_lem :
      (family : Family) (addr : Addr) (c : Cache)
      → Sound c
      → Gives
          (convert_new env family addr)
          (remember env family (kept_as env family addr) (convert_new env family addr) c)
  new_lem family addr c s =
      remember_lem family (kept_as env family addr) c s (convert_new env family addr)
        (kept_as_lem family addr)

  found_lem :
      (family : Family) (addr : Addr) (c : Cache) (o : Option SockAddrHolder)
      → Sound c
      → Right (addr, o)
      → Gives (convert_new env family addr) (found env family addr o c)
  unfolding found
  found_lem family addr c none s p = new_lem family addr c s
  found_lem family addr c (some h) s p = go (Family-discrete h.family family)
    where
      go :
          (x : Dec (h.family ≡ family))
          → Gives (convert_new env family addr) (
              ite x
                (pure h.addr)
                (remember env family (kept_as env family addr) (convert_new env family addr))
                c)
      go (yes e) = record { returns = sym p ∙ ap (λ f. convert_new env f addr) e; sound = s }
      go (no n) = new_lem family addr c s

  pub convert_pyaddr_lem :
      (family : Family) (addr : Addr) (c : Cache)
      → Sound c
      → Gives (convert family addr) (convert_pyaddr_to_sockaddr env family addr c)
  unfolding convert_pyaddr_to_sockaddr
  convert_pyaddr_lem family addr c s = go (hashable addr)
    where
      right : (o : Option SockAddrHolder) → (o ≡ none) ⊎ Right (addr, o) → Right (addr, o)
      right o (inl e) = subst (λ x. Right (addr, x)) (sym e) tt
      right o (inr r) = r

      go :
          (b : Bool)
          → Gives (if b then convert_new env family addr else raise type_error) (
              if b
              then (do ret ← get Addr-discrete addr none; found env family addr ret) c
              else (raise type_error, c))
      go false = record { returns = refl; sound = s }
      go true =
          let g = get_lem Addr-discrete Right addr none c s in
          let t = (get Addr-discrete addr none c).1 in
          subst (λ r. Gives (convert_new env family addr) (bind (r, t) (found env family addr)))
            (sym g.returns) (found_lem family addr t g.value g.kept (right g.value g.is_good))

  -- A sequence of conversions, through one cache.
  unfoldable pub convert_each : List (Family × Addr) → Cache → List (Outcome Sockaddr) × Cache
  unfolding convert_pyaddr_to_sockaddr
  convert_each [] c = ([], c)
  convert_each ((family, addr) ∷ l) c =
      let r = convert_pyaddr_to_sockaddr env family addr c in
      let rest = convert_each l r.1 in (r.0 ∷ rest.0, rest.1)
