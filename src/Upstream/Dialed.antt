-- ===== src/Upstream/Dialed.antt =====
-- Which addresses a dispatch may connect to.
use budge.Base.{
  arith, ◌≡◌, ◌⊎◌, inl, inr, Bool, true, false, Option, none, some, List, [], ◌∷◌, In, All,
  All-of_In, All-map, all-All, sym, subst, any, all, Bool-cases,
}
use mathlib.Core.Option.{some-injective}
use budge.Base.Text.{Text}
use budge.Upstream.Address.{
  NetIp, is_yes, is_special, reserved_space, allowed_address, dial_each, dial,
}

-- What an allowed address has.
pub record IsAllowed {A : Type 0} (ip : NetIp A) (a : A) (cidr : Text) : Type 0 where
  pub valid : ip.is_valid a ≡ true
  pub not_loopback : ip.is_loopback a ≡ false
  pub not_link_local : ip.is_link_local_unicast a ≡ false
  pub not_multicast : ip.is_multicast a ≡ false
  pub not_unspecified : ip.is_unspecified a ≡ false
  pub unreserved : any (λ p. is_yes (ip.contains p a)) reserved_space ≡ false
  -- A private address is in the service's own range; any other is a global unicast address.
  pub reach :
      ((ip.is_private a ≡ true) × (ip.contains cidr a ≡ some true))
      ⊎ ((ip.is_private a ≡ false) × (ip.is_global_unicast a ≡ true))

module _ {A : Type 0} (ip : NetIp A) where
  is_yes-some : (o : Option Bool) → is_yes o ≡ true → o ≡ some true
  is_yes-some none h = cc
  is_yes-some (some b) h = ground (arith, h)

  IsAllowed-IsAllowed :
      (a : A) (cidr : Text) → allowed_address ip a cidr ≡ true → IsAllowed ip (ip.unmap a) cidr
  unfolding allowed_address
  IsAllowed-IsAllowed a cidr h = elim (Bool-cases (is_special ip (ip.unmap a))) [
    | inl s ↦ let q : false ≡ true = rw (s, allowed_address) at h in cc
    | inr s ↦ elim (Bool-cases (any (λ p. is_yes (ip.contains p (ip.unmap a))) reserved_space)) [
      | inl r ↦ let q : false ≡ true = rw (s, r, allowed_address) at h in cc
      | inr r ↦ record {
        valid = ground (arith, s);
        not_loopback = ground (arith, s);
        not_link_local = ground (arith, s);
        not_multicast = ground (arith, s);
        not_unspecified = ground (arith, s);
        unreserved = r;
        reach = elim (Bool-cases (ip.is_private (ip.unmap a))) [
          | inl p ↦
              inl (
                p,
                is_yes-some (ip.contains cidr (ip.unmap a)) (rw (s, r, p, allowed_address) at h),
              )
          | inr p ↦ inr (p, rw (s, r, p, allowed_address) at h)
        ];
      }
    ]
  ]

  dial_each-In :
      (connects : A → Bool) (ips : List A) (a : A) → In a (dial_each ip connects ips).0 → In a ips
  unfolding dial_each
  dial_each-In connects [] a m = m
  dial_each-In connects (b ∷ ips) a m = elim (Bool-cases (connects b)) [
    | inl e ↦
        let q : (a ≡ b) ⊎ ⊥ = rw (e, dial_each) at m in
        elim q [ inl same ↦ inl same | inr no_more ↦ elim no_more [ ] ]
    | inr e ↦
        let q : (a ≡ b) ⊎ In a (dial_each ip connects ips).0 = rw (e, dial_each) at m in
        elim q [ inl same ↦ inl same | inr later ↦ inr (dial_each-In connects ips a later) ]
  ]

  dial_each-some :
      (connects : A → Bool) (ips : List A) (a : A)
      → (dial_each ip connects ips).1 ≡ some a
      → In a (dial_each ip connects ips).0 × (connects a ≡ true)
  unfolding dial_each
  dial_each-some connects [] a h = cc
  dial_each-some connects (b ∷ ips) a h = elim (Bool-cases (connects b)) [
    | inl e ↦
        let q : some b ≡ some a = rw (e, dial_each) at h in
        let same : a ≡ b = sym (some-injective b a q) in
        rw e (inl same, subst (λ x. connects x ≡ true) (sym same) e)
    | inr e ↦
        let q : (dial_each ip connects ips).1 ≡ some a = rw (e, dial_each) at h in
        let (m, c) = dial_each-some connects ips a q in rw e (inr m, c)
  ]

-- `DialContext` dials only addresses that the host resolved to, and only if all of these are
-- allowed: valid, no loopback, link-local, multicast, unspecified or reserved address, and private
-- only within the service's own range. The address that it connects to is one that it has dialed.
pub dial-IsAllowed :
    {A : Type 0} (ip : NetIp A) (connects : A → Bool) (cidr : Text) (ips : List A)
    → All
        (λ a. In a ips × All (λ b. IsAllowed ip (ip.unmap b) cidr) ips)
        (dial ip connects cidr (some ips)).0
      × ((a : A)
          → (dial ip connects cidr (some ips)).1 ≡ some a
          → In a (dial ip connects cidr (some ips)).0 × (connects a ≡ true))
unfolding dial
dial-IsAllowed {A} ip connects cidr ips =
    elim (Bool-cases (all (λ a. allowed_address ip a cidr) ips)) [
      | inl e ↦ rw e (
        All-of_In _ (dial_each ip connects ips).0 (λ a m. (
          dial_each-In ip connects ips a m,
          All-map (λ b q. IsAllowed-IsAllowed ip b cidr q) ips
              ((all-All (λ b. allowed_address ip b cidr) ips).0 e),
        )),
        dial_each-some ip connects ips,
      )
      | inr e ↦ rw e (tt, λ a h. cc)
    ]
