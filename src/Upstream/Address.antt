-- ===== src/Upstream/Address.antt =====
-- internal/upstream/http.go: `AllowedAddress`, and the `DialContext` of `Transport`.
use budge.Base.{Bool, false, not, ◌||◌, Option, none, some, List, [], ◌∷◌, any, all, if◌then◌else◌}
use budge.Base.Text.{Text, codes}

-- `net/netip`: addresses, and the predicates that the program asks of them. `contains` is
-- `ParsePrefix` and `Contains`: `none` where the text is no prefix.
pub record NetIp (A : Type 0) : Type 0 where
  pub unmap : A → A
  pub is_valid : A → Bool
  pub is_loopback : A → Bool
  pub is_link_local_unicast : A → Bool
  pub is_link_local_multicast : A → Bool
  pub is_multicast : A → Bool
  pub is_unspecified : A → Bool
  pub is_private : A → Bool
  pub is_global_unicast : A → Bool
  pub contains : Text → A → Option Bool

-- The address space that is shared or reserved.
abbrev pub reserved_space : List Text
reserved_space =
    codes "100.64.0.0/10"
    ∷ codes "192.0.0.0/24"
    ∷ codes "198.18.0.0/15"
    ∷ codes "240.0.0.0/4"
    ∷ codes "64:ff9b::/96"
    ∷ codes "64:ff9b:1::/48"
    ∷ []

abbrev pub is_yes : Option Bool → Bool
is_yes none = false
is_yes (some b) = b

module _ {A : Type 0} (ip : NetIp A) where
  -- The first test of `AllowedAddress`.
  abbrev pub is_special : A → Bool
  is_special a =
      not (ip.is_valid a)
      || ip.is_loopback a
      || ip.is_link_local_unicast a
      || ip.is_link_local_multicast a
      || ip.is_multicast a
      || ip.is_unspecified a

  -- `AllowedAddress`.
  unfoldable pub allowed_address : A → Text → Bool
  allowed_address raw cidr =
      let a = ip.unmap raw in
      if is_special a
      then false
      else if any (λ p. is_yes (ip.contains p a)) reserved_space
      then false
      else if ip.is_private a
      then is_yes (ip.contains cidr a)
      else ip.is_global_unicast a

  -- The second loop of `DialContext`: the addresses that are dialed, and the one that answers.
  unfoldable pub dial_each : (A → Bool) → List A → List A × Option A
  dial_each connects [] = ([], none)
  dial_each connects (a ∷ as') =
      let (tried, found) = dial_each connects as' in
      if connects a then (a ∷ [], some a) else (a ∷ tried, found)

  -- `DialContext`; `resolved` is what `LookupNetIP` returns, or its error.
  unfoldable pub dial : (A → Bool) → Text → Option (List A) → List A × Option A
  unfolding allowed_address dial_each
  dial connects cidr none = ([], none)
  dial connects cidr (some ips) =
      if all (λ a. allowed_address a cidr) ips then dial_each connects ips else ([], none)
