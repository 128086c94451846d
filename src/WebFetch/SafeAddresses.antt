-- ===== src/WebFetch/SafeAddresses.antt =====
-- The addresses that `ValidateAndResolve` of `safeurl/policy.go` lets through.
use search_x.Prelude.{
  inl, inr, refl, [], Bool-cases, if◌then◌else◌, &&_true, ◌∷◌, not, arith, All, map, ◌<◌, List,
  length, false, true, ◌||◌, Bool, ◌≡◌,
}
use search_x.WebFetch.SafeUrl.{
  is_permitted, looked_up, check_addresses, reserved_prefixes, is_reserved, is_public_address,
  is_allowlisted_address, Libraries,
}
use search_x.WebFetch.Failures.{Outcome-cases, fail, Outcome, ok}
use search_x.Prelude.Text.{Text}

-- The kinds of addresses of `net/netip` that exclude one another.
pub record AddressLaws {A : Type 0} (lib : Libraries A) : Type 0 where
  pub unmaps : (a : A) → lib.unmap (lib.unmap a) ≡ lib.unmap a
  pub internal_plain :
      (a : A)
      → (lib.is_private a || lib.is_loopback a) ≡ true
      → (lib.is_link_local_unicast a ≡ false)
        × (lib.is_link_local_multicast a ≡ false)
        × (lib.is_multicast a ≡ false)
        × (lib.is_unspecified a ≡ false)

no_flag : (a b : Bool) → (a || b) ≡ false → (a ≡ false) × (b ≡ false)
no_flag a b h = ground arith

passed : (a b : Bool) → (if a then false else b) ≡ true → (a ≡ false) × (b ≡ true)
passed a b h = ground arith

not-false : (a : Bool) → not a ≡ false → a ≡ true
not-false a h = ground arith

not-true : (a : Bool) → not a ≡ true → a ≡ false
not-true a h = ground arith

module _ {A : Type 0} (lib : Libraries A) (laws : AddressLaws lib) where
  -- Link-local addresses, to which the metadata services of clouds belong, are never used.
  pub record IsSafeAddress (allowed : Bool) (a : A) : Type 0 where
    pub valid : lib.is_valid a ≡ true
    pub not_link_local : lib.is_link_local_unicast a ≡ false
    pub not_link_local_multicast : lib.is_link_local_multicast a ≡ false
    pub not_multicast : lib.is_multicast a ≡ false
    pub not_unspecified : lib.is_unspecified a ≡ false
    pub internal_if_allowed : (lib.is_private a || lib.is_loopback a) ≡ true → allowed ≡ true
    pub reserved_if_allowed : is_reserved lib reserved_prefixes a ≡ true → allowed ≡ true

  public-IsSafe :
      (allowed : Bool) (a : A)
      → lib.unmap a ≡ a
      → is_public_address lib a ≡ true
      → IsSafeAddress allowed a
  unfolding is_public_address
  public-IsSafe allowed a u h =
      let (flags, unreserved) = passed _ _ (rw u at h) in
      let (f7, unspecified) = no_flag _ _ flags in
      let (f6, multicast) = no_flag _ _ f7 in
      let (f5, link_multicast) = no_flag _ _ f6 in
      let (f4, link_local) = no_flag _ _ f5 in
      let (f3, loopback) = no_flag _ _ f4 in
      let (f2, internal) = no_flag _ _ f3 in
      let (invalid, _) = no_flag _ _ f2 in
      record {
        valid = not-false _ invalid;
        not_link_local = link_local;
        not_link_local_multicast = link_multicast;
        not_multicast = multicast;
        not_unspecified = unspecified;
        internal_if_allowed = λ e. absurd (cc (rw (internal, loopback) at e));
        reserved_if_allowed = λ e. absurd (cc (e, not-true _ unreserved));
      }

  allowlisted-IsSafe :
      (a : A) → lib.unmap a ≡ a → is_allowlisted_address lib a ≡ true → IsSafeAddress true a
  unfolding is_allowlisted_address
  allowlisted-IsSafe a u h =
      let (valid, internal) = &&_true _ _ (rw u at h) in
      let (local_, multi, cast, unspecified) = laws.internal_plain a internal in
      record {
        valid = valid;
        not_link_local = local_;
        not_link_local_multicast = multi;
        not_multicast = cast;
        not_unspecified = unspecified;
        internal_if_allowed = λ e. refl;
        reserved_if_allowed = λ e. refl;
      }

  permitted-IsSafe :
      (allowed : Bool) (a : A)
      → lib.unmap a ≡ a
      → is_permitted lib allowed a ≡ true
      → IsSafeAddress allowed a
  unfolding is_permitted
  permitted-IsSafe allowed a u h = elim (Bool-cases (is_public_address lib a)) [
    | inl p ↦ public-IsSafe allowed a u p
    | inr p ↦
        let (e, listed) = &&_true allowed (is_allowlisted_address lib a) (rw p at h) in
        rw e (allowlisted-IsSafe a u listed)
  ]

  pub check_addresses-safe :
      (allowed : Bool) (found : List A) (pinned : List Text)
      → All (λ a. lib.unmap a ≡ a) found
      → check_addresses lib allowed found ≡ ok pinned
      → (pinned ≡ map lib.as_slice found) × All (IsSafeAddress allowed) found
  unfolding check_addresses
  check_addresses-safe allowed [] pinned u h = (cc h, tt)
  check_addresses-safe allowed (a ∷ rest) pinned u h =
      elim (Bool-cases (is_permitted lib allowed a)) [
        | inr p ↦ absurd (cc (rw p at h))
        | inl p ↦ elim (Outcome-cases (check_addresses lib allowed rest)) [
          | inr (f, q) ↦ absurd (cc (rw (p, q) at h))
          | inl (ps, q) ↦
              let (e, safe) = check_addresses-safe allowed rest ps u.1 q in
              (cc (rw (p, q) at h, e), (permitted-IsSafe allowed a u.0 p, safe))
        ]
      ]

  map-unmapped : (found : List A) → All (λ a. lib.unmap a ≡ a) (map lib.unmap found)
  map-unmapped [] = tt
  map-unmapped (a ∷ found) = (laws.unmaps a, map-unmapped found)

  pub looked_up-unmapped :
      (r : Outcome (List A)) (found : List A)
      → looked_up lib r ≡ ok found
      → (0 < length found) × All (λ a. lib.unmap a ≡ a) found
  unfolding looked_up
  looked_up-unmapped (fail f) found h = absurd (cc h)
  looked_up-unmapped (ok []) found h = absurd (cc h)
  looked_up-unmapped (ok (a ∷ as_)) found h =
      let e : map lib.unmap (a ∷ as_) ≡ found = cc h in
      rw (← e) (omega arith, map-unmapped (a ∷ as_))
