-- ===== src/WebFetch/SafeTargets.antt =====
-- What `ValidateAndResolve` of `safeurl/policy.go` lets through.
use search_x.WebFetch.SafeAddresses.{
  AddressLaws, IsSafeAddress, check_addresses-safe, looked_up-unmapped,
}
use mathlib.Core.Path.{subst}
use search_x.Prelude.{
  ◌∙◌, sym, ltb, ◌&&◌, ap, Option-cases, inl, inr, refl, [], Bool-cases, ◌∷◌, not, arith, All, map,
  ◌<◌, List, some, ◌≤◌, length, false, ◌⊎◌, ◌≡◌,
}
use search_x.WebFetch.SafeUrl.{
  checked_port, with_port, pin, validate_parsed, validate_url, resolve, validate_and_resolve,
  check_url, Resolver, check_addresses, canonical_url, canonical_host, Url, Policy, Libraries,
}
use search_x.WebFetch.Failures.{Outcome-cases, fail, Outcome, ok}
use search_x.WebFetch.Pipeline.{SafeTarget}
use search_x.Prelude.Strings.{is_member}
use search_x.Prelude.Text.{byte_length, text_eq→eq, text_eq, Text, codes}

module _ {A : Type 0} (lib : Libraries A) (laws : AddressLaws lib) where
  -- A target for the URL `raw`.
  pub record IsSafeTarget (policy : Policy) (raw : Text) (t : SafeTarget) : Type 0 where
    pub parsed : Url
    pub from_raw : lib.parse_url raw ≡ ok parsed
    pub web_scheme : (parsed.scheme ≡ codes "http") ⊎ (parsed.scheme ≡ codes "https")
    pub no_user : parsed.has_user ≡ false
    pub host_bounded :
        byte_length (canonical_host lib (lib.hostname parsed.host)) ≤ policy.max_host_length
    pub url_text_of :
        t.url
        ≡ some (
            lib.url_text (canonical_url lib parsed (canonical_host lib (lib.hostname parsed.host))))
    pub found : List A
    pub resolved : 0 < length found
    pub pinned : t.addresses ≡ map lib.as_slice found
    pub all_safe :
        All
          (IsSafeAddress lib laws
            (is_member (canonical_host lib (lib.hostname parsed.host)) policy.allowed_hosts))
          found

  check_url-eq :
      (policy : Policy) (u : Url) (host : Text)
      → check_url lib policy u ≡ ok host
      → (host ≡ canonical_host lib (lib.hostname u.host))
        × ((u.scheme ≡ codes "http") ⊎ (u.scheme ≡ codes "https"))
        × (u.has_user ≡ false)
        × (byte_length host ≤ policy.max_host_length)
  unfolding check_url
  check_url-eq policy u host h =
      let secure = text_eq u.scheme (codes "https") in
      let given = canonical_host lib (lib.hostname u.host) in
      elim (Bool-cases (not (text_eq u.scheme (codes "http")) && not secure)) [
        | inl a ↦ absurd (cc (rw a at h))
        | inr a ↦ elim (Bool-cases u.has_user) [
          | inl b ↦ absurd (cc (rw (a, b) at h))
          | inr b ↦ elim (Bool-cases (text_eq given [])) [
            | inl c ↦ absurd (cc (rw (a, b, c) at h))
            | inr c ↦ elim (Bool-cases (ltb policy.max_host_length (byte_length given))) [
              | inl d ↦ absurd (cc (rw (a, b, c, d) at h))
              | inr d ↦
                  let e : given ≡ host = cc (rw (a, b, c, d) at h) in
                  (sym e, web u.scheme a, b, rw (← e) (ground (arith, d)))
            ]
          ]
        ]
      ]
    where
      web :
          (v : Text)
          → (not (text_eq v (codes "http")) && not (text_eq v (codes "https"))) ≡ false
          → (v ≡ codes "http") ⊎ (v ≡ codes "https")
      web v k = elim (Bool-cases (text_eq v (codes "http"))) [
        | inl a ↦ inl (text_eq→eq v _ a)
        | inr a ↦ elim (Bool-cases (text_eq v (codes "https"))) [
          | inl b ↦ inr (text_eq→eq v _ b)
          | inr b ↦ absurd (cc (rw (a, b) at k))
        ]
      ]

  with_port-eq :
      (u v : Url) (c : Outcome Text) (host : Text)
      → with_port lib u c ≡ ok (v, host)
      → (c ≡ ok host) × (v ≡ canonical_url lib u host)
  unfolding with_port
  with_port-eq u v (fail f) host h = absurd (cc h)
  with_port-eq u v (ok given) host h = elim (Outcome-cases (checked_port lib u)) [
    | inr (f, a) ↦ absurd (cc (rw (with_port, a) at h))
    | inl (p, a) ↦
        let g = rw (with_port, a) at h in let e : given ≡ host = cc g in (ap ok e, rw (← e) (cc g))
  ]

  -- The address list that was found belongs to a safe target.
  pin-IsSafeTarget :
      (policy : Policy) (raw : Text) (u v : Url) (host : Text) (found : Outcome (List A))
      (target : SafeTarget)
      → lib.parse_url raw ≡ ok u
      → check_url lib policy u ≡ ok host
      → v ≡ canonical_url lib u host
      → ((as_ : List A) → found ≡ ok as_ → (0 < length as_) × All (λ a. lib.unmap a ≡ a) as_)
      → pin lib policy v host found ≡ ok target
      → IsSafeTarget policy raw target
  unfolding pin
  pin-IsSafeTarget policy raw u v host (fail f) target e c w k h = absurd (cc h)
  pin-IsSafeTarget policy raw u v host (ok found) target e c w k h =
      let allowed = is_member host policy.allowed_hosts in
      let (same, web, plain_user, short) = check_url-eq policy u host c in
      let (some_address, unmapped) = k found refl in
      elim (Outcome-cases (check_addresses lib allowed found)) [
        | inr (f, a) ↦ absurd (cc (rw (pin, a) at h))
        | inl (ps, a) ↦
            let (pins, safe) = check_addresses-safe lib laws allowed found ps unmapped a in
            let built : record { url = some (lib.url_text v); addresses = ps } ≡ target =
              cc (rw (pin, a) at h) in
            rw (← built) (record {
              parsed = u;
              from_raw = e;
              web_scheme = web;
              no_user = plain_user;
              host_bounded = subst (λ x. byte_length x ≤ policy.max_host_length) same short;
              url_text_of = ap (λ x. some (lib.url_text x)) (w ∙ ap (canonical_url lib u) same);
              found = found;
              resolved = some_address;
              pinned = pins;
              all_safe =
                  subst (λ x. All (IsSafeAddress lib laws (is_member x policy.allowed_hosts)) found)
                    same safe;
            })
      ]

  module _ {S : Type 0} (resolver : Resolver S A) where
    resolve-unmapped :
        (host : Text) (s : S) (found : List A)
        → (resolve lib resolver host s).1 ≡ ok found
        → (0 < length found) × All (λ a. lib.unmap a ≡ a) found
    unfolding resolve
    resolve-unmapped host s found h = elim (Option-cases (lib.parse_address host)) [
      | inl a ↦ looked_up-unmapped lib laws (resolver host s).1 found (rw (resolve, a) at h)
      | inr (x, a) ↦
          let e : lib.unmap x ∷ [] ≡ found = cc (rw (resolve, a) at h) in
          rw (← e) (omega arith, (laws.unmaps x, tt))
    ]

    -- A target that passes the policy has a URL with the scheme `http` or `https`, no user and a host
    -- within the limit, which is the one of the given URL; and at least one address, each of them valid
    -- and neither link-local nor multicast nor unspecified, and neither private nor a loopback nor a
    -- reserved address unless the host is an allowed one.
    pub validate_and_resolve-IsSafeTarget :
        (policy : Policy) (raw : Text) (s t : S) (target : SafeTarget)
        → validate_and_resolve lib resolver policy raw s ≡ (t, ok target)
        → IsSafeTarget policy raw target
    unfolding validate_and_resolve validate_url validate_parsed
    validate_and_resolve-IsSafeTarget policy raw s t target h =
        elim (Outcome-cases (lib.parse_url raw)) [
          | inr (f, a) ↦ absurd (cc (rw a at h))
          | inl (u, a) ↦ elim (Outcome-cases (with_port lib u (check_url lib policy u))) [
            | inr (f, b) ↦ absurd (cc (rw (a, b) at h))
            | inl ((v, host), b) ↦
                let (c, e) = with_port-eq u v (check_url lib policy u) host b in
                pin-IsSafeTarget policy raw u v host (resolve lib resolver host s).1 target a c e
                  (λ as_ k. resolve-unmapped host s as_ k) (ap (λ x. x.1) (rw (a, b) at h))
          ]
        ]
