-- ===== src/WebFetch/SafeUrl.antt =====
-- `webfetch/internal/fetch/safeurl/policy.go`. The packages `net/url`, `net/netip` and `strconv` and the
-- resolver are parameters; `A` is the type of addresses.
use search_x.Prelude.{
  ◌++◌, ◌==◌, ltb, map, not, ℕ, false, ◌&&◌, some, none, ◌∷◌, ◌||◌, Option, if◌then◌else◌, [], List,
  Bool,
}
use search_x.Prelude.Strings.{trim_space, to_lower, trim_suffix, is_member, one_of}
use search_x.Prelude.Text.{byte_length, Text, text_eq, codes}
use search_x.WebFetch.Failures.{Failure, Outcome, ok, fail, coded, plain}
use search_x.WebFetch.Pipeline.{SafeTarget}
use search_x.WebFetch.Types.{ErrorCode}

-- A parsed URL; `rest` is its path and query.
pub record Url : Type 0 where
  pub scheme : Text
  pub has_user : Bool
  pub host : Text
  pub fragment : Text
  pub rest : Text

-- `hostname` and `port` read them off the field `Host`; `parse_port` is `ParseUint` with 16 bits.
pub record Libraries (A : Type 0) : Type 0 where
  pub parse_url : Text → Outcome Url
  pub hostname : Text → Text
  pub port : Text → Text
  pub join_host_port : Text → Text → Text
  pub url_text : Url → Text
  pub parse_port : Text → Option ℕ
  pub parse_address : Text → Option A
  pub unmap : A → A
  pub is_valid : A → Bool
  pub is_global_unicast : A → Bool
  pub is_private : A → Bool
  pub is_loopback : A → Bool
  pub is_link_local_unicast : A → Bool
  pub is_link_local_multicast : A → Bool
  pub is_multicast : A → Bool
  pub is_unspecified : A → Bool
  pub prefix_contains : Text → A → Bool
  pub as_slice : A → Text
  pub unicode : ℕ → ℕ

-- `LookupNetIP`, for any kind of address.
abbrev pub Resolver : Type 0 → Type 0 → Type 0
Resolver S A = Text → S → S × Outcome (List A)

pub record Policy : Type 0 where
  pub allowed_hosts : List Text
  pub max_host_length : ℕ

abbrev pub reserved_prefixes : List Text
reserved_prefixes =
    codes "0.0.0.0/8"
    ∷ codes "100.64.0.0/10"
    ∷ codes "192.0.0.0/24"
    ∷ codes "192.0.2.0/24"
    ∷ codes "198.18.0.0/15"
    ∷ codes "198.51.100.0/24"
    ∷ codes "203.0.113.0/24"
    ∷ codes "240.0.0.0/4"
    ∷ codes "64:ff9b::/96"
    ∷ codes "64:ff9b:1::/48"
    ∷ codes "2002::/16"
    ∷ codes "2001:db8::/32"
    ∷ []

-- A `PolicyError`; it has the method `ReadErrorCode`.
unfoldable pub unsafe_error : Failure → Failure
unsafe_error f = coded ErrorCode.unsafe_url f

module _ {A : Type 0} (lib : Libraries A) where
  unfoldable pub canonical_host : Text → Text
  unfolding trim_space to_lower trim_suffix
  canonical_host host = trim_suffix b'.' (to_lower lib.unicode (trim_space host))

  unfoldable pub allowed_from : List Text → List Text
  unfolding canonical_host
  allowed_from [] = []
  allowed_from (h ∷ hs) =
      let host = canonical_host h in
      if text_eq host [] then allowed_from hs else host ∷ allowed_from hs

  -- `NewPolicy`
  unfoldable pub new_policy : List Text → ℕ → Policy
  unfolding allowed_from
  new_policy hosts most = record {
    allowed_hosts = allowed_from hosts;
    max_host_length = if most == 0 then 253 else most;
  }

  unfoldable pub is_reserved : List Text → A → Bool
  is_reserved [] a = false
  is_reserved (p ∷ ps) a = lib.prefix_contains p a || is_reserved ps a

  unfoldable pub is_public_address : A → Bool
  unfolding is_reserved
  is_public_address address =
      let a = lib.unmap address in
      if not (lib.is_valid a)
        || not (lib.is_global_unicast a)
        || lib.is_private a
        || lib.is_loopback a
        || lib.is_link_local_unicast a
        || lib.is_link_local_multicast a
        || lib.is_multicast a
        || lib.is_unspecified a
      then false
      else not (is_reserved reserved_prefixes a)

  unfoldable pub is_allowlisted_address : A → Bool
  is_allowlisted_address address =
      let a = lib.unmap address in lib.is_valid a && (lib.is_private a || lib.is_loopback a)

  unfoldable pub default_port : Text → Text
  default_port scheme = if text_eq scheme (codes "https") then codes "443" else codes "80"

  unfoldable pub is_port : Text → Bool
  is_port p = elim (lib.parse_port p) [ none ↦ false | some n ↦ not (n == 0) ]

  -- The port of a URL, or that of its scheme.
  unfoldable pub checked_port : Url → Outcome Text
  unfolding default_port is_port
  checked_port u =
      let p = lib.port u.host in
      if text_eq p []
      then ok (default_port u.scheme)
      else if is_port p
      then ok p
      else fail (plain (codes "invalid port"))

  unfoldable pub canonical_authority : Url → Text → Text
  unfolding one_of
  canonical_authority u host =
      if not (text_eq (lib.port u.host) [])
      then lib.join_host_port host (lib.port u.host)
      else if one_of b':' host
      then codes "[" ++ (host ++ codes "]")
      else host

  unfoldable pub canonical_url : Url → Text → Url
  unfolding canonical_authority to_lower
  canonical_url u host = record u {
    scheme = to_lower lib.unicode u.scheme;
    fragment = [];
    host = canonical_authority u host;
  }

  -- What `validateURL` tests before it looks at the port.
  unfoldable pub check_url : Policy → Url → Outcome Text
  unfolding canonical_host
  check_url policy u =
      let host = canonical_host (lib.hostname u.host) in
      if not (text_eq u.scheme (codes "http")) && not (text_eq u.scheme (codes "https"))
      then fail (plain (codes "scheme is not allowed"))
      else if u.has_user
      then fail (plain (codes "userinfo is not allowed"))
      else if text_eq host []
      then fail (plain (codes "host is required"))
      else if ltb policy.max_host_length (byte_length host)
      then fail (plain (codes "host exceeds the length limit"))
      else ok host

  unfoldable pub with_port : Url → Outcome Text → Outcome (Url × Text)
  unfolding checked_port canonical_url
  with_port u (fail f) = fail f
  with_port u (ok host) = elim (checked_port u) [
    | fail f ↦ fail f
    | ok p ↦ ok (canonical_url u host, host)
  ]

  unfoldable pub validate_parsed : Policy → Outcome Url → Outcome (Url × Text)
  unfolding check_url with_port
  validate_parsed policy (fail f) = fail f
  validate_parsed policy (ok u) = with_port u (check_url policy u)

  -- `validateURL`
  unfoldable pub validate_url : Policy → Text → Outcome (Url × Text)
  unfolding validate_parsed
  validate_url policy raw = validate_parsed policy (lib.parse_url raw)

  unfoldable pub looked_up : Outcome (List A) → Outcome (List A)
  looked_up (fail f) = fail f
  looked_up (ok []) = fail (plain (codes "DNS returned no addresses"))
  looked_up (ok (a ∷ as_)) = ok (map lib.unmap (a ∷ as_))

  unfoldable pub is_permitted : Bool → A → Bool
  unfolding is_public_address is_allowlisted_address
  is_permitted allow_private a = is_public_address a || (allow_private && is_allowlisted_address a)

  -- The first address that is not permitted ends the loop.
  unfoldable pub check_addresses : Bool → List A → Outcome (List Text)
  unfolding is_permitted
  check_addresses allow_private [] = ok []
  check_addresses allow_private (a ∷ rest) =
      let pinned = check_addresses allow_private rest in
      if is_permitted allow_private a
      then elim pinned [ fail f ↦ fail f | ok ps ↦ ok (lib.as_slice a ∷ ps) ]
      else fail (plain (codes "resolved address is not public"))

  unfoldable pub pin : Policy → Url → Text → Outcome (List A) → Outcome SafeTarget
  unfolding check_addresses unsafe_error is_member
  pin policy u host (fail f) = fail (coded ErrorCode.fetch_failed f)
  pin policy u host (ok found) =
      elim (check_addresses (is_member host policy.allowed_hosts) found) [
        | fail f ↦ fail (unsafe_error f)
        | ok pinned ↦ ok (record { url = some (lib.url_text u); addresses = pinned })
      ]

  module _ {S : Type 0} (resolver : Resolver S A) where
    -- `resolve`: a literal address needs no lookup.
    unfoldable pub resolve : Text → S → S × Outcome (List A)
    unfolding looked_up
    resolve host s = elim (lib.parse_address host) [
      | some a ↦ (s, ok (lib.unmap a ∷ []))
      | none ↦ let (t, found) = resolver host s in (t, looked_up found)
    ]

    unfoldable pub resolve_valid : Policy → Outcome (Url × Text) → S → S × Outcome SafeTarget
    unfolding unsafe_error resolve pin
    resolve_valid policy (fail f) s = (s, fail (unsafe_error f))
    resolve_valid policy (ok (u, host)) s =
        let (t, found) = resolve host s in (t, pin policy u host found)

    -- `ValidateAndResolve`
    unfoldable pub validate_and_resolve : Policy → Text → S → S × Outcome SafeTarget
    unfolding validate_url resolve_valid
    validate_and_resolve policy raw s = resolve_valid policy (validate_url policy raw) s
