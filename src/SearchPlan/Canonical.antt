-- ===== src/SearchPlan/Canonical.antt =====
-- `CanonicalizeURL` in `plan.go`, over what it uses of the packages `net/url`, `net` and `path`.
use search_x.Prelude.{
  some, none, ◌++◌, not, ◌∷◌, ◌&&◌, [], ◌||◌, List, if◌then◌else◌, Bool, Option, ℕ,
}
use search_x.Prelude.Text.{text_eq, codes, Text}
use search_x.Prelude.Strings.{trim_suffix, is_member, has_suffix, trim_space, to_lower, has_prefix}

-- A parsed URL, `U`, and its parts; `query` lists the parameters in the order that `Encode` writes.
-- `to_string` is `String` after the scheme, host, path and raw query were set to its arguments and
-- the fragment was cleared.
pub record UrlLib (U : Type 0) : Type 0 where
  pub parse : Text → Option U
  pub scheme : U → Text
  pub host : U → Text
  pub hostname : U → Text
  pub port : U → Text
  pub path : U → Text
  pub query : U → List (Text × List Text)
  pub encode : List (Text × List Text) → Text
  pub clean : Text → Text
  pub join_host_port : Text → Text → Text
  pub to_string : U → Text → Text → Text → Text → Text

-- `trackingParameters`, and the prefix `utm_`.
unfoldable pub is_tracking : Text → Bool
unfolding has_prefix is_member
is_tracking key =
    has_prefix key (codes "utm_")
    || is_member key (
        codes "fbclid"
        ∷ codes "gclid"
        ∷ codes "dclid"
        ∷ codes "msclkid"
        ∷ codes "mc_cid"
        ∷ codes "mc_eid"
        ∷ [])

module _ {U : Type 0} (lib : UrlLib U) (unicode : ℕ → ℕ) where
  unfoldable pub without_tracking : List (Text × List Text) → List (Text × List Text)
  unfolding is_tracking to_lower
  without_tracking [] = []
  without_tracking ((key, values) ∷ q) =
      if is_tracking (to_lower unicode key)
      then without_tracking q
      else (key, values) ∷ without_tracking q

  unfoldable pub is_default_port : Text → Text → Bool
  is_default_port scheme port =
      (text_eq scheme (codes "http") && text_eq port (codes "80"))
      || (text_eq scheme (codes "https") && text_eq port (codes "443"))

  unfoldable pub canonical_host : Text → Text → Text → Text
  unfolding is_default_port
  canonical_host scheme hostname port =
      if is_default_port scheme port || text_eq port []
      then hostname
      else lib.join_host_port hostname port

  unfoldable pub canonical_path : Text → Text
  unfolding has_suffix
  canonical_path [] = codes "/"
  canonical_path (c ∷ p) =
      let cleaned = lib.clean (c ∷ p) in
      if has_suffix (c ∷ p) (codes "/") && not (text_eq cleaned (codes "/"))
      then cleaned ++ codes "/"
      else cleaned

  unfoldable pub canonical_hostname : U → Text
  unfolding to_lower trim_suffix
  canonical_hostname u = to_lower unicode (trim_suffix b'.' (lib.hostname u))

  unfoldable pub is_web : U → Bool
  is_web u =
      (text_eq (lib.scheme u) (codes "http") || text_eq (lib.scheme u) (codes "https"))
      && not (text_eq (lib.host u) [])

  -- The canonical URL and the domain, or an error.
  unfoldable pub canonicalize : Text → Option (Text × Text)
  unfolding trim_space is_web canonical_hostname canonical_host canonical_path without_tracking
  canonicalize raw = elim (lib.parse (trim_space raw)) [
    | none ↦ none
    | some u ↦
        let scheme = to_lower unicode (lib.scheme u) in
        let hostname = canonical_hostname u in
        if not (is_web u) || text_eq hostname []
        then none
        else some (
          lib.to_string u scheme (canonical_host scheme hostname (lib.port u))
              (canonical_path (lib.path u)) (lib.encode (without_tracking (lib.query u))),
          hostname,
        )
  ]
