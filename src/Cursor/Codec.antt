-- ===== src/Cursor/Codec.antt =====
-- `cursor/codec.go`. Bytes are numbers. The packages `crypto/aes`, `crypto/cipher`, `encoding/base64`
-- and `encoding/json` are parameters; the clock, and what `rand.Reader` gives, are arguments.
use search_x.Prelude.{
  take, drop, ℕ, ◌+◌, Bool, false, not, ◌&&◌, ◌||◌, List, [], ◌++◌, length, leb, ltb, ◌==◌,
  if◌then◌else◌,
}
use search_x.Prelude.Int.{ℤ, pos, negsuc, leb_int}
use search_x.Prelude.Text.{Text, text_eq, codes}
use search_x.Prelude.Strings.{has_prefix, trim_space}
use search_x.Domain.Attempts.{ProviderName}
use search_x.Domain.Errors.{Error, plain}
use search_x.Domain.Fallible.{Fallible, ok, fail, ◌>>=◌}

abbrev pub Bytes : Type 0
Bytes = List ℕ

-- `expires_at` is 0 for the zero time.
pub record State : Type 0 where
  pub version : ℤ
  pub query_hash : Text
  pub request_fingerprint : Text
  pub provider : ProviderName
  pub providers : List Text
  pub provider_page : ℤ
  pub provider_page_token : Text
  pub limit : ℤ
  pub expires_at : ℕ

-- `cipher.AEAD`: `seal nonce plain data` is the ciphertext with its tag.
pub record Aead : Type 0 where
  pub nonce_size : ℕ
  pub seal : Bytes → Bytes → Bytes → Bytes
  pub unseal : Bytes → Bytes → Bytes → Fallible Bytes

-- `base64.RawURLEncoding` and `json.Marshal`, `json.Unmarshal` on a `State`; `cipher_of` is the AES-GCM
-- of the digest of a secret.
pub record Formats : Type 0 where
  pub encode_base64 : Bytes → Text
  pub decode_base64 : Text → Fallible Bytes
  pub marshal : State → Fallible Bytes
  pub unmarshal : Bytes → Fallible State
  pub cipher_of : Text → Fallible Aead

pub record Codec : Type 0 where
  pub aead : Aead
  pub ttl : ℕ

abbrev pub err_invalid : Error
err_invalid = plain (codes "invalid cursor")

abbrev pub err_expired : Error
err_expired = plain (codes "cursor expired")

abbrev pub prefix_v1 : Text
prefix_v1 = codes "cur_v1_"

abbrev pub prefix_v2 : Text
prefix_v2 = codes "cur_v2_"

abbrev pub data_v1 : Bytes
data_v1 = codes "search-cursor-v1"

abbrev pub data_v2 : Bytes
data_v2 = codes "search-cursor-v2"

unfoldable pub is_int : ℕ → ℤ → Bool
is_int n (pos m) = m == n
is_int n (negsuc m) = false

-- `strings.TrimPrefix`, where the text has the prefix.
unfoldable pub after_prefix : Text → Text → Text
unfolding drop
after_prefix prefix token = drop (length prefix) token

-- A state with a query hash only is of the first version.
unfoldable pub is_legacy : State → Bool
unfolding text_eq
is_legacy s = text_eq s.request_fingerprint [] && not (text_eq s.query_hash [])

-- The version and the time of expiry that `Encode` fills in.
unfoldable pub stamped : Codec → ℕ → State → State
unfolding is_legacy
stamped codec now s = record s {
  version = pos (if is_legacy s then 1 else 2);
  expires_at = if s.expires_at == 0 then now + codec.ttl else s.expires_at;
}

-- The last tests of `Decode`.
unfoldable pub is_malformed : State → Bool
unfolding is_int
is_malformed s =
    (not (is_int 1 s.version) && not (is_int 2 s.version))
    || not (leb_int (pos 1) s.provider_page)
    || not (leb_int (pos 1) s.limit)
    || length s.providers == 0
    || (is_int 2 s.version && text_eq s.request_fingerprint [])

unfoldable pub check_state : ℕ → State → Fallible State
unfolding is_malformed
check_state now s =
    if is_malformed s
    then fail err_invalid
    else if ltb now s.expires_at
    then ok s
    else fail err_expired

-- Any error of a library counts as an invalid cursor.
unfoldable pub as_err_invalid : {A : Type 0} → Fallible A → Fallible A
as_err_invalid (ok x) = ok x
as_err_invalid (fail e) = fail err_invalid

module _ (lib : Formats) where
  unfoldable pub new_codec : Text → ℕ → Fallible Codec
  unfolding trim_space
  new_codec secret ttl =
      if text_eq (trim_space secret) []
      then fail (plain (codes "cursor secret must not be empty"))
      else if ttl == 0
      then fail (plain (codes "cursor TTL must be positive"))
      else lib.cipher_of secret >>= λ aead. ok (record { aead = aead; ttl = ttl })

  unfoldable pub encode : Codec → ℕ → Fallible Bytes → State → Fallible Text
  unfolding is_legacy stamped
  encode codec now random s = lib.marshal (stamped codec now s) >>= λ bytes. random >>= λ nonce.
      let additional = if is_legacy s then data_v1 else data_v2 in
      let prefix = if is_legacy s then prefix_v1 else prefix_v2 in
      ok (prefix ++ lib.encode_base64 (nonce ++ codec.aead.seal nonce bytes additional))

  unfoldable pub open_sealed : Codec → ℕ → Bytes → Bytes → Fallible State
  unfolding as_err_invalid check_state take drop
  open_sealed codec now additional sealed =
      if leb (length sealed) codec.aead.nonce_size
      then fail err_invalid
      else as_err_invalid (
          codec.aead.unseal (take codec.aead.nonce_size sealed) (drop codec.aead.nonce_size sealed)
            additional)
        >>= λ bytes. as_err_invalid (lib.unmarshal bytes) >>= λ s. check_state now s

  unfoldable pub decode_with : Codec → ℕ → Text → Bytes → Text → Fallible State
  unfolding open_sealed as_err_invalid after_prefix
  decode_with codec now prefix additional token =
      as_err_invalid (lib.decode_base64 (after_prefix prefix token)) >>= λ sealed.
      open_sealed codec now additional sealed

  unfoldable pub decode : Codec → ℕ → Text → Fallible State
  unfolding decode_with has_prefix
  decode codec now token =
      if has_prefix token prefix_v1
      then decode_with codec now prefix_v1 data_v1 token
      else if has_prefix token prefix_v2
      then decode_with codec now prefix_v2 data_v2 token
      else fail err_invalid
