-- ===== src/Cursor/RoundTrip.antt =====
-- A token that `Encode` made is read back by `Decode` until it expires.
use search_x.Prelude.Int.{pos, leb_int}
use search_x.Prelude.{
  drop-append, take-append, ◌∙◌, inr, refl, ◌&&◌, inl, [], length-append, Bool-cases, arith, ◌≢◌,
  ltb, true, if◌then◌else◌, leb, ◌<◌, false, ℕ, ◌++◌, ◌≡◌, length,
}
use search_x.Cursor.Codec.{
  data_v2, prefix_v2, data_v1, prefix_v1, Bytes, State, Aead, Formats, Codec, err_expired, is_int,
  after_prefix, is_legacy, stamped, encode, is_malformed, check_state, as_err_invalid, open_sealed,
  decode_with, decode,
}
use search_x.Prelude.Strings.{has_prefix}
use search_x.Prelude.Text.{Text, text_eq}
use search_x.Domain.Fallible.{ok, fail, >>=-eq-ok}

-- What the documentation of the libraries promises: decoding undoes encoding.
pub record FormatLaws (lib : Formats) : Type 0 where
  pub decodes : (bs : Bytes) → lib.decode_base64 (lib.encode_base64 bs) ≡ ok bs
  pub unmarshals : (s : State) (bs : Bytes) → lib.marshal s ≡ ok bs → lib.unmarshal bs ≡ ok s

-- A sealed text has a tag, and opens with the same nonce and the same additional data.
pub record AeadLaws (a : Aead) : Type 0 where
  pub opens : (n p d : Bytes) → length n ≡ a.nonce_size → a.unseal n (a.seal n p d) d ≡ ok p
  pub tagged : (n p d : Bytes) → 0 < length (a.seal n p d)

-- The state of a page that can be asked for.
pub record IsPage (s : State) : Type 0 where
  pub page_positive : leb_int (pos 1) s.provider_page ≡ true
  pub limit_positive : leb_int (pos 1) s.limit ≡ true
  pub has_provider : length s.providers ≢ 0
  pub identified : (text_eq s.request_fingerprint [] && text_eq s.query_hash []) ≡ false

Fallible_injective : {A : Type 0} {x y : A} → ok x ≡ ok y → x ≡ y
Fallible_injective h = cc h

module _ (lib : Formats) (laws : FormatLaws lib) (codec : Codec) (sealing : AeadLaws codec.aead)
    (now later : ℕ) where
  open_sealed_lem :
      (s : State) (nonce bytes additional : Bytes)
      → length nonce ≡ codec.aead.nonce_size
      → lib.marshal s ≡ ok bytes
      → open_sealed lib codec later additional (nonce ++ codec.aead.seal nonce bytes additional)
        ≡ check_state later s
  unfolding open_sealed as_err_invalid
  open_sealed_lem s nonce bytes additional n m =
      let body = codec.aead.seal nonce bytes additional in
      let long : leb (length (nonce ++ body)) codec.aead.nonce_size ≡ false =
        ground (arith, length-append nonce body, sealing.tagged nonce bytes additional) in
      rw
        (
          long,
          take-append nonce body _ n,
          drop-append nonce body _ n,
          sealing.opens nonce bytes additional n,
          laws.unmarshals s bytes m,
        )
        refl

  decode_with_lem :
      (s : State) (prefix : Text) (nonce bytes additional : Bytes)
      → length nonce ≡ codec.aead.nonce_size
      → lib.marshal s ≡ ok bytes
      → decode_with lib codec later prefix additional
          (prefix ++ lib.encode_base64 (nonce ++ codec.aead.seal nonce bytes additional))
        ≡ check_state later s
  unfolding decode_with after_prefix as_err_invalid
  decode_with_lem s prefix nonce bytes additional n m =
      let sealed = nonce ++ codec.aead.seal nonce bytes additional in
      rw (drop-append prefix (lib.encode_base64 sealed) (length prefix) refl, laws.decodes sealed)
        (open_sealed_lem s nonce bytes additional n m)

  stamped_formed : (s : State) → IsPage s → is_malformed (stamped codec now s) ≡ false
  unfolding is_malformed stamped is_int is_legacy
  stamped_formed s p =
      ground (arith, p.page_positive, p.limit_positive, p.has_provider, p.identified)

  check_stamped :
      (s : State)
      → IsPage s
      → check_state later (stamped codec now s) ≡ (
          if ltb later (stamped codec now s).expires_at
          then ok (stamped codec now s)
          else fail err_expired)
  unfolding check_state
  check_stamped s p = rw (stamped_formed s p) refl

  -- The token of a page that can be asked for is read back as the same state, with its version and
  -- its time of expiry filled in, before that time; from then on the cursor counts as expired.
  pub decode-encode :
      (s : State) (nonce : Bytes) (token : Text)
      → IsPage s
      → length nonce ≡ codec.aead.nonce_size
      → encode lib codec now (ok nonce) s ≡ ok token
      → decode lib codec later token ≡ (
          if ltb later (stamped codec now s).expires_at
          then ok (stamped codec now s)
          else fail err_expired)
  unfolding encode decode has_prefix
  decode-encode s nonce token p n h =
      let (bytes, a, m) = >>=-eq-ok _ (lib.marshal (stamped codec now s)) h in
      elim (Bool-cases (is_legacy s)) [
        | inl b ↦
            let e = Fallible_injective (rw b at a) in
            rw (← e) (
              decode_with_lem (stamped codec now s) prefix_v1 nonce bytes data_v1 n m
              ∙ check_stamped s p)
        | inr b ↦
            let e = Fallible_injective (rw b at a) in
            rw (← e) (
              decode_with_lem (stamped codec now s) prefix_v2 nonce bytes data_v2 n m
              ∙ check_stamped s p)
      ]
