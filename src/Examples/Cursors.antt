-- ===== src/Examples/Cursors.antt =====
-- A cursor under a toy cipher: the tag is one byte, and `encoding/json` knows states of one shape.
use search_x.Prelude.Int.{negsuc, pos, ℤ}
use search_x.Prelude.Text.{text_eq→eq, codes, text_eq, Text}
use search_x.Prelude.{
  ap, inr, ◌++◌, refl, true, inl, [], false, if◌then◌else◌, ◌&&◌, arith, ◌≡◌, ℕ, Bool, List,
  Bool-cases, ◌∷◌,
}
use search_x.Domain.Fallible.{fail, ok, Fallible}
use search_x.Cursor.Codec.{
  Bytes, State, Aead, Formats, Codec, is_int, encode, decode, err_expired, stamped,
}
use search_x.Cursor.RoundTrip.{FormatLaws, AeadLaws, decode-encode}

abbrev second_page : ℕ → State
second_page expires = record {
  version = pos 2;
  query_hash = [];
  request_fingerprint = codes "f0";
  provider = codes "bing";
  providers = codes "bing" ∷ [];
  provider_page = pos 2;
  provider_page_token = [];
  limit = pos 10;
  expires_at = expires;
}

is_bing : List Text → Bool
is_bing [] = false
is_bing (v ∷ []) = text_eq v (codes "bing")
is_bing (v ∷ w ∷ vs) = false

is_bing-eq : (vs : List Text) → is_bing vs ≡ true → vs ≡ codes "bing" ∷ []
unfolding is_bing
is_bing-eq [] h = absurd (cc)
is_bing-eq (v ∷ []) h = ap (λ x. x ∷ []) (text_eq→eq v (codes "bing") h)
is_bing-eq (v ∷ w ∷ vs) h = absurd (cc)

is_int-eq : (n : ℕ) (x : ℤ) → is_int n x ≡ true → x ≡ pos n
unfolding is_int
is_int-eq n (pos m) h = ground arith
is_int-eq n (negsuc m) h = absurd (cc)

abbrev is_second_page : State → Bool
is_second_page s =
    is_int 2 s.version
    && text_eq s.query_hash []
    && text_eq s.request_fingerprint (codes "f0")
    && text_eq s.provider (codes "bing")
    && is_bing s.providers
    && is_int 2 s.provider_page
    && text_eq s.provider_page_token []
    && is_int 10 s.limit

is_second_page-eq : (s : State) → is_second_page s ≡ true → s ≡ second_page s.expires_at
is_second_page-eq s h = ground (
  arith,
  is_int-eq 2 s.version,
  text_eq→eq s.query_hash [],
  text_eq→eq s.request_fingerprint (codes "f0"),
  text_eq→eq s.provider (codes "bing"),
  is_bing-eq s.providers,
  is_int-eq 2 s.provider_page,
  text_eq→eq s.provider_page_token [],
  is_int-eq 10 s.limit,
)

marshal_toy : State → Fallible Bytes
marshal_toy s = if is_second_page s then ok (s.expires_at ∷ []) else fail err_expired

unmarshal_toy : Bytes → Fallible State
unmarshal_toy [] = fail err_expired
unmarshal_toy (e ∷ bs) = ok (second_page e)

abbrev toy_cipher : Aead
toy_cipher = record {
  nonce_size = 2;
  seal = λ n p d. 0 ∷ p;
  unseal = λ n b d. elim b [ [] ↦ fail err_expired | t ∷ p ↦ ok p ];
}

abbrev toy : Formats
toy = record {
  encode_base64 = λ b. b;
  decode_base64 = ok;
  marshal = marshal_toy;
  unmarshal = unmarshal_toy;
  cipher_of = λ secret. ok toy_cipher;
}

toy-FormatLaws : FormatLaws toy
unfolding marshal_toy unmarshal_toy
toy-FormatLaws = record {
  decodes = λ bs. refl;
  unmarshals = λ s bs h. elim (Bool-cases (is_second_page s)) [
    | inl a ↦ ground (arith, h, a, is_second_page-eq s a)
    | inr a ↦ ground (arith, h, a)
  ];
}

toy_cipher-AeadLaws : AeadLaws toy_cipher
toy_cipher-AeadLaws = record { opens = λ n p d h. refl; tagged = λ n p d. omega arith }

abbrev codec : Codec
codec = record { aead = toy_cipher; ttl = 60 }

abbrev token : Text
token = codes "cur_v2_" ++ 7 ∷ 9 ∷ 0 ∷ 160 ∷ []

encoded : encode toy codec 100 (ok (7 ∷ 9 ∷ [])) (second_page 0) ≡ ok token
unfolding encode marshal_toy text_eq is_int is_bing
encoded = refl

decode-encode_example : decode toy codec 159 token ≡ ok (second_page 160)
unfolding stamped text_eq
decode-encode_example =
    decode-encode toy toy-FormatLaws codec toy_cipher-AeadLaws 100 159 (second_page 0) (7 ∷ 9 ∷ [])
      token
      (record {
        page_positive = refl;
        limit_positive = refl;
        has_provider = omega arith;
        identified = refl;
      })
      refl encoded
