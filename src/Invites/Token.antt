-- ===== src/Invites/Token.antt =====
-- pkg/invite/domain/token.go and types.go: the signed tokens of invitations. HMAC-SHA-256, the four
-- base64 decoders and the JSON of claims are parameters.
use orbit_cli.Prelude.{
  ℕ, zero, ◌+◌, ◌-◌, ◌*◌, suc, ◌≡◌, Bool, false, List, [], ◌∷◌, ◌++◌, Option, none, some, ltb, ◌==◌,
  if◌then◌else◌, arith, refl, inl, inr, Bool-cases, sym, ◌∙◌,
}
use mathlib.Core.Path.{subst}
use orbit_cli.Prelude.Int.{ℤ, pos, negsuc}
use orbit_cli.Prelude.Words.{Text, text, same, same_refl, is_empty, split, has_byte, split-append}
use orbit_cli.Prelude.Dict.{Dict}
use orbit_cli.Prelude.Result.{Result, ok, err}

pub data TokenError : Type 0 where
  empty_secret rand_failed malformed_token invalid_signature token_expired : TokenError

pub record InviteRequest : Type 0 where
  pub email : Text
  pub display_name : Text
  pub scope : Text
  pub ttl : ℤ
  pub created_by : Text
  pub metadata : Dict Text

pub record InviteClaims : Type 0 where
  pub id : Text
  pub email : Text
  pub display_name : Text
  pub scope : Text
  pub issued_at : ℕ
  pub expires_at : ℕ
  pub created_by : Text
  pub metadata : Dict Text

-- crypto/hmac, encoding/base64 and encoding/json
pub record Codec : Type 0 where
  pub hmac : Text → Text → Text
  pub encode : Text → Text
  pub raw_url : Text → Option Text
  pub url : Text → Option Text
  pub raw_std : Text → Option Text
  pub std : Text → Option Text
  pub marshal : InviteClaims → Text
  pub unmarshal : Text → Option InviteClaims

abbrev pub token_prefix : Text
token_prefix = text "orbit-inv"

-- (*InviteClaims).IsExpired
unfoldable pub is_expired : ℕ → InviteClaims → Bool
is_expired now c = if c.expires_at == 0 then false else ltb c.expires_at now

-- `now.Add(ttl)`, where a ttl of 0 stands for 7 days
unfoldable pub expiry : ℕ → ℤ → ℕ
expiry now (pos zero) = now + 7 * 24 * 3600 * 1000000000
expiry now (pos (suc n)) = now + suc n
expiry now (negsuc n) = now - suc n

unfoldable pub new_claims : Text → ℕ → InviteRequest → InviteClaims
unfolding expiry
new_claims id now req = record {
  id = id;
  email = req.email;
  display_name = req.display_name;
  scope = req.scope;
  issued_at = now;
  expires_at = expiry now req.ttl;
  created_by = req.created_by;
  metadata = req.metadata;
}

module _ (codec : Codec) where
  open codec use {hmac, encode, raw_url, url, raw_std, std, marshal, unmarshal}

  -- decodeBase64
  unfoldable pub decode_base64 : Text → Option Text
  decode_base64 s = elim (raw_url s) [
    | some b ↦ some b
    | none ↦ elim (url s) [
      | some b ↦ some b
      | none ↦ elim (raw_std s) [ some b ↦ some b | none ↦ std s ]
    ]
  ]

  -- the token of a payload in base64
  unfoldable pub sealed : Text → Text → Text
  sealed secret payload = token_prefix ++ b'.' ∷ (payload ++ b'.' ∷ encode (hmac secret payload))

  -- GenerateToken: `drawn` is the print of what crypto/rand gives
  unfoldable pub generate_token :
      ℕ → Option Text → InviteRequest → Text → Result TokenError (Text × InviteClaims)
  unfolding new_claims sealed
  generate_token now drawn req secret = if is_empty secret then err empty_secret else elim drawn [
    | none ↦ err rand_failed
    | some id ↦
        let claims = new_claims id now req in ok (sealed secret (encode (marshal claims)), claims)
  ]

  -- ValidateToken once the signature is right
  accept : ℕ → Option InviteClaims → Result TokenError InviteClaims
  unfolding is_expired
  accept now none = err malformed_token
  accept now (some c) = if is_expired now c then err token_expired else ok c

  check_signature : ℕ → Text → Text → Text → Option Text → Result TokenError InviteClaims
  unfolding accept
  check_signature now secret payload bytes none = err malformed_token
  check_signature now secret payload bytes (some sig) =
      if same sig (hmac secret payload) then accept now (unmarshal bytes) else err invalid_signature

  check_payload : ℕ → Text → Text → Text → Option Text → Result TokenError InviteClaims
  unfolding check_signature decode_base64
  check_payload now secret payload sig none = err malformed_token
  check_payload now secret payload sig (some bytes) =
      check_signature now secret payload bytes (decode_base64 sig)

  unfoldable pub validate_parts : ℕ → Text → List Text → Result TokenError InviteClaims
  unfolding check_payload
  validate_parts now secret (prefix ∷ payload ∷ sig ∷ []) =
      if same prefix token_prefix
      then check_payload now secret payload sig (decode_base64 payload)
      else err malformed_token
  validate_parts now secret _ = err malformed_token

  -- ValidateToken
  unfoldable pub validate_token : ℕ → Text → Text → Result TokenError InviteClaims
  unfolding validate_parts
  validate_token now token secret =
      if is_empty secret then err empty_secret else validate_parts now secret (split b'.' token)

  -- What base64 in the URL alphabet is documented to do.
  pub record CodecLaws : Type 0 where
    pub raw_url-encode : (b : Text) → raw_url (encode b) ≡ some b
    pub encode-dotless : (b : Text) → has_byte b'.' (encode b) ≡ false

  decode-encode : (laws : CodecLaws) (b : Text) → decode_base64 (encode b) ≡ some b
  unfolding decode_base64
  decode-encode laws b = ground (arith, laws.raw_url-encode b)

append_cong : {s s' t t' : List Text} → s ≡ s' → t ≡ t' → s ++ t ≡ s' ++ t'
append_cong p q = cc

split_lacks : (b : ℕ) (s : Text) → has_byte b s ≡ false → split b s ≡ s ∷ []
unfolding split has_byte
split_lacks b [] h = refl
split_lacks b (c ∷ s) h = ground (arith, split_lacks b s)

module _ (codec : Codec) (laws : CodecLaws codec) where
  split-sealed :
      (secret : Text) (bytes : Text)
      → split b'.' (sealed codec secret (codec.encode bytes))
        ≡ token_prefix
          ∷ codec.encode bytes
          ∷ codec.encode (codec.hmac secret (codec.encode bytes))
          ∷ []
  unfolding sealed has_byte
  split-sealed secret bytes =
      let payload : Text = codec.encode bytes in
      let sig : Text = codec.encode (codec.hmac secret payload) in
      split-append b'.' token_prefix (payload ++ b'.' ∷ sig)
      ∙ append_cong (split_lacks b'.' token_prefix refl) (
          split-append b'.' payload sig
          ∙ append_cong (split_lacks b'.' payload (laws.encode-dotless bytes))
              (split_lacks b'.' sig (laws.encode-dotless (codec.hmac secret payload))))

  validate_parts-sealed :
      (later : ℕ) (secret : Text) (claims : InviteClaims)
      → is_expired later claims ≡ false
      → codec.unmarshal (codec.marshal claims) ≡ some claims
      → validate_parts codec later secret (
          token_prefix
          ∷ codec.encode (codec.marshal claims)
          ∷ codec.encode (codec.hmac secret (codec.encode (codec.marshal claims)))
          ∷ [])
        ≡ ok claims
  unfolding validate_parts
  validate_parts-sealed later secret claims fresh read_back =
      let payload : Text = codec.encode (codec.marshal claims) in
      ground (
        arith,
        same_refl token_prefix,
        same_refl (codec.hmac secret payload),
        decode-encode codec laws (codec.marshal claims),
        decode-encode codec laws (codec.hmac secret payload),
        read_back,
        fresh,
      )

  validate-sealed :
      (later : ℕ) (secret : Text) (claims : InviteClaims)
      → is_empty secret ≡ false
      → is_expired later claims ≡ false
      → codec.unmarshal (codec.marshal claims) ≡ some claims
      → validate_token codec later
          (sealed codec secret (codec.encode (codec.marshal claims)))
          secret
        ≡ ok claims
  unfolding validate_token
  validate-sealed later secret claims filled fresh read_back = ground (
    arith,
    filled,
    split-sealed secret (codec.marshal claims),
    validate_parts-sealed later secret claims fresh read_back,
  )

  generate_token_ok :
      (now : ℕ) (id : Text) (req : InviteRequest) (secret : Text) (token : Text)
      (claims : InviteClaims)
      → generate_token codec now (some id) req secret ≡ ok (token, claims)
      → (is_empty secret ≡ false)
        × (token ≡ sealed codec secret (codec.encode (codec.marshal claims)))
  unfolding generate_token
  generate_token_ok now id req secret token claims made = elim (Bool-cases (is_empty secret)) [
    | inl blank ↦ absurd (ground (arith, blank, made))
    | inr filled ↦ (filled, ground (arith, filled, made))
  ]

  -- Under what base64 is documented to do, a token that GenerateToken made with a secret is valid under
  -- that secret, and gives back its claims, where their JSON reads back as them, until they expire.
  pub validate_token-generate_token :
      (now later : ℕ) (id : Text) (req : InviteRequest) (secret : Text) (token : Text)
      (claims : InviteClaims)
      → generate_token codec now (some id) req secret ≡ ok (token, claims)
      → is_expired later claims ≡ false
      → codec.unmarshal (codec.marshal claims) ≡ some claims
      → validate_token codec later token secret ≡ ok claims
  validate_token-generate_token now later id req secret token claims made fresh read_back =
      let (filled, minted) = generate_token_ok now id req secret token claims made in
      subst (λ t. validate_token codec later t secret ≡ ok claims) (sym minted)
        (validate-sealed later secret claims filled fresh read_back)
