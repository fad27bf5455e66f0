-- ===== src/Tests/Sample.antt =====
-- A concrete codec and a concrete `anp`, for the examples.
use anp_identity.Anp.{Anp, ed25519}
use anp_identity.Disk.Secrets.{IsCipher}
use anp_identity.Input.{profile_eq, role_eq}
use anp_identity.Json.{value_eq}
use anp_identity.Keystore.{secret_ref_eq}
use anp_identity.Prelude.{
  List, Option, [], all, ap, arith, contains, eq_refl, false, if◌then◌else◌, length, list_eq, ltb,
  nat_eq, none, option_eq, pair_eq, refl, some, suc, true, zero, ℕ, ◌++◌, ◌-◌, ◌==◌, ◌∷◌, ◌≡◌,
}
use anp_identity.Provider.{TokenClaims, TokenCodec}
use anp_identity.Provider.Issue.{IsTokenCodec}
use anp_identity.Registry.{
  capability_eq, key_state_eq, origin_eq, publication_eq, state_eq, summary_eq,
}
use anp_identity.Text.{Text, bytes, lit}

-- A code that writes no dot: the numbers from it on are moved past it.
abbrev shift : List ℕ → List ℕ
shift [] = []
shift (x ∷ xs) = (if ltb x 46 then x else suc x) ∷ shift xs

abbrev unshift : List ℕ → List ℕ
unshift [] = []
unshift (x ∷ xs) = (if ltb x 46 then x else x - 1) ∷ unshift xs

unshift-shift : (xs : List ℕ) → unshift (shift xs) ≡ xs
unshift-shift [] = refl
unshift-shift (x ∷ xs) = ground (arith, unshift-shift xs)

shift-no_dot : (xs : List ℕ) → contains (shift xs) b'.' ≡ false
shift-no_dot [] = refl
shift-no_dot (x ∷ xs) = ground (arith, shift-no_dot xs)

-- A text after its length, and back.
abbrev put : Text → List ℕ → List ℕ
put t rest = length t ∷ t ++ rest

abbrev cons_taken : ℕ → Option (Text × List ℕ) → Option (Text × List ℕ)
cons_taken c none = none
cons_taken c (some (s, t)) = some (c ∷ s, t)

abbrev split_at : ℕ → List ℕ → Option (Text × List ℕ)
split_at zero xs = some ([], xs)
split_at (suc n) [] = none
split_at (suc n) (x ∷ xs) = cons_taken x (split_at n xs)

abbrev take_text : List ℕ → Option (Text × List ℕ)
take_text [] = none
take_text (n ∷ xs) = split_at n xs

split_at-append : (s t : List ℕ) → split_at (length s) (s ++ t) ≡ some (s, t)
split_at-append [] t = refl
split_at-append (x ∷ s) t = ap (cons_taken x) (split_at-append s t)

abbrev put_option : Option Text → List ℕ → List ℕ
put_option none rest = 0 ∷ rest
put_option (some t) rest = 1 ∷ put t rest

abbrev then_some : Option (Text × List ℕ) → Option (Option Text × List ℕ)
then_some none = none
then_some (some (t, rest)) = some (some t, rest)

abbrev take_option : List ℕ → Option (Option Text × List ℕ)
take_option [] = none
take_option (zero ∷ xs) = some (none, xs)
take_option (suc n ∷ xs) = then_some (take_text xs)

take_option-put_option : (o : Option Text) (t : List ℕ) → take_option (put_option o t) ≡ some (o, t)
take_option-put_option none t = refl
take_option-put_option (some s) t = ap then_some (split_at-append s t)

-- A bound pair of an optional result.
abbrev after : {A B : Type 0} → Option (A × List ℕ) → (A → List ℕ → Option B) → Option B
after none f = none
after (some (a, rest)) f = f a rest

abbrev take_number : List ℕ → Option ℕ
take_number [] = none
take_number (n ∷ xs) = some n

abbrev write_claims : TokenClaims → List ℕ
write_claims c = put c.version (
    put c.provider_instance_id (
      put c.parent_lease_id (
        put c.consumer (
          put c.capability (
            put c.store_id (
              put c.identity_id (
                put c.operation (
                  put_option c.kid (
                    put c.request_id (
                      put c.recipient_public_key_digest
                        (put c.operation_input_digest (c.expires_at ∷ []))))))))))))

abbrev last_claims :
    Text
    → Text
    → Text
    → Text
    → Text
    → Text
    → Text
    → Text
    → Option Text
    → List ℕ
    → Option TokenClaims
last_claims version provider lease consumer capability store identity operation kid xs =
    after (take_text xs) (λ request xs. after (take_text xs) (λ recipient xs.
      after (take_text xs) (λ input xs. elim (take_number xs) [
        | none ↦ none
        | some n ↦ some (record {
          version = version;
          provider_instance_id = provider;
          parent_lease_id = lease;
          consumer = consumer;
          capability = capability;
          store_id = store;
          identity_id = identity;
          operation = operation;
          kid = kid;
          request_id = request;
          recipient_public_key_digest = recipient;
          operation_input_digest = input;
          expires_at = n;
        })
      ])))

abbrev read_claims_of : List ℕ → Option TokenClaims
read_claims_of xs = after (take_text xs) (λ version xs. after (take_text xs) (λ provider xs.
    after (take_text xs) (λ lease xs. after (take_text xs) (λ consumer xs.
      after (take_text xs) (λ capability xs. after (take_text xs) (λ store xs.
        after (take_text xs) (λ identity xs. after (take_text xs) (λ operation xs.
          after (take_option xs) (λ kid xs.
            last_claims version provider lease consumer capability store identity operation kid
              xs)))))))))

-- HMAC and SHA-256 stand as plain injective codes here: the examples need no secrecy.
instance abbrev pub sample_codec : TokenCodec
sample_codec = record {
  hmac = λ key payload. length key ∷ key ++ payload;
  sha256 = λ bytes. bytes;
  encode = shift;
  decode = λ text. some (unshift text);
  claims_to_vec = write_claims;
  claims_from_slice = read_claims_of;
  recipient_digest = λ bytes. bytes;
}

sample_codec-read_claims : (c : TokenClaims) → read_claims_of (write_claims c) ≡ some c
sample_codec-read_claims c = simp (split_at-append, take_option-put_option)

pub sample_codec-IsTokenCodec : IsTokenCodec sample_codec
sample_codec-IsTokenCodec = record {
  decode_encode = λ xs. ap some (unshift-shift xs);
  encode_no_dot = shift-no_dot;
  read_claims = sample_codec-read_claims;
}

-- An `anp` that knows the Multikey prefixes and nothing else.
instance abbrev pub sample_anp : Anp
sample_anp = record {
  extract_public_key = λ v. some (ed25519 (lit "z6Mk"));
  did_web_resolution_url_is_ok = λ did. true;
  find_verification_method = λ document kid. none;
  is_authentication_authorized = λ document kid. true;
  is_assertion_method_authorized = λ document kid. true;
  validate_device_manifest = λ document. some none;
  is_ip_address = λ text. false;
  sha256_base64 = λ bytes. bytes;
  validate_did_document_method = λ document. true;
  canonical_json = λ document. some [];
  ed25519_public = λ key. key;
  x25519_public = λ key. key;
  base58 = λ bytes. bytes;
  hkdf_expand = λ salt key info. length salt ∷ length key ∷ salt ++ key ++ info;
  aead_encrypt = λ key nonce message aad. length aad ∷ aad ++ message;
  aead_decrypt = λ key nonce sealed aad. elim (take_text sealed) [
    | none ↦ none
    | some (a, message) ↦ if a == aad then some message else none
  ];
  base64_encode = shift;
  base64_decode = λ text. some (unshift text);
}

-- An ASCII text is the only one with its bytes.
pub bytes-injective : (t s : Text) → all (λ c. ltb c 128) t ≡ true → bytes t ≡ bytes s → t ≡ s
unfolding bytes
bytes-injective [] [] h e = refl
bytes-injective [] (c ∷ s) h e = ground arith
bytes-injective (c ∷ t) [] h e = ground arith
bytes-injective (c ∷ t) (d ∷ s) h e = ground (arith, bytes-injective t s)

pub sample_anp-IsCipher : IsCipher sample_anp
sample_anp-IsCipher = record {
  decrypt_encrypt =
      λ key nonce message aad. ground (arith, split_at-append aad message, eq_refl aad);
  decode_encode = λ x. ap some (unshift-shift x);
}
