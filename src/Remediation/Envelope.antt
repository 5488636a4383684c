-- ===== src/Remediation/Envelope.antt =====
-- packages/remediation/envelope.py: building, signing and verifying an action envelope.
pub mod Laws
use tradeops_sentinel.Base.{
  Bool, Option, String, code, if◌then◌else◌, leb, ltb, none, not, some, true, ℕ, ◌&&◌, ◌*◌, ◌+◌,
  ◌==◌, ◌≡◌,
}
use tradeops_sentinel.Remediation.Models.{
  ActionEnvelope, AiRecommendation, EnvelopeRequest, SignedFields, content_mismatch,
  signature_invalid,
}
use tradeops_sentinel.Remediation.Result.{
  Result, err, expired, guard, ok, signing_unavailable, tampered, type_error, ◌>>=◌, ◌>>◌,
}

-- What `hmac.compare_digest` takes of a text.
unfoldable pub is_ascii : String → Bool
is_ascii String.[] = true
is_ascii (String.◌∷◌ c s) = ltb (code c) 128 && is_ascii s

-- The code of other packages that the slice calls: pydantic's stripping of white space, SHA-256 of
-- the canonical JSON of a document, and HMAC-SHA256 under a key, whose hexadecimal digits are ASCII.
pub record Platform : Type 0 where
  pub strip : String → String
  pub lower : String → String
  pub envelope_digest : SignedFields → String
  pub recommendation_digest : AiRecommendation → String
  pub hmac_sha256 : String → String → String
  pub hmac_ascii : (key content : String) → is_ascii (hmac_sha256 key content) ≡ true

-- The settings of a process: the `secret` argument of the constructor, and the environment variable
-- (the empty text if it is not set).
pub record Settings : Type 0 where
  pub secret : Option String
  pub configured : String

abbrev pub envelope_ttl : ℕ
envelope_ttl = 900 * 1000000

abbrev pub choose_secret : Option String → String → Result String
choose_secret (some secret) configured = ok secret
choose_secret none configured = if configured == "" then err signing_unavailable else ok configured

unfoldable pub signing_secret : Settings → Result String
signing_secret s = choose_secret s.secret s.configured

-- Every field but `content_hash` and `signature`.
abbrev pub signed_fields : ActionEnvelope → SignedFields
signed_fields e = record {
  case_id = e.case_id;
  trade_id = e.trade_id;
  tenant_id = e.tenant_id;
  portfolio_id = e.portfolio_id;
  field_path = e.field_path;
  approved_value = e.approved_value;
  expected_old_value = e.expected_old_value;
  maker_identity = e.maker_identity;
  checker_identity = e.checker_identity;
  issued_at = e.issued_at;
  expires_at = e.expires_at;
  idempotency_key = e.idempotency_key;
}

module _ (x : Platform) where
  unfoldable pub content_hash_of : ActionEnvelope → String
  content_hash_of e = x.envelope_digest (signed_fields e)

  unfoldable pub sign_content_hash : Settings → String → Result String
  unfolding signing_secret
  sign_content_hash s content_hash = do key ← signing_secret s; ok (x.hmac_sha256 key content_hash)

  -- `draft` of `build_envelope`: its hash and signature are still placeholders.
  unfoldable pub draft_envelope : EnvelopeRequest → (issued ttl : ℕ) → ActionEnvelope
  draft_envelope r issued ttl = record {
    case_id = x.strip r.case_id;
    trade_id = x.strip r.trade_id;
    tenant_id = x.strip r.tenant_id;
    portfolio_id = x.strip r.portfolio_id;
    field_path = x.strip r.field_path;
    approved_value = x.strip r.approved_value;
    expected_old_value = x.strip r.expected_old_value;
    maker_identity = x.strip r.maker_identity;
    checker_identity = x.strip r.checker_identity;
    issued_at = issued;
    expires_at = issued + ttl;
    idempotency_key = x.strip r.idempotency_key;
    content_hash =
        x.strip "sha256:0000000000000000000000000000000000000000000000000000000000000000";
    signature = x.strip "";
  }

  unfoldable pub build_envelope :
      Settings → EnvelopeRequest → (issued ttl : ℕ) → Result ActionEnvelope
  unfolding draft_envelope content_hash_of sign_content_hash
  build_envelope s r issued ttl = do
    let draft = draft_envelope r issued ttl
    let content_hash = content_hash_of draft
    signature ← sign_content_hash s content_hash
    ok (record draft { content_hash = content_hash; signature = signature })

  -- The hash is compared first, then the signature, then the expiry; comparing a signature that is
  -- not ASCII raises.
  unfoldable pub verify_envelope : Settings → (now : ℕ) → ActionEnvelope → Result (Unit {0})
  unfolding content_hash_of sign_content_hash
  verify_envelope s now e = do
    guard (content_hash_of e == e.content_hash) (tampered content_mismatch)
    expected ← sign_content_hash s e.content_hash
    guard (is_ascii e.signature) type_error
    guard (expected == e.signature) (tampered signature_invalid)
    guard (not (leb e.expires_at now)) (expired e.expires_at)
