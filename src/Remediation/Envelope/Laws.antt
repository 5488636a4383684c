-- ===== src/Remediation/Envelope/Laws.antt =====
-- What a verified envelope guarantees: the round trip with `build_envelope`, and what is refused.
use mathlib.Core.Path.{subst}
use tradeops_sentinel.Base.{
  String, ap, arith, eq_iff, eq_refl, false, if◌then◌else◌, inl, inr, leb, refl, true, ℕ, ◌+◌, ◌<◌,
  ◌==◌, ◌↔◌, ◌≡◌, ◌≢◌, ◌⊎◌,
}
use tradeops_sentinel.Remediation.Envelope.{
  Platform, Settings, build_envelope, content_hash_of, draft_envelope, is_ascii, signed_fields,
  signing_secret, verify_envelope,
}
use tradeops_sentinel.Remediation.Models.{
  ActionEnvelope, EnvelopeRequest, SignedFields, content_mismatch, signature_invalid,
}
use tradeops_sentinel.Remediation.Result.{Result-cases, err, expired, ok, tampered}

-- The fields of an envelope that its hash covers.
pub data SignedField : Type 0 where
  case_id_field : SignedField
  trade_id_field : SignedField
  tenant_id_field : SignedField
  portfolio_id_field : SignedField
  field_path_field : SignedField
  approved_value_field : SignedField
  expected_old_value_field : SignedField
  maker_identity_field : SignedField
  checker_identity_field : SignedField
  issued_at_field : SignedField
  expires_at_field : SignedField
  idempotency_key_field : SignedField

-- What an envelope says in a field; times are numbers.
abbrev pub content_of : SignedField → ActionEnvelope → String ⊎ ℕ
content_of case_id_field e = inl e.case_id
content_of trade_id_field e = inl e.trade_id
content_of tenant_id_field e = inl e.tenant_id
content_of portfolio_id_field e = inl e.portfolio_id
content_of field_path_field e = inl e.field_path
content_of approved_value_field e = inl e.approved_value
content_of expected_old_value_field e = inl e.expected_old_value
content_of maker_identity_field e = inl e.maker_identity
content_of checker_identity_field e = inl e.checker_identity
content_of issued_at_field e = inr e.issued_at
content_of expires_at_field e = inr e.expires_at
content_of idempotency_key_field e = inl e.idempotency_key

content_of-signed :
    (field : SignedField) (f e : ActionEnvelope)
    → signed_fields f ≡ signed_fields e
    → content_of field f ≡ content_of field e
content_of-signed case_id_field f e same = ap (λ (c : SignedFields). inl c.case_id) same
content_of-signed trade_id_field f e same = ap (λ (c : SignedFields). inl c.trade_id) same
content_of-signed tenant_id_field f e same = ap (λ (c : SignedFields). inl c.tenant_id) same
content_of-signed portfolio_id_field f e same = ap (λ (c : SignedFields). inl c.portfolio_id) same
content_of-signed field_path_field f e same = ap (λ (c : SignedFields). inl c.field_path) same
content_of-signed approved_value_field f e same =
    ap (λ (c : SignedFields). inl c.approved_value) same
content_of-signed expected_old_value_field f e same =
    ap (λ (c : SignedFields). inl c.expected_old_value) same
content_of-signed maker_identity_field f e same =
    ap (λ (c : SignedFields). inl c.maker_identity) same
content_of-signed checker_identity_field f e same =
    ap (λ (c : SignedFields). inl c.checker_identity) same
content_of-signed issued_at_field f e same = ap (λ (c : SignedFields). inr c.issued_at) same
content_of-signed expires_at_field f e same = ap (λ (c : SignedFields). inr c.expires_at) same
content_of-signed idempotency_key_field f e same =
    ap (λ (c : SignedFields). inl c.idempotency_key) same

module _ (x : Platform) (s : Settings) where
  -- What `build_envelope` makes of a draft, under a key.
  abbrev sealed : ActionEnvelope → String → ActionEnvelope
  sealed d key = record d {
    content_hash = content_hash_of x d;
    signature = x.hmac_sha256 key (content_hash_of x d);
  }

  ascii_signature :
      (e : ActionEnvelope) {key : String}
      → x.hmac_sha256 key e.content_hash ≡ e.signature
      → is_ascii e.signature ≡ true
  ascii_signature e {key} sig = subst (λ t. is_ascii t ≡ true) sig (x.hmac_ascii key e.content_hash)

  verify-sealed :
      (d : ActionEnvelope) (now : ℕ) {key : String}
      → signing_secret s ≡ ok key
      → verify_envelope x s now (sealed d key)
        ≡ (if leb d.expires_at now then err (expired d.expires_at) else ok tt)
  unfolding verify_envelope
  verify-sealed d now {key} k =
      rw k (simp (eq_refl, x.hmac_ascii key (content_hash_of x d)) (ground arith))

  build-eq-sealed :
      (r : EnvelopeRequest) (issued ttl : ℕ) {e : ActionEnvelope}
      → build_envelope x s r issued ttl ≡ ok e
      → (key : String) × (signing_secret s ≡ ok key)
        × (e ≡ sealed (draft_envelope x r issued ttl) key)
  unfolding build_envelope
  build-eq-sealed r issued ttl h = elim (Result-cases (signing_secret s)) [
    | inl (key, k) ↦ (key, k, ground arith)
    | inr (fault, k) ↦ ground arith
  ]

  pub build-signed_fields :
      (r : EnvelopeRequest) (issued ttl : ℕ) {e : ActionEnvelope}
      → build_envelope x s r issued ttl ≡ ok e
      → signed_fields e ≡ signed_fields (draft_envelope x r issued ttl)
  build-signed_fields r issued ttl h =
      let (key, k, same) = build-eq-sealed r issued ttl h in rw same refl

  -- An envelope that was built verifies, under the same settings, before its time to live is over,
  -- and is refused as expired from then on.
  pub verify-build :
      (r : EnvelopeRequest) (issued ttl now : ℕ) {e : ActionEnvelope}
      → build_envelope x s r issued ttl ≡ ok e
      → verify_envelope x s now e
        ≡ (if leb (issued + ttl) now then err (expired (issued + ttl)) else ok tt)
  verify-build r issued ttl now h =
      let (key, k, same) = build-eq-sealed r issued ttl h in
      rw same (unfold draft_envelope in verify-sealed (draft_envelope x r issued ttl) now k)

  module _ (now : ℕ) (e : ActionEnvelope) where
    -- An envelope that was accepted carries the digest of its own fields, signed under the key, and
    -- its time is not over; and every such envelope is accepted.
    pub verify-eq-ok_iff : (verify_envelope x s now e ≡ ok tt) ↔ (
        (key : String) × (signing_secret s ≡ ok key)
        × (content_hash_of x e ≡ e.content_hash)
        × (x.hmac_sha256 key e.content_hash ≡ e.signature)
        × (now < e.expires_at))
    unfolding verify_envelope
    verify-eq-ok_iff = (
      λ h. elim (Result-cases (signing_secret s)) [
        | inl (key, k) ↦ (
          key,
          k,
          ground (arith, eq_iff (content_hash_of x e) e.content_hash),
          ground (arith, eq_iff (x.hmac_sha256 key e.content_hash) e.signature),
          ground arith,
        )
        | inr (fault, k) ↦ ground arith
      ],
      λ (key, k, hash, sig, fresh).
          let ascii = ascii_signature e sig in
          let hash' : (content_hash_of x e == e.content_hash) ≡ true =
            (eq_iff (content_hash_of x e) e.content_hash).1 hash in
          let sig' : (x.hmac_sha256 key e.content_hash == e.signature) ≡ true =
            (eq_iff (x.hmac_sha256 key e.content_hash) e.signature).1 sig in
          let open_still : leb e.expires_at now ≡ false = ground (arith, fresh) in
          rw (hash', k) (rw (ascii, sig', open_still) refl),
    )

    -- An accepted envelope in which one of the twelve signed fields was altered, whichever it is, its
    -- hash kept, is refused as tampered at any time, also when it has expired, if the digest tells the
    -- signed contents of the two apart.
    pub verify_altered :
        (f : ActionEnvelope) (field : SignedField) (later : ℕ)
        → verify_envelope x s now e ≡ ok tt
        → f.content_hash ≡ e.content_hash
        → content_of field f ≢ content_of field e
        → (x.envelope_digest (signed_fields f) ≡ x.envelope_digest (signed_fields e)
            → signed_fields f ≡ signed_fields e)
        → verify_envelope x s later f ≡ err (tampered content_mismatch)
    unfolding verify_envelope
    verify_altered f field later h same altered apart =
        let differ : x.envelope_digest (signed_fields f) ≢ x.envelope_digest (signed_fields e) =
          λ equal. altered (content_of-signed field f e (apart equal)) in
        ground (
          arith,
          eq_iff (content_hash_of x e) e.content_hash,
          eq_iff (content_hash_of x f) f.content_hash,
        )

    -- A content hash that was recomputed after a change is refused without the key: the old signature
    -- is accepted only for a hash with the same code.
    pub verify_resigned :
        (f : ActionEnvelope) (later : ℕ) {key : String}
        → signing_secret s ≡ ok key
        → verify_envelope x s now e ≡ ok tt
        → f.content_hash ≡ content_hash_of x f
        → f.signature ≡ e.signature
        → x.hmac_sha256 key f.content_hash ≢ x.hmac_sha256 key e.content_hash
        → verify_envelope x s later f ≡ err (tampered signature_invalid)
    unfolding verify_envelope
    verify_resigned f later {key} k h hash sig differ = ground (
      arith,
      eq_iff (content_hash_of x f) f.content_hash,
      eq_iff (x.hmac_sha256 key e.content_hash) e.signature,
      eq_iff (x.hmac_sha256 key f.content_hash) f.signature,
    )

    -- Once accepted, an envelope is judged by its expiry alone.
    pub verify_later :
        (later : ℕ)
        → verify_envelope x s now e ≡ ok tt
        → verify_envelope x s later e
          ≡ (if leb e.expires_at later then err (expired e.expires_at) else ok tt)
    unfolding verify_envelope
    verify_later later h =
        let (key, k, hash, sig, _) = verify-eq-ok_iff.0 h in
        rw (hash, k) (simp (eq_refl, ascii_signature e sig, sig) (ground arith))
