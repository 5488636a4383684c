-- ===== src/Remediation/Executor/Faults.antt =====
-- What the two checks of the executor may raise, and what they have established when they do not.
use tradeops_sentinel.Base.{
  Bool-cases, Option, String, ap, arith, eq_iff, false, inl, inr, leb, none, not, refl, some, ℕ,
  ◌==◌, ◌||◌, ◌∙◌, ◌≡◌, ◌≢◌, ◌⊎◌,
}
use tradeops_sentinel.Remediation.Envelope.{
  Platform, Settings, choose_secret, content_hash_of, is_ascii, sign_content_hash, signing_secret,
  verify_envelope,
}
use tradeops_sentinel.Remediation.Executor.{check_identities}
use tradeops_sentinel.Remediation.Models.{
  ActionEnvelope, Approval, Detail, content_mismatch, signature_invalid,
}
use tradeops_sentinel.Remediation.Result.{
  Error, Faults, Faults-bind, Faults-guard, Result-cases, approvals_incomplete, err, expired, guard,
  ok, same_identity, signing_unavailable, tampered, type_error, ◌>>=◌, ◌>>◌,
}
use tradeops_sentinel.Remediation.Retrieval.Search.Results.{named}

pub check_identities-ok :
    (e : ActionEnvelope) (m c : Option Approval)
    → check_identities e m c ≡ ok tt
    → (a : Approval) × (b : Approval) × (m ≡ some a)
      × (c ≡ some b)
      × (a.approver_identity ≢ b.approver_identity)
      × (a.approver_identity ≡ e.maker_identity)
      × (b.approver_identity ≡ e.checker_identity)
unfolding check_identities
check_identities-ok e none c h = cc
check_identities-ok e (some a) none h = cc
check_identities-ok e (some a) (some b) h =
    let facts : (a.approver_identity ≢ b.approver_identity)
        × (a.approver_identity ≡ e.maker_identity)
        × (b.approver_identity ≡ e.checker_identity) =
      ground (
        arith,
        eq_iff a.approver_identity b.approver_identity,
        eq_iff a.approver_identity e.maker_identity,
        eq_iff b.approver_identity e.checker_identity,
      ) in
    (a, b, refl, refl, facts.0, facts.1, facts.2)

-- The exceptions of the check of the approvals, and of `verify_envelope`.
abbrev pub IsApprovalFault : Error → Type 0
IsApprovalFault approvals_incomplete = Unit
IsApprovalFault (same_identity _) = Unit
IsApprovalFault _ = ⊥

abbrev pub IsVerificationFault : Error → Type 0
IsVerificationFault signing_unavailable = Unit
IsVerificationFault type_error = Unit
IsVerificationFault (tampered _) = Unit
IsVerificationFault (expired _) = Unit
IsVerificationFault _ = ⊥

pub check_identities-Faults :
    (e : ActionEnvelope) (m c : Option Approval) → Faults IsApprovalFault (check_identities e m c)
unfolding check_identities
check_identities-Faults e none c = tt
check_identities-Faults e (some a) none = tt
check_identities-Faults e (some a) (some b) =
    elim (Bool-cases (a.approver_identity == b.approver_identity)) [
      | inl same ↦ rw same tt
      | inr differ ↦
          elim (Bool-cases (
            not (a.approver_identity == e.maker_identity)
            || not (b.approver_identity == e.checker_identity))) [
              | inl other ↦ rw (differ, other) tt
              | inr named ↦ rw (differ, named) tt
            ]
    ]

signing_secret-Faults : (s : Settings) → Faults IsVerificationFault (signing_secret s)
unfolding signing_secret
signing_secret-Faults s = go s.secret s.configured
  where
    go : (o : Option String) (c : String) → Faults IsVerificationFault (choose_secret o c)
    go (some secret) c = tt
    go none c = elim (Bool-cases (c == "")) [ inl h ↦ rw h tt | inr h ↦ rw h tt ]

sign-Faults :
    (x : Platform) (s : Settings) (content_hash : String)
    → Faults IsVerificationFault (sign_content_hash x s content_hash)
unfolding sign_content_hash
sign-Faults x s content_hash =
    Faults-bind IsVerificationFault (signing_secret s) (λ key. ok (x.hmac_sha256 key content_hash))
      (signing_secret-Faults s) (λ key. tt)

pub verify-Faults :
    (x : Platform) (s : Settings) (now : ℕ) (e : ActionEnvelope)
    → Faults IsVerificationFault (verify_envelope x s now e)
unfolding verify_envelope
verify-Faults x s now e =
    let expiry = guard (not (leb e.expires_at now)) (expired e.expires_at) in
    let compared = λ (expected : String).
      guard (expected == e.signature) (tampered signature_invalid) >> expiry in
    let signature =
      λ (expected : String). guard (is_ascii e.signature) type_error >> compared expected in
    Faults-bind IsVerificationFault
      (guard (content_hash_of x e == e.content_hash) (tampered content_mismatch))
      (λ _. sign_content_hash x s e.content_hash >>= signature)
      (Faults-guard IsVerificationFault (content_hash_of x e == e.content_hash)
        (tampered content_mismatch) tt)
      λ _.
        Faults-bind IsVerificationFault (sign_content_hash x s e.content_hash) signature
          (sign-Faults x s e.content_hash)
          λ expected.
            Faults-bind IsVerificationFault (guard (is_ascii e.signature) type_error)
              (λ _. compared expected)
              (Faults-guard IsVerificationFault (is_ascii e.signature) type_error tt)
              λ _.
                Faults-bind IsVerificationFault
                  (guard (expected == e.signature) (tampered signature_invalid)) (λ _. expiry)
                  (Faults-guard IsVerificationFault (expected == e.signature)
                    (tampered signature_invalid) tt)
                  λ _.
                    Faults-guard IsVerificationFault (not (leb e.expires_at now))
                      (expired e.expires_at) tt

pub check_identities_incomplete :
    (e : ActionEnvelope) (m c : Option Approval)
    → check_identities e m c ≡ err approvals_incomplete
    → (m ≡ none) ⊎ (c ≡ none)
unfolding check_identities
check_identities_incomplete e none c h = inl refl
check_identities_incomplete e (some a) none h = inr refl
check_identities_incomplete e (some a) (some b) h = ground (arith, h)

pub check_identities_same :
    (e : ActionEnvelope) (m c : Option Approval) {d : Detail}
    → check_identities e m c ≡ err (same_identity d)
    → (a : Approval) × (b : Approval) × (m ≡ some a)
      × (c ≡ some b)
      × ((a.approver_identity ≡ b.approver_identity)
          ⊎ (a.approver_identity ≢ e.maker_identity)
          ⊎ (b.approver_identity ≢ e.checker_identity))
unfolding check_identities
check_identities_same e none c h = cc
check_identities_same e (some a) none h = cc
check_identities_same e (some a) (some b) h = (
  a,
  b,
  refl,
  refl,
  ground (
    arith,
    h,
    eq_iff a.approver_identity b.approver_identity,
    eq_iff a.approver_identity e.maker_identity,
    eq_iff b.approver_identity e.checker_identity,
  ),
)

choose_unavailable :
    (o : Option String) (configured : String) {fault : Error}
    → choose_secret o configured ≡ err fault
    → fault ≡ signing_unavailable
choose_unavailable (some secret) configured h = ground (arith, h)
choose_unavailable none configured h = ground (arith, h)

pub verify_unavailable :
    (x : Platform) (s : Settings) (now : ℕ) (e : ActionEnvelope)
    → verify_envelope x s now e ≡ err signing_unavailable
    → signing_secret s ≡ err signing_unavailable
unfolding verify_envelope
verify_unavailable x s now e h = elim (Result-cases (signing_secret s)) [
  | inl (key, k) ↦ ground (arith, h, k)
  | inr (fault, k) ↦
      k ∙ ap err (choose_unavailable s.secret s.configured (unfold signing_secret in k))
]

pub verify_type_error :
    (x : Platform) (s : Settings) (now : ℕ) (e : ActionEnvelope)
    → verify_envelope x s now e ≡ err type_error
    → is_ascii e.signature ≡ false
unfolding verify_envelope
verify_type_error x s now e h = elim (Result-cases (signing_secret s)) [
  | inl (key, k) ↦ ground (arith, h, k)
  | inr (fault, k) ↦
      let only : fault ≡ signing_unavailable =
        choose_unavailable s.secret s.configured (unfold signing_secret in k) in
      ground (arith, h, k, only)
]
