-- ===== src/Reconciliation/Linkage/Accepted.antt =====
-- When the engine accepts a linkage decision.
use tradeops_sentinel.Base.{
  Bool, List, Option, String, [], any, ap, arith, eq_iff, false, length, nat_eq, none, not, refl,
  some, true, ◌||◌, ◌↔◌, ◌∷◌, ◌≡◌, ◌≢◌,
}
use tradeops_sentinel.Reconciliation.Linkage.{
  CandidateLink, CountComparison, LinkageDecision, LinkageDecisionValue, accepted, ambiguous, chose,
  cross_scope_rejected, is_refusal, linkage_break, linkage_invalid, out_of_scope, rejected,
  shape_valid, strays_valid, unmatched, validate_decision_shape,
}

no_strays :
    (value : LinkageDecisionValue) (strays : Bool)
    → strays_valid value strays ≡ true
    → value ≡ accepted
    → strays ≡ false
no_strays accepted strays h e = ground arith
no_strays rejected strays h e = cc
no_strays unmatched strays h e = cc
no_strays ambiguous strays h e = cc
no_strays cross_scope_rejected strays h e = cc

shape-chosen :
    (value : LinkageDecisionValue) (cs : List CandidateLink) (chosen : Option String)
    (trade : String)
    → shape_valid value cs chosen ≡ true
    → (is_refusal value || not (chose trade chosen) || not (nat_eq (length cs) 1) ≡ false)
      ↔ ((value ≡ accepted) × (chosen ≡ some trade))
shape-chosen accepted [] chosen trade h = cc
shape-chosen accepted (c ∷ []) none trade h = cc
shape-chosen accepted (c ∷ []) (some chosen) trade h = (
  λ e. (refl, ap some (ground (arith, eq_iff chosen trade))),
  λ e. let same : some chosen ≡ some trade = e.1 in ground (arith, eq_iff chosen trade),
)
shape-chosen accepted (c ∷ d ∷ cs) chosen trade h = cc
shape-chosen rejected cs chosen trade h = (λ e. cc, λ e. cc)
shape-chosen unmatched cs chosen trade h = (λ e. cc, λ e. cc)
shape-chosen ambiguous cs chosen trade h = (λ e. cc, λ e. cc)
shape-chosen cross_scope_rejected cs chosen trade h = (λ e. cc, λ e. cc)

-- For a decision that was validated, in the scope of the canonical trade, the engine raises no
-- linkage break exactly when the decision is an acceptance and the trade it chose is the canonical
-- one.
pub linkage_break-none_iff :
    (trade : String) (d : LinkageDecision)
    → validate_decision_shape d ≡ true
    → (linkage_break trade d.tenant_id d.portfolio_id (some d) ≡ none)
      ↔ ((d.decision ≡ accepted) × (d.chosen_trade_id ≡ some trade))
unfolding linkage_break linkage_invalid validate_decision_shape
linkage_break-none_iff trade d valid =
    let (to, from) =
      shape-chosen d.decision d.candidate_links d.chosen_trade_id trade (ground arith) in
    (
      λ h. to (ground arith),
      λ h. ground (
        arith,
        from h,
        no_strays d.decision (any (out_of_scope d.tenant_id d.portfolio_id) d.candidate_links)
            (ground arith) h.0,
      ),
    )

-- A linkage break compares two different numbers, whatever the decision is, and it is raised
-- whenever there is no decision.
pub linkage_break-differs :
    (trade tenant portfolio : String)
    → ((decision : Option LinkageDecision) (c : CountComparison)
        → linkage_break trade tenant portfolio decision ≡ some c
        → c.expected_value ≢ c.observed_value)
      × (linkage_break trade tenant portfolio none ≢ none)
unfolding linkage_break linkage_invalid
linkage_break-differs trade tenant portfolio = (λ decision c h. ground arith, λ h. cc)
