-- ===== src/Remediation/System/Cases.antt =====
-- The invariant of the remediation tables and the creation of a case.
use tradeops_sentinel.Base.{
  Bool-cases, Option, Option-cases, String, [], any, find, inl, inr, none, refl, some, ℕ, ◌++◌, ◌∷◌,
  ◌≡◌,
}
use tradeops_sentinel.Remediation.Api.{Services, create_case}
use tradeops_sentinel.Remediation.Exec.{Exec, continue, pure, ◌>>=◌}
use tradeops_sentinel.Remediation.Models.{AiRecommendation, BreakFacts}
use tradeops_sentinel.Remediation.Policy.{evaluate}
use tradeops_sentinel.Remediation.Result.{Result, Result-cases, err, ok}
use tradeops_sentinel.Remediation.Store.{
  insert_case, is_booking, is_case, seed_legacy_booking_record,
}
use tradeops_sentinel.Remediation.System.Invariant.{Inv, Inv-case}
use tradeops_sentinel.Remediation.Tables.{Db, TradeKey}
use tradeops_sentinel.Remediation.Triage.{
  BreakRow, CanonicalDocument, CaseGenerated, SourceReference, build_break_facts, case_row, advise,
  decimal_scale, generate_case, generate_from, store_case,
}

module _ (v : Services) where
  abbrev pub InvDb : Db → Type 0
  InvDb db = Inv v db.cases db.approvals db.envelopes db.executions

  -- A block keeps the invariant if its first step and what follows a value of it do.
  pub bind-InvDb :
      {A B : Type 0} (m : Exec A) (f : A → Exec B) (db : Db)
      → InvDb (m db).1
      → ((a : A) → m db ≡ (ok a, (m db).1) → InvDb (f a (m db).1).1)
      → InvDb ((m >>= f) db).1
  bind-InvDb {A = A} {B = B} m f db first rest = go (m db) first rest
    where
      go :
          (out : Result A × Db)
          → InvDb out.1
          → ((a : A) → out ≡ (ok a, out.1) → InvDb (f a out.1).1)
          → InvDb (continue out.0 f out.1).1
      go (ok a, db') first rest = rest a refl
      go (err e, db') first rest = first

  seed-InvDb :
      (k : TradeKey) (value currency : String) (scale : ℕ) (source : String) (db : Db)
      → InvDb db
      → InvDb (seed_legacy_booking_record k value currency scale source db).1
  unfolding seed_legacy_booking_record
  seed-InvDb k value currency scale source db inv =
      elim (Option-cases (find (is_booking k) db.bookings)) [
        | inl absent ↦ rw (seed_legacy_booking_record, absent) inv
        | inr (row, present) ↦ rw (seed_legacy_booking_record, present) inv
      ]

  store_case-InvDb :
      (tenant_id case_id : String) (row : BreakRow) (doc : CanonicalDocument)
      (facts : BreakFacts × SourceReference) (r : AiRecommendation) (db : Db)
      → InvDb db
      → InvDb (store_case v.platform v.index v.provider tenant_id case_id row doc facts r db).1
  unfolding store_case insert_case
  store_case-InvDb tenant_id case_id row doc (facts, ref) r db inv =
      elim (Bool-cases (any (is_case case_id) db.cases)) [
        | inl present ↦ rw present inv
        | inr absent ↦ rw absent (
            let decision = evaluate v.index r facts in
            let new =
              case_row v.platform tenant_id case_id v.provider.name row doc facts r decision in
            let k : TradeKey = record {
              tenant_id = tenant_id;
              portfolio_id = doc.portfolio_id;
              trade_id = row.trade_id;
            } in
            let out : CaseGenerated = record {
              case_id = case_id;
              recommendation = r;
              decision = decision;
            } in
            let db' = record db { cases = db.cases ++ new ∷ [] } in
            let seeded =
              seed-InvDb k facts.observed_value facts.trade_value_currency
                (decimal_scale facts.observed_value) ref.source_observation_id db'
                (Inv-case v inv new refl) in
            bind-InvDb
              (seed_legacy_booking_record k facts.observed_value facts.trade_value_currency
                (decimal_scale facts.observed_value) ref.source_observation_id)
              (λ _. pure out) db' seeded (λ _ _. seeded))
      ]

  pub create_case-InvDb :
      (tenant_id case_id : String) (row : Option BreakRow)
      (documents : String → Option CanonicalDocument) (db : Db)
      → InvDb db
      → InvDb (create_case v tenant_id case_id row documents db).1
  unfolding create_case generate_case generate_from
  create_case-InvDb tenant_id case_id none documents db inv = inv
  create_case-InvDb tenant_id case_id (some row) documents db inv = go (documents row.trade_id)
    where
      stored :
          (doc : CanonicalDocument)
          → InvDb
              (generate_from v.platform v.index v.provider tenant_id case_id row (some doc) db).1
      stored doc = elim (Result-cases (build_break_facts v.platform row doc)) [
        | inl (facts, built) ↦ elim (Result-cases (advise v.platform v.index v.provider facts.0)) [
          | inl (r, answered) ↦
              rw (built, answered) (store_case-InvDb tenant_id case_id row doc facts r db inv)
          | inr (e, raised) ↦ rw (built, raised) inv
        ]
        | inr (e, missing) ↦ rw missing inv
      ]

      go :
          (d : Option CanonicalDocument)
          → InvDb (generate_from v.platform v.index v.provider tenant_id case_id row d db).1
      go none = inv
      go (some doc) = stored doc
