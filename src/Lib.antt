-- ===== src/Lib.antt =====
-- TradeOps Sentinel: reconciliation of trades and a guarded remediation of their breaks.
--
-- The program ingests observations of trades, keeps a canonical state of each, reconciles it
-- against its sources and reports breaks. A break of one family may become a remediation case: a
-- recommendation from a model is judged by a deterministic policy engine, a maker and a checker
-- approve it, a signed envelope with an expiry is issued, and an executor applies the correction
-- to a mock legacy record, at most once, and freezes the evidence.
--
-- Base                     Boolean tests and list helpers, and the names of the libraries
-- Contracts                packages/contracts/models.py and hashing.py: observations
-- Persistence.Identity     packages/persistence/inbox.py: the identity of a source revision
-- Persistence.Inbox        packages/persistence/inbox.py (InboxStore)
-- Persistence.Adapter      packages/persistence/adapter.py (ingest_observations)
-- Persistence.Assembler    packages/persistence/assembler.py (resolve_field_selection)
-- Oracle.Policy            packages/oracle/evaluator.py: the rules of the oracle and their look-ups
-- Oracle.Facts, Oracle.Comparisons, Oracle.Actions
--                          packages/oracle/evaluator.py: the facts of the eight families
-- Oracle.Evaluate          packages/oracle/evaluator.py (_evaluate_context) and models.py
-- Oracle.Parity            what the oracle and the engine have in common
-- Reconciliation.Config    packages/reconciliation/config.py
-- Reconciliation.Context   packages/reconciliation/models.py (ReconciliationContext), and
--                          CanonicalTradeState of packages/contracts/models.py
-- Reconciliation.Decimal   the decimal arithmetic of the engine, with its rounding
-- Reconciliation.Duplicates  packages/reconciliation/engine.py (_duplicate_breaks)
-- Reconciliation.Economic  packages/reconciliation/engine.py (_economic_breaks)
-- Reconciliation.Fields    packages/reconciliation/engine.py (_currency_breaks and _date_break)
-- Reconciliation.Lifecycle packages/reconciliation/engine.py (_lifecycle_break)
-- Reconciliation.Linkage   packages/reconciliation/engine.py (_linkage_break), and LinkageDecision of
--                          packages/contracts/models.py
-- Reconciliation.PostAction  packages/reconciliation/engine.py (_post_action_break)
-- Reconciliation.Run       packages/reconciliation/engine.py (run), the eight detectors in their order
-- Reconciliation.Sources   packages/reconciliation/engine.py (_missing_source_breaks)
-- Remediation.Models       packages/remediation/models.py
-- Remediation.Retrieval    packages/remediation/retrieval.py: the search, and which citation supports
--                          which action
-- Remediation.Policy       packages/remediation/policy.py (evaluate)
-- Remediation.Deterministic  packages/remediation/ai_provider.py (DeterministicTestProvider)
-- Remediation.Envelope     packages/remediation/envelope.py
-- Remediation.Tables       packages/persistence/ddl/0004_ai_remediation.sql
-- Remediation.Exec         actions on the tables that may raise
-- Remediation.Store        packages/remediation/store.py
-- Remediation.Executor     packages/remediation/executor.py and legacy_adapter.py
-- Remediation.Triage       packages/remediation/triage.py (generate_case)
-- Remediation.Evidence     packages/remediation/evidence.py
-- Remediation.Api          apps/api/main.py, the remediation endpoints
-- Remediation.System       the endpoints as a state machine over the tables
-- TradeBreaks.Policy       packages/contracts/models.py: the policy of the families of breaks
-- TradeBreaks.Transitions  packages/contracts/models.py: the life cycle of a break
-- TradeBreaks.Break, TradeBreaks.Detection, TradeBreaks.Comparisons, TradeBreaks.Agreement,
-- TradeBreaks.Resolution   packages/contracts/models.py (TradeBreak and BreakResolution), with their
--                          validators; what follows of a resolved break is in TradeBreaks.Resolved
--
-- A table is the list of its rows in the order of insertion; an action on the tables takes a
-- database to a result and a database. Each method of the store is one transaction, so an action
-- that raises later keeps what was committed. Times are microseconds, a confidence is an exact
-- multiple of 2^-1074, and a text is a sequence of code points. Every loop is a recursion on a
-- list; only the number of digits of a decimal is found with fuel, the number itself, which has at
-- most as many digits, and within_tolerance-exact rests on a proof that it is enough.
--
-- The digests, HMAC-SHA256 with the law that its hexadecimal digits are ASCII, the latest time that
-- a datetime in the zone of a watermark can be, the decimal numbers in the proof of a resolution,
-- the stripping of white space, lower-casing, the index of the runbooks (which the code parses, and
-- refuses if it is empty), the recommendation of the provider and the rerun of the reconciliation
-- are arguments of the model, and so is the identifier of a break, which the engine derives from a
-- digest. The evidence and the priority that the engine gives a break are left out; the validator
-- of a break is modelled for breaks as they come. Not modelled are the HTTP server, SQL itself, the
-- prompt and the network client of the provider, the dashboard and the generator of synthetic data.
pub mod Base
pub mod Contracts
pub mod Oracle
pub mod Persistence
pub mod Reconciliation
pub mod Remediation
pub mod TradeBreaks
