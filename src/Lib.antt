-- ===== src/Lib.antt =====
-- LIKI: an evidence-governed quantitative research office (liki/). Real money is prohibited: the code
-- decides over proposals to change the office, keeps market data, and trades on paper.
--
-- Parts and how they meet
--
-- A proposal (liki/governance/domain.py) is classified against the protected controls of the policy
-- (liki/governance/policy.py), reviewed, tested and delivered to the owner; `evaluate_promotion`
-- reads all this evidence, and the incidents that are open, before `transition_proposal` may promote
-- it. Changes of a rule are replayed first (liki/governance/simulation.py). The order book
-- (liki/data/orderbook.py) gives the prices; a strategy makes an order of them, which the emergency
-- stops may block (liki/finance/execution.py). Market data is validated before research uses it
-- (liki/data/validation.py), and split so that training stays apart from testing
-- (liki/statistics/validation.py). A question to a language model goes through the broker
-- (liki/inference/broker.py), which selects routes and keeps every attempt and its cost in a store
-- (liki/inference/backend.py).
--
-- Common: conditionals, lists, equality tests, results that raise, integers, JSON values, sorting,
-- tables by key.
--
-- Governance, for liki/governance/domain.py unless another file is named
--   Base, Evidence   `_utc`, the texts of pydantic, `_canonical_hash`; artifacts, checks, snapshots
--   Proposal         GovernanceProposal, ProposalStateTransition, Classification and validators
--   Policy           liki/governance/policy.py: ProtectedControl, GovernancePolicy.floor_for
--   Classify         classify_proposal; Floor and Record have its theorems
--   Lifecycle        transition_proposal; Graph is its diagram, History the paths through it
--   Review           independence profiles, objections, reviews, synthesis
--   Promotion        evaluate_promotion, _requirements_met, _check_unique_independence,
--                    mark_stale_if_snapshot_changed; Conditions is a specification, read
--                    beside the code in Evidence and Verdict
--   Incident         the record of an incident and its validator
--   Handling         transition_incident; Course is a sequence of its calls
--   ModelRisk        assess_model_admission, find_common_dependencies
--   Simulation       liki/governance/simulation.py
--
-- Data/OrderBook, for liki/data/orderbook.py: `_apply` (Levels), apply_snapshot (Book), apply_delta
-- (Continuity), mid_price (Mid). A call gives the book that it leaves beside whether it raised, as
-- the levels are changed in place before the exception.
--
-- Finance, for liki/finance/execution.py: Orders has OrderIntent.causal_order (Intent) and
-- OrderRecord.transition (Life, with its diagram in Graph); Stops has EmergencyStop, emergency_stop and
-- enforce_emergency_stops (Guard). Rounding has rounded_order of liki/finance/contracts.py with
-- floor_to_increment and ceil_to_increment of liki/finance/types.py (Adverse). Types
-- has the enumerations of both files.
--
-- Data/Validation, for liki/data/validation.py and the records of liki/data/models.py that it reads:
-- DatasetValidator.validate, promotion_status, require_usable and quarantine. Usable says what data is
-- let through, Status how findings add up.
--
-- Statistics/Splits, for purged_kfold (Purged), cpcv_splits (Combined) and walk_forward_splits
-- (Forward) of liki/statistics/validation.py. `numpy.linspace` is a parameter; a fold asks of it
-- only that it rises from 0 to the number of observations.
--
-- Inference/Records and Inference/Backend, for SQLiteTestInferenceBackend in
-- liki/inference/backend.py: its tables, and a transaction as a function on them, in Admit, Claim,
-- Finish and Marks. Calls has any sequence of calls; Numbers, Lasting, Fences, Completion, Budget and Ledger
-- have what holds of them. The clock, the names of attempts and the text of a cost are arguments.
-- The store on Postgres is not here.
--
-- Inference/Routing, Reply and Broker, for liki/inference/broker.py and the routes of
-- liki/inference/types.py. Routing has select_routes, with the routes and contexts in Routes: Suitable
-- says what the tests on a route mean, Eligible which routes are selected, Diverse and Order in what order. Reply has _validate_response. Broker
-- has _finish_transport_failure, Attempt _attempt, Rounds the loop of run, and Upkeep the calls that are
-- passed on. What the adapters answer, the clock and the names of attempts come from a sequence of
-- turns, one for each attempt; Made, Ends and Settled say how a run goes whatever they are.
--
-- Inference/Circuits, for the table `route_circuits` of liki/inference/backend.py:
-- circuit_is_open, record_route_outcome and revive_route, with Streak as their specification. That
-- class is the test double of the store on Postgres and states the contract of both.
--
-- Inference/Pricing, for PricingPlan in liki/inference/types.py: cost_components and cost, with Charge
-- as their bounds.
--
-- How the source is read
--
-- An exception is the `err` of a Result with its message, or a part of it; a dataclass or a pydantic
-- model is a record, and its validators are a function that the constructor's callers pass through.
-- A time is the number of microseconds of an instant, with a flag where the code refuses times
-- that are not in UTC. A decimal is the coefficient at an exponent that all decimals of one
-- component share, so that sums and comparisons are exact: the code works with 28 digits, and the
-- model is faithful while they are enough. `str.strip`, `str.lower`, SHA-256 and the text of a time
-- are parameters (Base.External), as is the arithmetic of costs in Simulation. A loop over a list
-- is structural recursion, and the retries of a route are recursion on their number. The only fuel
-- is that of `starts` in Statistics/Splits, for a range with a step: it is the limit of the range,
-- which is enough as each step is positive.
--
-- Not modelled: the database, HTTP, chat, files and language models behind the services, SQL,
-- floating-point statistics, and the parts of the office's core, research gates, inference and
-- accounting that have no file here.
pub mod Common
pub mod Data
pub mod Finance
pub mod Governance
pub mod Inference
pub mod Statistics
