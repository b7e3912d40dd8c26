-- ===== src/Inference/Broker/Tests.antt =====
-- The broker sends the sample request to the cheapest route, whose answer is taken.
use liki.Common.{
  ◌≡◌, refl, ℕ, String, [], ◌∷◌, Option, none, some, true, false, Result, ok, err, Ensures, length,
  zero, suc, if◌then◌else◌, ◌==◌, string_eq, ◌+◌, ◌*◌,
}
use liki.Common.Int.{pos, ◌+ℤ◌, ◌*ℤ◌}
use liki.Common.Sorting.{sort_by}
use liki.Common.Json.{object, end}
use liki.Inference.Pricing.{AttemptStatus, semantic_accepted}
use liki.Inference.Records.{InferenceResult, empty_store}
use liki.Inference.Routing.{ProviderRoute}
use liki.Inference.Routing.Samples.{few, routes, asked, context, flat}
use liki.Inference.Reply.{Library}
use liki.Inference.Backend.Admit.{by_key}
use liki.Inference.Backend.Calls.{IsStore, Reached-IsStore, at_start}
use liki.Inference.Broker.{BrokerError, Reply, answered, timed_out, Turn, World, InferenceBroker}
use liki.Inference.Broker.Rounds.{run, eligible}
use liki.Inference.Broker.Ends.{EndsRun}
use liki.Inference.Broker.Settled.{rounds_of, run-EndsRun}

-- A library that reads one text as an object.
abbrev parser : Library
parser = record {
  strip = λ t. t;
  casefold = λ t. t;
  splitlines = λ t. t ∷ [];
  unlines = λ ts. "";
  loads = λ t. some (object end);
  raw_decode = λ t. none;
  json_beq = λ a b. false;
  is_valid = λ schema a. true;
}

-- The first route of the selection times out, and the others answer.
abbrev reply : ProviderRoute → Reply
reply r =
    if r.route_id == "a"
    then timed_out
    else answered (record { text = "{}"; usage = few; stop_reason = none })

abbrev name_of : ℕ → String
name_of zero = "t0"
name_of (suc zero) = "t1"
name_of (suc (suc n)) = "t2"

abbrev turn : ℕ → Turn
turn n = record {
  attempt_id = name_of n;
  claimed_at = 1;
  completed_at = 2;
  checked_at = 3;
  logged_at = 4;
  noted_at = 5;
  reply = reply;
}

abbrev broker : InferenceBroker
broker = record {
  routes = routes;
  adapters = "openai_chat" ∷ [];
  retry_policy = record { same_route_retries = pos 1; circuit_failure_threshold = pos 3 };
  lib = parser;
  semantic_validator = none;
  expected_cost = flat;
  turns = turn;
}

abbrev world : World
world = record { store = empty_store; circuits = []; made = 0 }

empty_store-IsStore : IsStore empty_store
empty_store-IsStore = Reached-IsStore (λ n. "") empty_store at_start

no_key : by_key "0123456789abcdef" [] ≡ none
unfolding by_key
no_key = refl

run-EndsRun_example :
    Ensures
      (EndsRun (0 + rounds_of broker * length (eligible broker asked context few world)))
      (run broker 0 asked context few world)
unfolding empty_store
run-EndsRun_example = run-EndsRun broker 0 asked context few world empty_store-IsStore no_key

-- The status, the route and the number of attempts that a run ends with.
abbrev seen :
    Result BrokerError (InferenceResult × World) → Option (AttemptStatus × Option String × ℕ)
seen (ok (res, d)) = some (res.status, res.route_id, d.made)
seen (err e) = none

run_sample : seen (run broker 0 asked context few world) ≡ some (semantic_accepted, some "c", 3)
unfolding run empty_store sort_by ◌+ℤ◌ ◌*ℤ◌
run_sample = refl
