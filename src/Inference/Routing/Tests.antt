-- ===== src/Inference/Routing/Tests.antt =====
-- Two routes of one domain and one of another, of which the dearest trains on what it is sent.
use liki.Common.{◌≡◌, refl, [], ◌∷◌, some, false, All}
use liki.Common.Int.{◌+ℤ◌, ◌*ℤ◌}
use liki.Inference.Pricing.{
  cost, max_ℤ, cost_components, is_billable, resolved_usage, total_tokens, select_tier,
  within_limit, token_cost, add_token_cost, rate, round_up,
}
use liki.Inference.Circuits.{circuit_is_open}
use liki.Common.Sorting.{sort_by, insert_by, str_leb}
use liki.Inference.Routing.{
  registered, is_suitable, cheaper, select_routes, ordered, register, diverse, metrics, metrics_in,
  has_required_benchmark, context_safe_for_route, prompt_tokens, conservative_cost,
  conservative_usage, any_missing,
}
use liki.Inference.Routing.Suitable.{IsPermitted}
use liki.Inference.Routing.Eligible.{select_routes-IsPermitted}
use liki.Inference.Routing.Order.{IsSelection, select_routes-IsSelection}
use liki.Inference.Routing.Samples.{few, route, routes, asked, context, flat}

-- One route of each domain, then the other one of the first; the one that may train is left out.
selected :
    select_routes flat (registered [] routes) [] asked context few
    ≡ route "a" "east" (some false)
      ∷ route "c" "west" (some false)
      ∷ route "b" "east" (some false)
      ∷ []
unfolding select_routes ordered registered register is_suitable cheaper diverse sort_by insert_by
    str_leb metrics metrics_in has_required_benchmark context_safe_for_route circuit_is_open
    prompt_tokens conservative_cost conservative_usage any_missing cost max_ℤ cost_components
    is_billable resolved_usage total_tokens select_tier within_limit token_cost add_token_cost rate
    round_up ◌+ℤ◌ ◌*ℤ◌
selected = refl

select_routes-IsPermitted_example :
    All (IsPermitted [] asked context few) (select_routes flat routes [] asked context few)
select_routes-IsPermitted_example = select_routes-IsPermitted flat routes [] asked context few

select_routes-IsSelection_example :
    IsSelection
      (registered [] routes)
      (is_suitable [] asked context few)
      (cheaper flat few "review")
      (select_routes flat (registered [] routes) [] asked context few)
select_routes-IsSelection_example = select_routes-IsSelection flat routes [] asked context few
