-- ===== src/Inference/Routing/Order.antt =====
-- The order of the routes that are selected.
use liki.Common.{
  ◌≡◌, refl, arith, String, string_eq, ◌==◌, List, [], ◌∷◌, ◌++◌, Option, none, some, Bool, true,
  false, not, ◌&&◌, ◌||◌, any, select, contains, Distinct, contains-append, if◌then◌else◌,
}
use liki.Common.Int.{ℤ}
use liki.Common.Sorting.{sort_by, str_leb_total, IsSorted, sort_by-IsSorted}
use liki.Inference.Pricing.{Usage}
use liki.Inference.Records.{InferenceRequest}
use liki.Inference.Circuits.{Circuits}
use liki.Inference.Routing.{
  ProviderRoute, CompiledContext, register, registered, is_suitable, diverse, is_chosen, cheaper,
  ordered, select_routes,
}
use liki.Inference.Routing.Diverse.{
  ids, domains, map-append, contains-map-sort_by, map-sort_by-Distinct, contains-ids-select,
  contains-ids_rest, select-Distinct, diverse_missing, diverse-Distinct, domains-diverse-Distinct,
  append-Distinct,
}

contains-ids-register :
    (r : ProviderRoute) (rs : List ProviderRoute) (i : String)
    → contains (ids (register r rs)) i ≡ (i == r.route_id || contains (ids rs) i)
unfolding register
contains-ids-register r [] i = ground arith
contains-ids-register r (s ∷ ss) i =
    ground (arith, contains-ids-register r ss i, string_eq.same_iff s.route_id r.route_id)

register-Distinct :
    (r : ProviderRoute) (rs : List ProviderRoute)
    → Distinct (ids rs)
    → Distinct (ids (register r rs))
unfolding register
register-Distinct r [] d = (refl, tt)
register-Distinct r (s ∷ ss) d = ground (
  arith,
  contains-ids-register r ss s.route_id,
  register-Distinct r ss,
  string_eq.same_iff s.route_id r.route_id,
)

registered-Distinct :
    (known rs : List ProviderRoute) → Distinct (ids known) → Distinct (ids (registered known rs))
unfolding registered
registered-Distinct known [] d = d
registered-Distinct known (r ∷ rs) d =
    registered-Distinct (register r known) rs (register-Distinct r known d)

-- The first route of a domain.
abbrev pub first_of : String → List ProviderRoute → Option ProviderRoute
first_of d [] = none
first_of d (r ∷ rs) =
    let rest = first_of d rs in if d == r.upstream_correlation_domain then some r else rest

first_of-diverse :
    (d : String) (seen : List String) (rs : List ProviderRoute)
    → contains seen d ≡ false
    → first_of d (diverse seen rs) ≡ first_of d rs
unfolding diverse
first_of-diverse d seen [] h = refl
first_of-diverse d seen (r ∷ rs) h = ground (
  arith,
  first_of-diverse d seen rs,
  first_of-diverse d (r.upstream_correlation_domain ∷ seen) rs,
  string_eq.same_iff d r.upstream_correlation_domain,
)

cheaper_total :
    (expected_cost : ProviderRoute → Usage → String → ℤ) (u : Usage) (t : String)
    (r s : ProviderRoute)
    → cheaper expected_cost u t r s ≡ false
    → cheaper expected_cost u t s r ≡ true
unfolding cheaper
cheaper_total expected_cost u t r s h = ground (arith, str_leb_total r.route_id s.route_id)

-- A selection: routes of different domains in front, each the first of its domain in the order of
-- cost, and then the others.
pub record IsSelection (known : List ProviderRoute) (suits : ProviderRoute → Bool)
    (le : ProviderRoute → ProviderRoute → Bool) (selected : List ProviderRoute) : Type 0 where
  pub front : List ProviderRoute
  pub others : List ProviderRoute
  pub parts : selected ≡ front ++ others
  pub complete :
      (i : String) → contains (ids selected) i ≡ any (λ r. suits r && (i == r.route_id)) known
  pub once : Distinct (ids selected)
  pub independent : Distinct (domains front)
  pub cheapest : (d : String) → first_of d front ≡ first_of d (sort_by le (select suits known))
  pub sorted : IsSorted le (sort_by le (select suits known))

pub select_routes-IsSelection :
    (expected_cost : ProviderRoute → Usage → String → ℤ) (routes : List ProviderRoute)
    (circuits : Circuits) (request : InferenceRequest) (context : CompiledContext) (u : Usage)
    → IsSelection
        (registered [] routes)
        (is_suitable circuits request context u)
        (cheaper expected_cost u request.task_class)
        (select_routes expected_cost (registered [] routes) circuits request context u)
unfolding select_routes ordered
select_routes-IsSelection expected_cost routes circuits request context u =
    let known = registered [] routes in
    let suits = is_suitable circuits request context u in
    let le = cheaper expected_cost u request.task_class in
    let suitable = sort_by le (select suits known) in
    let first = diverse [] suitable in
    let rest = select (λ r. not (is_chosen first r)) suitable in
    let id = λ (r : ProviderRoute). r.route_id in
    let unique =
      map-sort_by-Distinct id le (select suits known)
        (select-Distinct suits known (registered-Distinct [] routes tt)) in
    record {
      front = first;
      others = rest;
      parts = refl;
      complete = λ i. ground (
        arith,
        map-append id first rest,
        contains-append (ids first) (ids rest) i,
        contains-ids_rest (ids first) suitable i,
        diverse_missing [] suitable i,
        contains-map-sort_by id le (select suits known) i,
        contains-ids-select suits known i,
      );
      once = rw (map-append id first rest) (
          append-Distinct (ids first) (ids rest) (diverse-Distinct [] suitable unique)
            (select-Distinct (λ r. not (is_chosen first r)) suitable unique)
            (λ i h. ground (arith, contains-ids_rest (ids first) suitable i)));
      independent = domains-diverse-Distinct [] suitable;
      cheapest = λ d. first_of-diverse d [] suitable refl;
      sorted =
          sort_by-IsSorted le (cheaper_total expected_cost u request.task_class)
            (select suits known);
    }
