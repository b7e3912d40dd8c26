-- ===== src/Inference/Routing/Eligible.antt =====
-- Every route that is selected may have the context, and is able to answer.
use liki.Common.{
  string_eq, ◌≡◌, inl, inr, Bool-cases, String, List, [], ◌∷◌, ◌++◌, Bool, true, not, All, All-map,
  select, contains, string_eq,
}
use liki.Common.Int.{ℤ}
use liki.Common.Sorting.{sort_by, insert_by}
use liki.Inference.Pricing.{Usage}
use liki.Inference.Records.{InferenceRequest}
use liki.Inference.Circuits.{Circuits}
use liki.Inference.Routing.Suitable.{IsPermitted, suitable-IsPermitted}
use liki.Inference.Routing.{
  ProviderRoute, CompiledContext, is_suitable, diverse, is_chosen, cheaper, ordered, select_routes,
}

module _ {ℓ} {A : Type 0} (P : A → Type ℓ) where
  All-append : (xs ys : List A) → All P xs → All P ys → All P (xs ++ ys)
  All-append [] ys h k = k
  All-append (x ∷ xs) ys h k = (h.0, All-append xs ys h.1 k)

  All-select : (p : A → Bool) (xs : List A) → All P xs → All P (select p xs)
  All-select p [] h = tt
  All-select p (x ∷ xs) h = elim (Bool-cases (p x)) [
    | inl kept ↦ rw kept (h.0, All-select p xs h.1)
    | inr left ↦ rw left (All-select p xs h.1)
  ]

  All-insert_by :
      (le : A → A → Bool) (x : A) (xs : List A) → P x → All P xs → All P (insert_by le x xs)
  unfolding insert_by
  All-insert_by le x [] h k = (h, tt)
  All-insert_by le x (y ∷ ys) h k = elim (Bool-cases (le x y)) [
    | inl first ↦ rw first (h, k)
    | inr later ↦ rw later (k.0, All-insert_by le x ys h k.1)
  ]

  All-sort_by : (le : A → A → Bool) (xs : List A) → All P xs → All P (sort_by le xs)
  unfolding sort_by
  All-sort_by le [] h = tt
  All-sort_by le (x ∷ xs) h = All-insert_by le x (sort_by le xs) h.0 (All-sort_by le xs h.1)

All-of_select :
    (p : ProviderRoute → Bool) (xs : List ProviderRoute) → All (λ x. p x ≡ true) (select p xs)
All-of_select p [] = tt
All-of_select p (x ∷ xs) = elim (Bool-cases (p x)) [
  | inl kept ↦ rw kept (kept, All-of_select p xs)
  | inr left ↦ rw left (All-of_select p xs)
]

All-diverse {ℓ} :
    (P : ProviderRoute → Type ℓ) (seen : List String) (xs : List ProviderRoute)
    → All P xs
    → All P (diverse seen xs)
unfolding diverse
All-diverse P seen [] h = tt
All-diverse P seen (x ∷ xs) h = elim (Bool-cases (contains seen x.upstream_correlation_domain)) [
  | inl known ↦ rw known (All-diverse P seen xs h.1)
  | inr new ↦ rw new (h.0, All-diverse P (x.upstream_correlation_domain ∷ seen) xs h.1)
]

-- Every route that is selected is cleared for the context. It does not train on prompts where the
-- context forbids it, nor on confidential ones, for which its retention is known. It is of an allowed
-- class, measured on the benchmark that is asked for, licensed, up and with a closed circuit. It has
-- room for the prompt, the effort and the tools that are needed. Its quality and reliability are not
-- below its own floors and those of the request, and its cost not above the limit.
pub select_routes-IsPermitted :
    (expected_cost : ProviderRoute → Usage → String → ℤ) (routes : List ProviderRoute)
    (circuits : Circuits) (request : InferenceRequest) (context : CompiledContext) (u : Usage)
    → All
        (IsPermitted circuits request context u)
        (select_routes expected_cost routes circuits request context u)
unfolding select_routes ordered
select_routes-IsPermitted expected_cost routes circuits request context u =
    let p = is_suitable circuits request context u in
    let P = IsPermitted circuits request context u in
    let le = cheaper expected_cost u request.task_class in
    let sorted = sort_by le (select p routes) in
    let suitable = All-sort_by P le (select p routes) (
      All-map (suitable-IsPermitted circuits request context u) (select p routes)
        (All-of_select p routes)) in
    All-append P (diverse [] sorted) (select (λ r. not (is_chosen (diverse [] sorted) r)) sorted)
      (All-diverse P [] sorted suitable)
      (All-select P (λ r. not (is_chosen (diverse [] sorted) r)) sorted suitable)
