-- ===== src/Inference/Routing/Diverse.antt =====
-- The routes that are selected are the suitable ones, each once, with one of each domain in front.
use liki.Common.{
  ◌≡◌, refl, ap, arith, String, string_eq, ◌==◌, List, [], ◌∷◌, ◌++◌, Bool, true, false, not, ◌&&◌,
  any, select, map, contains, Distinct, contains-append,
}
use liki.Common.Sorting.{sort_by, insert_by}
use liki.Inference.Routing.{ProviderRoute, diverse}

abbrev pub ids : List ProviderRoute → List String
ids rs = map (λ r. r.route_id) rs

abbrev pub domains : List ProviderRoute → List String
domains rs = map (λ r. r.upstream_correlation_domain) rs

pub map-append {ℓ κ} :
    {A : Type ℓ} {B : Type κ} (f : A → B) (xs ys : List A) → map f (xs ++ ys) ≡ map f xs ++ map f ys
map-append f [] ys = refl
map-append f (x ∷ xs) ys = ap (λ zs. f x ∷ zs) (map-append f xs ys)

-- A sorted list has the same texts in it.
module _ {A : Type 0} (f : A → String) (le : A → A → Bool) where
  contains-map-insert_by :
      (x : A) (xs : List A) (i : String)
      → contains (map f (insert_by le x xs)) i ≡ contains (f x ∷ map f xs) i
  unfolding insert_by
  contains-map-insert_by x [] i = refl
  contains-map-insert_by x (y ∷ ys) i = ground (arith, contains-map-insert_by x ys i)

  pub contains-map-sort_by :
      (xs : List A) (i : String) → contains (map f (sort_by le xs)) i ≡ contains (map f xs) i
  unfolding sort_by
  contains-map-sort_by [] i = refl
  contains-map-sort_by (x ∷ xs) i =
      ground (arith, contains-map-insert_by x (sort_by le xs) i, contains-map-sort_by xs i)

  map-insert_by-Distinct :
      (x : A) (xs : List A) → Distinct (f x ∷ map f xs) → Distinct (map f (insert_by le x xs))
  unfolding insert_by
  map-insert_by-Distinct x [] d = d
  map-insert_by-Distinct x (y ∷ ys) d = ground (
    arith,
    contains-map-insert_by x ys (f y),
    map-insert_by-Distinct x ys,
    string_eq.same_iff (f y) (f x),
    string_eq.same_iff (f x) (f y),
  )

  pub map-sort_by-Distinct : (xs : List A) → Distinct (map f xs) → Distinct (map f (sort_by le xs))
  unfolding sort_by
  map-sort_by-Distinct [] d = tt
  map-sort_by-Distinct (x ∷ xs) d =
      map-insert_by-Distinct x (sort_by le xs)
        (ground (arith, contains-map-sort_by xs (f x), map-sort_by-Distinct xs))

-- The identifiers of the routes that pass a test.
pub contains-ids-select :
    (p : ProviderRoute → Bool) (rs : List ProviderRoute) (i : String)
    → contains (ids (select p rs)) i ≡ any (λ r. p r && (i == r.route_id)) rs
contains-ids-select p [] i = refl
contains-ids-select p (r ∷ rs) i = ground (arith, contains-ids-select p rs i)

pub contains-ids_rest :
    (chosen : List String) (rs : List ProviderRoute) (i : String)
    → contains (ids (select (λ r. not (contains chosen r.route_id)) rs)) i
      ≡ (contains (ids rs) i && not (contains chosen i))
contains-ids_rest chosen [] i = refl
contains-ids_rest chosen (r ∷ rs) i =
    ground (arith, contains-ids_rest chosen rs i, string_eq.same_iff i r.route_id)

pub select-Distinct :
    (p : ProviderRoute → Bool) (rs : List ProviderRoute)
    → Distinct (ids rs)
    → Distinct (ids (select p rs))
select-Distinct p [] d = tt
select-Distinct p (r ∷ rs) d = ground (arith, select-Distinct p rs, select_missing p rs r.route_id)
  where
    select_missing :
        (p : ProviderRoute → Bool) (rs : List ProviderRoute) (i : String)
        → contains (ids rs) i ≡ false
        → contains (ids (select p rs)) i ≡ false
    select_missing p [] i h = refl
    select_missing p (s ∷ rs) i h = ground (arith, select_missing p rs i)

pub diverse_missing :
    (seen : List String) (rs : List ProviderRoute) (i : String)
    → contains (ids rs) i ≡ false
    → contains (ids (diverse seen rs)) i ≡ false
unfolding diverse
diverse_missing seen [] i h = refl
diverse_missing seen (r ∷ rs) i h =
    ground (
      arith,
      diverse_missing seen rs i,
      diverse_missing (r.upstream_correlation_domain ∷ seen) rs i,
    )

pub diverse-Distinct :
    (seen : List String) (rs : List ProviderRoute)
    → Distinct (ids rs)
    → Distinct (ids (diverse seen rs))
unfolding diverse
diverse-Distinct seen [] d = tt
diverse-Distinct seen (r ∷ rs) d = ground (
  arith,
  diverse-Distinct seen rs,
  diverse-Distinct (r.upstream_correlation_domain ∷ seen) rs,
  diverse_missing (r.upstream_correlation_domain ∷ seen) rs r.route_id,
)

-- The domains of the first routes are those of all that were not seen, each once.
pub contains-domains-diverse :
    (seen : List String) (rs : List ProviderRoute) (d : String)
    → contains (domains (diverse seen rs)) d ≡ (contains (domains rs) d && not (contains seen d))
unfolding diverse
contains-domains-diverse seen [] d = refl
contains-domains-diverse seen (r ∷ rs) d = ground (
  arith,
  contains-domains-diverse seen rs d,
  contains-domains-diverse (r.upstream_correlation_domain ∷ seen) rs d,
  string_eq.same_iff d r.upstream_correlation_domain,
)

pub domains-diverse-Distinct :
    (seen : List String) (rs : List ProviderRoute) → Distinct (domains (diverse seen rs))
unfolding diverse
domains-diverse-Distinct seen [] = tt
domains-diverse-Distinct seen (r ∷ rs) = ground (
  arith,
  domains-diverse-Distinct seen rs,
  domains-diverse-Distinct (r.upstream_correlation_domain ∷ seen) rs,
  contains-domains-diverse (r.upstream_correlation_domain ∷ seen) rs r.upstream_correlation_domain,
  string_eq.same_iff r.upstream_correlation_domain r.upstream_correlation_domain,
)

pub append-Distinct :
    (xs ys : List String)
    → Distinct xs
    → Distinct ys
    → ((i : String) → contains xs i ≡ true → contains ys i ≡ false)
    → Distinct (xs ++ ys)
append-Distinct [] ys d e h = e
append-Distinct (x ∷ xs) ys d e h = ground (
  arith,
  contains-append xs ys x,
  h x (ground (arith, string_eq.same_iff x x)),
  append-Distinct xs ys d.1 e (λ i k. h i (ground arith)),
)
