-- ===== src/Governance/ModelRisk/Dependencies.antt =====
-- `find_common_dependencies` against the list of the models that name a dependency.
use liki.Common.{
  String, string_eq, ◌==◌, List, [], ◌∷◌, ◌++◌, Bool, true, false, ◌≡◌, refl, ◌∙◌, arith, length,
  ltb, select, if◌then◌else◌,
}
use mathlib.Core.List.{append_assoc, append-nil}
use liki.Governance.ModelRisk.{
  ModelRecord, Index, append_at, index_dependencies, index_records, find_common_dependencies,
}

-- The entry of a dependency, if it is listed.
abbrev pub lookup : String → Index → List String
lookup d [] = []
lookup d ((k, ids) ∷ m) = if d == k then ids else lookup d m

-- The model, once for each time that it names the dependency.
abbrev pub uses_in : String → String → List String → List String
uses_in d id [] = []
uses_in d id (k ∷ ks) = let rest = uses_in d id ks in if d == k then id ∷ rest else rest

-- The models that name a dependency, in order, each as often as it names it.
abbrev pub uses : String → List ModelRecord → List String
uses d [] = []
uses d (r ∷ rs) = uses_in d r.model_id r.dependencies ++ uses d rs

lookup-append_at :
    (d k id : String) (m : Index)
    → lookup d (append_at k id m) ≡ (if d == k then lookup d m ++ id ∷ [] else lookup d m)
unfolding append_at
lookup-append_at d k id [] = refl
lookup-append_at d k id ((j, ids) ∷ m) = ground (
  arith,
  lookup-append_at d k id m,
  string_eq.same_iff d k,
  string_eq.same_iff k j,
  string_eq.same_iff d j,
)

lookup-index_dependencies :
    (d id : String) (ks : List String) (m : Index)
    → lookup d (index_dependencies id ks m) ≡ lookup d m ++ uses_in d id ks
unfolding index_dependencies
lookup-index_dependencies d id [] m = rw append-nil
lookup-index_dependencies d id (k ∷ ks) m = ground (
  arith,
  lookup-index_dependencies d id ks (append_at k id m),
  lookup-append_at d k id m,
  append_assoc (lookup d m) (id ∷ []) (uses_in d id ks),
)

lookup-index_records :
    (d : String) (rs : List ModelRecord) (m : Index)
    → lookup d (index_records rs m) ≡ lookup d m ++ uses d rs
unfolding index_records
lookup-index_records d [] m = rw append-nil
lookup-index_records d (r ∷ rs) m = ground (
  arith,
  lookup-index_records d rs (index_dependencies r.model_id r.dependencies m),
  lookup-index_dependencies d r.model_id r.dependencies m,
  append_assoc (lookup d m) (uses_in d r.model_id r.dependencies) (uses d rs),
)

-- No dependency has two entries.
abbrev has_key : String → Index → Bool
has_key d [] = false
has_key d ((k, ids) ∷ m) = if d == k then true else has_key d m

abbrev IsKeyed : Index → Type 0
IsKeyed [] = Unit
IsKeyed ((k, ids) ∷ m) = (has_key k m ≡ false) × IsKeyed m

has_key-append_at :
    (d k id : String) (m : Index)
    → has_key d (append_at k id m) ≡ (if d == k then true else has_key d m)
unfolding append_at
has_key-append_at d k id [] = refl
has_key-append_at d k id ((j, ids) ∷ m) =
    ground (arith, has_key-append_at d k id m, string_eq.same_iff d k, string_eq.same_iff k j)

append_at-IsKeyed : (d id : String) (m : Index) → IsKeyed m → IsKeyed (append_at d id m)
unfolding append_at
append_at-IsKeyed d id [] h = (refl, tt)
append_at-IsKeyed d id ((k, ids) ∷ m) h = ground (
  arith,
  append_at-IsKeyed d id m h.1,
  has_key-append_at k d id m,
  string_eq.same_iff d k,
  string_eq.same_iff k d,
)

index_dependencies-IsKeyed :
    (id : String) (ks : List String) (m : Index) → IsKeyed m → IsKeyed (index_dependencies id ks m)
unfolding index_dependencies
index_dependencies-IsKeyed id [] m h = h
index_dependencies-IsKeyed id (k ∷ ks) m h =
    index_dependencies-IsKeyed id ks (append_at k id m) (append_at-IsKeyed k id m h)

index_records-IsKeyed :
    (rs : List ModelRecord) (m : Index) → IsKeyed m → IsKeyed (index_records rs m)
unfolding index_records
index_records-IsKeyed [] m h = h
index_records-IsKeyed (r ∷ rs) m h =
    index_records-IsKeyed rs (index_dependencies r.model_id r.dependencies m)
      (index_dependencies-IsKeyed r.model_id r.dependencies m h)

abbrev common : String × List String → Bool
common e = ltb 1 (length e.1)

lookup-missing : (d : String) (m : Index) → has_key d m ≡ false → lookup d (select common m) ≡ []
lookup-missing d [] h = refl
lookup-missing d ((k, ids) ∷ m) h = ground (arith, lookup-missing d m)

lookup-select :
    (d : String) (m : Index)
    → IsKeyed m
    → lookup d (select common m) ≡ (if ltb 1 (length (lookup d m)) then lookup d m else [])
lookup-select d [] h = refl
lookup-select d ((k, ids) ∷ m) h =
    ground (arith, lookup-select d m h.1, lookup-missing d m, string_eq.same_iff d k)

-- A dependency is reported with the models that name it, each as often as it names it and in order,
-- if there is more than one entry, and is left out otherwise.
pub lookup-find_common_dependencies :
    (d : String) (rs : List ModelRecord)
    → lookup d (find_common_dependencies rs)
      ≡ (if ltb 1 (length (uses d rs)) then uses d rs else [])
unfolding find_common_dependencies
lookup-find_common_dependencies d rs =
    lookup-select d (index_records rs []) (index_records-IsKeyed rs [] tt)
    ∙ rw (lookup-index_records d rs []) refl
