-- ===== src/Governance/Policy.antt =====
-- governance/policy.py: the versioned policy of protected controls, and the severity floor that it
-- sets for the paths and controls that a proposal touches.
use Prim.Native.Char.{code}
use Prim.Native.String.{◌++◌ as append}
use text.Mathlib.Text.{starts_with}
use liki.Common.{
  ℕ, String, string_eq, ◌==◌, List, [], ◌∷◌, ◌++◌, Option, none, some, Bool, false, ◌&&◌, ◌||◌,
  nat_beq, ltb, any, contains, if◌then◌else◌, not, Result, ok, ◌>>◌, raise_if, nat_eq,
}
use liki.Governance.Base.{Error, some_items, thresholds_changed}
use liki.Governance.Proposal.{ChangeClass, green, amber, red, severity_rank}

pub record ProtectedControl : Type 0 where
  pub control_id : String
  pub path_prefixes : List String
  pub minimum_class : ChangeClass

-- `review_thresholds` is a dict whose keys are the three classes.
pub record GovernancePolicy : Type 0 where
  pub policy_id : String
  pub policy_version : String
  pub content_hash : String
  pub protected_controls : List ProtectedControl
  pub review_thresholds : ChangeClass → Option ℕ

is_threshold : Option ℕ → ℕ → Bool
is_threshold none n = false
is_threshold (some m) n = m == n

-- `_policy_is_complete`, behind the bound on `protected_controls`
unfoldable pub validate_policy : GovernancePolicy → Result Error GovernancePolicy
unfolding is_threshold some_items
validate_policy p = do
  some_items p.protected_controls
  raise_if
      (not (
        is_threshold (p.review_thresholds green) 3
        && is_threshold (p.review_thresholds amber) 5
        && is_threshold (p.review_thresholds red) 7))
      thresholds_changed
  ok p

-- `prefix.rstrip("/")`
unfoldable pub rstrip_slash : String → String
rstrip_slash String.[] = String.[]
rstrip_slash (String.◌∷◌ c s) =
    let rest = rstrip_slash s in
    if rest == "" && nat_beq (code c) b'/' then String.[] else String.◌∷◌ c rest

unfoldable pub path_under : String → String → Bool
unfolding rstrip_slash
path_under path prefix = path == prefix || starts_with path (append (rstrip_slash prefix) "/")

-- The condition of the `if` in `floor_for`.
unfoldable pub triggers : List String → List String → ProtectedControl → Bool
triggers paths controls control =
    contains controls control.control_id
    || any (λ path. any (path_under path) control.path_prefixes) paths

-- `if _rank(control.minimum_class) > _rank(floor): floor = control.minimum_class`
unfoldable pub raise_floor : ChangeClass → ChangeClass → ChangeClass
raise_floor floor minimum =
    if ltb (severity_rank floor) (severity_rank minimum) then minimum else floor

-- The loop of `floor_for` over the protected controls left.
unfoldable pub floor_from :
    List String
    → List String
    → List ProtectedControl
    → ChangeClass
    → List String
    → ChangeClass × List String
floor_from paths controls [] floor matched = (floor, matched)
floor_from paths controls (control ∷ rest) floor matched =
    let hit = triggers paths controls control in
    floor_from paths controls rest (if hit then raise_floor floor control.minimum_class else floor)
      (if hit then matched ++ control.control_id ∷ [] else matched)

unfoldable pub floor_for : GovernancePolicy → List String → List String → ChangeClass × List String
unfolding floor_from
floor_for policy paths controls = floor_from paths controls policy.protected_controls green []
