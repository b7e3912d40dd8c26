-- ===== src/Governance/Base.antt =====
-- governance/domain.py: timestamps, validated text, hashes, and references to artifacts.
-- A record holds validated values only, so a stored timestamp is its UTC instant, in microseconds.
use liki.Common.{
  ℕ, String, string_eq, ◌==◌, List, [], ◌∷◌, Option, none, some, Result, ok, err, if◌then◌else◌,
}
use liki.Common.Int.{ℤ, pos, int_eq}
use Prim.Native.String.{◌++◌}
use liki.Common.Json.{Json}

-- One constructor for each message that the module raises.
pub data Error : Type 0 where
  naive_timestamp not_utc empty_text empty_tuple below_minimum : Error
  snapshot_hash_mismatch unserialized_version floor_downgrade visible_verdicts : Error
  unresolved_without_evidence not_one_decision resolution_incomplete postmortem_missing : Error
  interaction_untested development_reused retirement_undated retirement_unexpected : Error
  model_card_missing consumed_reused : Error
  author_classifies repeated_group repeated_profile : Error
  invalid_transition promotion_unevaluated transition_without_evidence : Error
  no_replay_events no_scenarios thresholds_changed : Error

-- What the module takes from Python and pydantic: `str.strip` as pydantic applies it, `str.lower`,
-- the hex digest of the canonical JSON text, and the JSON text of a UTC datetime.
pub record External : Type 0 where
  pub strip : String → String
  pub lower : String → String
  pub digest : Json → String
  pub datetime_text : ℕ → String

-- A `datetime`; `utc_offset` is `None` where the value is naive.
pub record Datetime : Type 0 where
  pub instant : ℕ
  pub utc_offset : Option ℤ

unfoldable pub utc : Datetime → Result Error ℕ
utc value = elim value.utc_offset [
  | none ↦ err naive_timestamp
  | some offset ↦ if offset == pos 0 then ok value.instant else err not_utc
]

-- `NonEmpty`: stripped, and then at least one character.
unfoldable pub non_empty : External → String → Result Error String
non_empty ext value =
    let stripped = ext.strip value in if stripped == "" then err empty_text else ok stripped

-- `Field(min_length=1)` on a tuple.
unfoldable pub some_items {ℓ} : {A : Type ℓ} → List A → Result Error (List A)
some_items [] = err empty_tuple
some_items (x ∷ xs) = ok (x ∷ xs)

unfoldable pub canonical_hash : External → Json → String
canonical_hash ext value = "sha256:" ++ ext.digest value
