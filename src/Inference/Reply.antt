-- ===== src/Inference/Reply.antt =====
-- inference/broker.py: what a provider's response is worth (`_validate_response`), and the one JSON
-- object that is recovered from its text. The methods of texts, the parser and the validator of JSON
-- and the caller's own check are parameters.
use Prim.Native.String.{String}
use Prim.Native.Char.{code}
use liki.Common.{
  string_eq, ◌==◌, nat_beq, List, [], ◌∷◌, ◌++◌, Option, none, some, Bool, true, false, not, ◌&&◌,
  ◌||◌, any, if◌then◌else◌,
}
use liki.Common.Json.{Json, object}
use liki.Inference.Pricing.{
  AttemptStatus, Usage, semantic_accepted, retryable_failure, nonretryable_failure,
}
use liki.Inference.Records.{InferenceRequest}

pub record RawProviderResponse : Type 0 where
  pub text : String
  pub usage : Usage
  pub stop_reason : Option String

-- `loads` and `raw_decode` of the package json give nothing where they raise.
pub record Library : Type 0 where
  pub strip : String → String
  pub casefold : String → String
  pub splitlines : String → List String
  pub unlines : List String → String
  pub loads : String → Option Json
  pub raw_decode : String → Option Json
  pub json_beq : Json → Json → Bool
  pub is_valid : Json → Json → Bool

-- `text.startswith(prefix)` and `text.endswith(suffix)`
unfoldable pub starts_with : String → String → Bool
starts_with String.[] t = true
starts_with (String.◌∷◌ c s) String.[] = false
starts_with (String.◌∷◌ c s) (String.◌∷◌ d t) = nat_beq (code c) (code d) && starts_with s t

unfoldable pub ends_with : String → String → Bool
ends_with s String.[] = s == ""
ends_with s (String.◌∷◌ d t) = s == (String.◌∷◌ d t) || ends_with s t

-- `lines[1:-1]`
unfoldable pub without_last {ℓ} : {A : Type ℓ} → List A → List A
without_last [] = []
without_last (x ∷ []) = []
without_last (x ∷ y ∷ ys) = x ∷ without_last (y ∷ ys)

unfoldable pub inner {ℓ} : {A : Type ℓ} → List A → List A
unfolding without_last
inner [] = []
inner (x ∷ xs) = without_last xs

abbrev pub as_object : Option Json → Option Json
as_object (some (object members)) = some (object members)
as_object _ = none

module _ (lib : Library) where
  unfoldable pub candidates : String → List String
  unfolding starts_with ends_with inner
  candidates text =
      if starts_with "```" text && ends_with "```" text
      then text ∷ lib.strip (lib.unlines (inner (lib.splitlines text))) ∷ []
      else text ∷ []

  unfoldable pub first_object : List String → Option Json
  first_object [] = none
  first_object (t ∷ ts) = elim (as_object (lib.loads t)) [
    | none ↦ first_object ts
    | some v ↦ some v
  ]

  unfoldable pub add_new : Option Json → List Json → List Json
  add_new none recovered = recovered
  add_new (some v) recovered =
      if any (lib.json_beq v) recovered then recovered else recovered ++ (v ∷ [])

  -- The objects that start at some brace of the text, each once.
  unfoldable pub scan_braces : String → List Json → List Json
  unfolding add_new starts_with
  scan_braces String.[] recovered = recovered
  scan_braces (String.◌∷◌ c s) recovered = scan_braces s (
      if starts_with "{" (String.◌∷◌ c s)
      then add_new (as_object (lib.raw_decode (String.◌∷◌ c s))) recovered
      else recovered)

  abbrev pub only : List Json → Option Json
  only (v ∷ []) = some v
  only _ = none

  unfoldable pub recover_json_object : String → Option Json
  unfolding candidates first_object scan_braces
  recover_json_object text = elim (first_object (candidates text)) [
    | some v ↦ some v
    | none ↦ only (scan_braces text [])
  ]

  unfoldable pub is_truncated : Option String → Bool
  is_truncated none = false
  is_truncated (some reason) = reason == "max_tokens" || reason == "length"

  unfoldable pub is_refusal : String → Bool
  unfolding starts_with
  is_refusal text =
      any (λ p. starts_with p (lib.casefold text))
        ("i cannot" ∷ "i can't" ∷ "i'm unable" ∷ "i am unable" ∷ [])

  -- `semantic_validator` is None or answers whether it agrees.
  abbrev pub agrees : Option (Json → InferenceRequest → Bool) → Json → InferenceRequest → Bool
  agrees none artifact request = true
  agrees (some validator) artifact request = validator artifact request

  unfoldable pub judge :
      InferenceRequest
      → Option (Json → InferenceRequest → Bool)
      → Option Json
      → AttemptStatus × Option Json × Option String
  judge request validator none = (nonretryable_failure, none, some "malformed_structured_output")
  judge request validator (some artifact) =
      if not (lib.is_valid request.expected_artifact_schema artifact)
      then (nonretryable_failure, none, some "schema_validation_failed")
      else if not (agrees validator artifact request)
      then (nonretryable_failure, some artifact, some "semantic_validation_failed")
      else (semantic_accepted, some artifact, none)

  unfoldable pub validate_response :
      InferenceRequest
      → RawProviderResponse
      → Option (Json → InferenceRequest → Bool)
      → AttemptStatus × Option Json × Option String
  unfolding judge recover_json_object is_truncated is_refusal
  validate_response request response validator =
      let text = lib.strip response.text in
      if is_truncated response.stop_reason
      then (retryable_failure, none, some "truncated_response")
      else if text == ""
      then (nonretryable_failure, none, some "empty_response")
      else if is_refusal text
      then (nonretryable_failure, none, some "provider_refusal")
      else judge request validator (recover_json_object text)
