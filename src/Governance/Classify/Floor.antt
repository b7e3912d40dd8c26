-- ===== src/Governance/Classify/Floor.antt =====
-- The loop of `floor_for` against its meaning: the highest class of the controls that the proposal
-- triggers.
use liki.Common.{
  Among, String, string_eq, List, [], ◌∷◌, ◌++◌, map, true, ltb, ◌≤◌, ◌≡◌, refl, ◌⊎◌, inl, inr,
  arith, select, All, if◌then◌else◌, Bool-cases,
}
use mathlib.Core.List.{append_assoc, append-nil}
use liki.Governance.Proposal.{ChangeClass, severity_rank}
use liki.Governance.Policy.{ProtectedControl, triggers, raise_floor, floor_from}

-- The identifiers of the controls that are triggered, in the policy's order.
abbrev pub triggered_ids : List String → List String → List ProtectedControl → List String
triggered_ids paths controls cs = map (λ c. c.control_id) (select (triggers paths controls) cs)

module _ (paths controls : List String) where
  pub floor_from_matched :
      (cs : List ProtectedControl) (floor : ChangeClass) (matched : List String)
      → (floor_from paths controls cs floor matched).1 ≡ matched ++ triggered_ids paths controls cs
  unfolding floor_from
  floor_from_matched [] floor matched = rw append-nil
  floor_from_matched (c ∷ cs) floor matched =
      let hit = triggers paths controls c in
      ground (
        arith,
        floor_from_matched cs (if hit then raise_floor floor c.minimum_class else floor)
            (if hit then matched ++ c.control_id ∷ [] else matched),
        append_assoc matched (c.control_id ∷ []) (triggered_ids paths controls cs),
      )

  floor_from-ge :
      (cs : List ProtectedControl) (floor : ChangeClass) (matched : List String)
      → severity_rank floor ≤ severity_rank (floor_from paths controls cs floor matched).0
  unfolding floor_from raise_floor
  floor_from-ge [] floor matched = omega arith
  floor_from-ge (c ∷ cs) floor matched =
      let hit = triggers paths controls c in
      ground (
        arith,
        floor_from-ge cs (if hit then raise_floor floor c.minimum_class else floor)
            (if hit then matched ++ c.control_id ∷ [] else matched),
      )

  -- Every triggered control has at most the resulting class.
  pub floor_from_upper :
      (cs : List ProtectedControl) (floor : ChangeClass) (matched : List String)
      → All
          (λ c.
            triggers paths controls c ≡ true
            → severity_rank c.minimum_class
              ≤ severity_rank (floor_from paths controls cs floor matched).0)
          cs
  unfolding floor_from raise_floor
  floor_from_upper [] floor matched = tt
  floor_from_upper (c ∷ cs) floor matched =
      let hit = triggers paths controls c in
      let floor' = if hit then raise_floor floor c.minimum_class else floor in
      let matched' = if hit then matched ++ c.control_id ∷ [] else matched in
      (λ h. ground (arith, floor_from-ge cs floor' matched'), floor_from_upper cs floor' matched')

  -- The resulting class is the one at the start or that of a control of the list that is triggered.
  pub floor_from_attained :
      (cs : List ProtectedControl) (floor : ChangeClass) (matched : List String)
      → ((floor_from paths controls cs floor matched).0 ≡ floor)
        ⊎ Among
            (λ c.
              (triggers paths controls c ≡ true)
              × (c.minimum_class ≡ (floor_from paths controls cs floor matched).0))
            cs
  unfolding floor_from raise_floor
  floor_from_attained [] floor matched = inl refl
  floor_from_attained (c ∷ cs) floor matched =
      let hit = triggers paths controls c in
      let floor' = if hit then raise_floor floor c.minimum_class else floor in
      let matched' = if hit then matched ++ c.control_id ∷ [] else matched in
      elim (floor_from_attained cs floor' matched') [
        | inr found ↦ inr (inr found)
        | inl kept ↦ elim (Bool-cases (triggers paths controls c)) [
          | inl h ↦ elim (Bool-cases (ltb (severity_rank floor) (severity_rank c.minimum_class))) [
            | inl up ↦ inr (inl (h, ground arith))
            | inr same ↦ inl (ground arith)
          ]
          | inr h ↦ inl (ground arith)
        ]
      ]
