-- ===== src/Finance/Stops/Guard.antt =====
-- Which orders the stops let through.
use liki.Common.{
  Among, is_given, String, string_eq, ◌==◌, List, [], ◌∷◌, Option, none, some, true, false, not,
  ◌&&◌, ◌||◌, contains, is_empty, Bool-cases, ◌≡◌, ◌↔◌, inl, inr, refl, ok, err, arith,
}
use liki.Finance.Orders.{OrderIntent}
use liki.Finance.Stops.{
  strategy_stop, venue_stop, paper_global_stop, block_new, reconcile, reduce_flatten, action_eq,
  EmergencyStop, StopError, blocked_by, is_paper_scope, is_strategy_scope, is_venue_scope, names,
  scoped, emergency_stop, applies_to, refuse_by, enforce_emergency_stops, is_future_scope,
}

-- The stop blocks new orders, and reaches this one by its scope.
pub data Reaches (s : EmergencyStop) (i : OrderIntent) : Type 0 where
  everywhere : s.scope ≡ paper_global_stop → Reaches s i
  by_strategy : s.scope ≡ strategy_stop → s.strategy_id ≡ some i.strategy_id → Reaches s i
  by_venue : s.scope ≡ venue_stop → s.venue ≡ some i.venue → Reaches s i

abbrev pub Blocks : OrderIntent → EmergencyStop → Type 0
Blocks i s = Reaches s i × (contains s.actions block_new ≡ true)

named : (o : Option String) (name : String) → names o name ≡ true → o ≡ some name
named none name h = absurd (ground arith)
named (some s) name h = ground (arith, string_eq.same_iff s name)

Reaches-of_applies : (i : OrderIntent) (s : EmergencyStop) → applies_to s i ≡ true → Reaches s i
unfolding applies_to
Reaches-of_applies i s h = elim (Bool-cases (is_paper_scope s.scope)) [
  | inl paper ↦ everywhere (ground arith)
  | inr other ↦ elim (Bool-cases (is_strategy_scope s.scope)) [
    | inl mine ↦ by_strategy (ground arith) (named s.strategy_id i.strategy_id (ground arith))
    | inr venues ↦ by_venue (ground arith) (named s.venue i.venue (ground arith))
  ]
]

applies-of_Reaches : (i : OrderIntent) (s : EmergencyStop) → Reaches s i → applies_to s i ≡ true
unfolding applies_to
applies-of_Reaches i s (everywhere e) = ground arith
applies-of_Reaches i s (by_strategy e f) =
    ground (arith, string_eq.same_iff i.strategy_id i.strategy_id)
applies-of_Reaches i s (by_venue e f) = ground (arith, string_eq.same_iff i.venue i.venue)

-- An order is let through exactly when no stop that blocks new orders reaches it: no global stop of
-- paper trading, no stop of its strategy, none of its venue.
pub enforce_emergency_stops_iff :
    (i : OrderIntent) (stops : List EmergencyStop)
    → (enforce_emergency_stops i stops ≡ ok tt) ↔ (Among (Blocks i) stops → ⊥)
unfolding enforce_emergency_stops refuse_by
enforce_emergency_stops_iff i [] = (λ h e. e, λ h. refl)
enforce_emergency_stops_iff i (s ∷ stops) =
    elim (Bool-cases (applies_to s i && contains s.actions block_new)) [
      | inl hit ↦ (
        λ h. absurd (ground arith),
        λ h. absurd (h (inl (Reaches-of_applies i s (ground arith), ground arith))),
      )
      | inr free ↦
          let k = enforce_emergency_stops_iff i stops in
          (λ h. passed free (k.0 (ground arith)), λ h. ground (arith, k.1 (λ a. h (inr a))))
    ]
  where
    passed :
        (applies_to s i && contains s.actions block_new) ≡ false
        → (Among (Blocks i) stops → ⊥)
        → Among (Blocks i) (s ∷ stops)
        → ⊥
    passed free rest (inl b) = ground (arith, applies-of_Reaches i s b.0, b.1)
    passed free rest (inr a) = rest a

-- An order that is refused is refused by name: the message has a stop of the list that blocks it.
pub enforce_emergency_stops_refused :
    (i : OrderIntent) (stops : List EmergencyStop) (e : StopError)
    → enforce_emergency_stops i stops ≡ err e
    → Among (λ s. Blocks i s × (e ≡ blocked_by s.stop_id)) stops
unfolding enforce_emergency_stops refuse_by
enforce_emergency_stops_refused i [] e h = absurd (ground arith)
enforce_emergency_stops_refused i (s ∷ stops) e h =
    elim (Bool-cases (applies_to s i && contains s.actions block_new)) [
      | inl hit ↦ inl ((Reaches-of_applies i s (ground arith), ground arith), ground arith)
      | inr free ↦ inr (enforce_emergency_stops_refused i stops e (ground arith))
    ]

-- A stop for paper trading as a whole, for a named strategy or for a named venue.
pub record IsScoped (s : EmergencyStop) : Type 0 where
  pub not_future : is_future_scope s.scope ≡ false
  pub acts : is_empty s.actions ≡ false
  pub names_strategy : (is_strategy_scope s.scope && not (is_given s.strategy_id)) ≡ false
  pub names_venue : (is_venue_scope s.scope && not (is_given s.venue)) ≡ false
  pub global_unnamed :
      (is_paper_scope s.scope && (is_given s.strategy_id || is_given s.venue)) ≡ false
  pub reconciled : (contains s.actions reduce_flatten && not (contains s.actions reconcile)) ≡ false
  pub texts_given :
      (s.stop_id == "" || s.actor_id == "" || s.reason == "" || s.policy_version == "") ≡ false

-- A stop is made exactly when it is not for live trading, has an action, names the strategy or venue
-- that its scope asks for and, if global, neither, reconciles if it flattens, and has no empty text;
-- it is as it was asked for.
pub emergency_stop_iff : (s t : EmergencyStop) → (emergency_stop s ≡ ok t) ↔ (IsScoped s × (s ≡ t))
unfolding emergency_stop scoped
emergency_stop_iff s t = (
  λ h. (
    record {
      not_future = ground arith;
      acts = ground arith;
      names_strategy = ground arith;
      names_venue = ground arith;
      global_unnamed = ground arith;
      reconciled = ground arith;
      texts_given = ground arith;
    },
    ground arith,
  ),
  λ h. ground (
    arith, h.0.not_future, h.0.acts, h.0.names_strategy, h.0.names_venue, h.0.global_unnamed,
    h.0.reconciled, h.0.texts_given, h.1,
  ),
)
