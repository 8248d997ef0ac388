-- ===== src/Config/Reload.antt =====
-- That a reload of the settings gives what a restart would: src/bin/operator.rs.
use postgres_restore_operato.Prelude.{
  ℕ, ◌≡◌, refl, ap, String, true, Option, List, [], ◌∷◌, if_case, arith, is_empty,
}
use postgres_restore_operato.Effects.{Error, Result, ok, err}
use postgres_restore_operato.Placement.{PodPlacement, no_placement}
use postgres_restore_operato.Config.{
  ConfigMap, ConfigTargets, Event, applied, deleted, other, apply, read_config, defaults,
  reset_to_defaults, handle, empty_placement,
}

-- The ConfigMap that is there after some events, where it was as given before them.
abbrev pub last_config : Result ConfigMap → List Event → Result ConfigMap
last_config current [] = current
last_config current (applied cm ∷ events) = last_config (ok cm) events
last_config current (deleted ∷ events) = last_config (err Error.kube) events
last_config current (other ∷ events) = last_config current events

unfoldable pub handle_all :
    (String → Option ℕ) → (String → String) → ConfigTargets → List Event → ConfigTargets
unfolding handle
handle_all parse_usize trim targets [] = targets
handle_all parse_usize trim targets (e ∷ events) =
    handle_all parse_usize trim (handle parse_usize trim targets e) events

empty-nil {ℓ} : {A : Type ℓ} (xs : List A) → is_empty xs ≡ true → xs ≡ []
empty-nil [] h = refl
empty-nil (x ∷ xs) h = cc

no_placement-empty : (p : PodPlacement) → no_placement p ≡ true → p ≡ empty_placement
no_placement-empty p h =
    let selectors = empty-nil p.node_selector (ground (arith, h)) in
    let annotations = empty-nil p.annotations (ground (arith, h)) in
    let tolerations = empty-nil p.tolerations (ground (arith, h)) in
    λ i. record {
      node_selector = selectors i;
      annotations = annotations i;
      tolerations = tolerations i;
    }

reset-defaults : (targets : ConfigTargets) → reset_to_defaults targets ≡ defaults
unfolding reset_to_defaults
reset-defaults targets =
    let placed : PodPlacement → ConfigTargets = λ p. record defaults { pod_placement = p } in
    if_case (λ p. placed p ≡ defaults) (no_placement targets.pod_placement) _ _
      (λ h. ap placed (no_placement-empty targets.pod_placement h)) (λ h. refl)

module _ (parse_usize : String → Option ℕ) (trim : String → String) where
  -- Where the operator starts with the settings that it reads of its ConfigMap, and the events of its watch report what
  -- then happens to that, it has the settings that it would read at a restart, after any events.
  pub handle_all-read_config :
      (events : List Event) (current : Result ConfigMap)
      → handle_all parse_usize trim (read_config parse_usize trim current) events
        ≡ read_config parse_usize trim (last_config current events)
  unfolding handle_all apply read_config
  handle_all-read_config [] current = refl
  handle_all-read_config (applied cm ∷ events) current = handle_all-read_config events (ok cm)
  handle_all-read_config (deleted ∷ events) current =
      rw (reset-defaults (read_config parse_usize trim current))
        (handle_all-read_config events (err Error.kube))
  handle_all-read_config (other ∷ events) current = handle_all-read_config events current
