-- ===== src/Config.antt =====
-- The operator's settings, read from its ConfigMap and kept up with it: src/bin/operator.rs. The data of a
-- ConfigMap is a list of pairs, empty where it is absent; the parser of a `usize` and `str::trim` are arguments. A value
-- that is the same is written again: the source compares the values to log what changed.
pub mod Reload
use postgres_restore_operato.Prelude.{
  ℕ, String, Bool, true, false, not, Option, none, some, List, [], ◌∷◌, ◌==◌, if◌then◌else◌,
}
use postgres_restore_operato.Labels.{Labels}
use postgres_restore_operato.Effects.{Result, ok, err}
use postgres_restore_operato.Placement.{PodPlacement, parse, no_placement}

abbrev pub ConfigMap : Type 0
ConfigMap = List (String × String)

-- What the watcher writes: `ConfigTargets`, and the settings that `read_config` gives.
pub record ConfigTargets : Type 0 where
  pub max_concurrent_restores : ℕ
  pub kopia_image : String
  pub use_port_forward : Bool
  pub pod_placement : PodPlacement

unfoldable pub value_of : String → ConfigMap → Option String
value_of key [] = none
value_of key ((k, v) ∷ cm) = let rest = value_of key cm in if k == key then some v else rest

abbrev empty_placement : PodPlacement
empty_placement = record { node_selector = []; annotations = []; tolerations = [] }

abbrev pub default_max_concurrent_restores : ℕ
default_max_concurrent_restores = 2

abbrev pub default_kopia_image : String
default_kopia_image = "kopia/kopia:0.22.3"

abbrev pub defaults : ConfigTargets
defaults = record {
  max_concurrent_restores = default_max_concurrent_restores;
  kopia_image = default_kopia_image;
  use_port_forward = false;
  pod_placement = empty_placement;
}

abbrev parsed_or_default : Option ℕ → ℕ
parsed_or_default none = default_max_concurrent_restores
parsed_or_default (some n) = n

abbrev image_or_default : Option String → String
image_or_default none = default_kopia_image
image_or_default (some image) = if image == "" then default_kopia_image else image

abbrev is_true : Option String → Bool
is_true none = false
is_true (some v) = v == "true"

abbrev text_or_empty : Option String → String
text_or_empty none = ""
text_or_empty (some s) = s

-- What the watcher of the ConfigMap delivers.
pub data Event : Type 0 where
  -- `Apply` and `InitApply`.
  applied : ConfigMap → Event
  deleted : Event
  -- `Init`, `InitDone` and an error.
  other : Event

module _ (parse_usize : String → Option ℕ) (trim : String → String) where
  abbrev parsed_usize : Option String → Option ℕ
  parsed_usize none = none
  parsed_usize (some v) = parse_usize v

  unfoldable pub extract_max_concurrent_restores : ConfigMap → ℕ
  extract_max_concurrent_restores cm =
      parsed_or_default (parsed_usize (value_of "maxConcurrentRestores" cm))

  unfoldable pub extract_kopia_image : ConfigMap → String
  extract_kopia_image cm = image_or_default (value_of "kopiaImage" cm)

  unfoldable pub extract_use_port_forward : ConfigMap → Bool
  extract_use_port_forward cm = is_true (value_of "usePortForward" cm)

  unfoldable pub extract_pod_placement : ConfigMap → PodPlacement
  extract_pod_placement cm =
      parse trim (text_or_empty (value_of "nodeSelector" cm))
        (text_or_empty (value_of "podAnnotations" cm)) (text_or_empty (value_of "tolerations" cm))

  unfoldable pub apply : ConfigTargets → ConfigMap → ConfigTargets
  apply targets cm = record targets {
    max_concurrent_restores = extract_max_concurrent_restores cm;
    kopia_image = extract_kopia_image cm;
    use_port_forward = extract_use_port_forward cm;
    pod_placement = extract_pod_placement cm;
  }

  unfoldable pub read_config : Result ConfigMap → ConfigTargets
  read_config (err e) = defaults
  read_config (ok cm) = record {
    max_concurrent_restores = extract_max_concurrent_restores cm;
    kopia_image = extract_kopia_image cm;
    use_port_forward = extract_use_port_forward cm;
    pod_placement = extract_pod_placement cm;
  }

unfoldable pub reset_to_defaults : ConfigTargets → ConfigTargets
reset_to_defaults targets = record targets {
  max_concurrent_restores = default_max_concurrent_restores;
  kopia_image = default_kopia_image;
  use_port_forward = false;
  pod_placement =
      if no_placement targets.pod_placement then targets.pod_placement else empty_placement;
}

-- One event of the watcher.
unfoldable pub handle :
    (String → Option ℕ) → (String → String) → ConfigTargets → Event → ConfigTargets
unfolding apply reset_to_defaults
handle parse_usize trim targets (applied cm) = apply parse_usize trim targets cm
handle parse_usize trim targets deleted = reset_to_defaults targets
handle parse_usize trim targets other = targets
