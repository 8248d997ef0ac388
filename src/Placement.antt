-- ===== src/Placement.antt =====
-- Where the operator's pods run: src/placement.rs, which reads the placement of the operator's ConfigMap and
-- stamps it onto pod templates. `trim` is `str::trim`; an absent map or list is an empty one.
pub mod Defaults
pub mod Items
use Prim.Native.String
use postgres_restore_operato.Prelude.{
  ℕ, String, Bool, true, false, not, ◌&&◌, ◌||◌, Option, none, some, List, [], ◌∷◌, ◌++◌, any,
  filter, map, is_some, is_none, is_empty, ◌==◌, eqb, if◌then◌else◌,
}
use postgres_restore_operato.Labels.{Labels, or_insert_all, insert}
use postgres_restore_operato.Split.{split, split_once, rsplit_once}

pub record Toleration : Type 0 where
  pub key : Option String
  pub operator : Option String
  pub value : Option String
  pub effect : Option String
  pub toleration_seconds : Option ℕ

pub record PodPlacement : Type 0 where
  pub node_selector : Labels
  pub annotations : Labels
  pub tolerations : List Toleration

-- What of a pod template the placement touches.
pub record PodTemplate : Type 0 where
  pub node_selector : Labels
  pub annotations : Labels
  pub tolerations : List Toleration

-- The entries of a text, separated by a character, trimmed, without the empty ones.
abbrev pub entries_at : ℕ → (String → String) → String → List String
entries_at n trim raw = filter (λ entry. not (entry == "")) (map trim (split n raw))

-- The entries of a comma-separated text.
unfoldable pub entries : (String → String) → String → List String
entries trim raw = entries_at 44 trim raw

abbrev pair_of : (String → String) → Option (String × String) → Labels → Labels
pair_of trim none labels = labels
pair_of trim (some (k, v)) labels = if trim k == "" then labels else insert (trim k) (trim v) labels

-- A malformed entry is skipped.
unfoldable pairs_from : (String → String) → List String → Labels → Labels
pairs_from trim [] labels = labels
pairs_from trim (entry ∷ entries) labels =
    pairs_from trim entries (pair_of trim (split_once 61 entry) labels)

unfoldable pub parse_pairs : (String → String) → String → Labels
unfolding pairs_from
parse_pairs trim raw = pairs_from trim (entries trim raw) []

abbrev is_effect : String → Bool
is_effect effect = effect == "NoSchedule" || (effect == "PreferNoSchedule" || effect == "NoExecute")

abbrev tolerated : String → Option String → String → Option Toleration
tolerated key none effect =
    if key == ""
    then none
    else some (record {
      key = some key;
      operator = some "Exists";
      value = none;
      effect = some effect;
      toleration_seconds = none;
    })
tolerated key (some value) effect =
    if key == "" || value == ""
    then none
    else some (record {
      key = some key;
      operator = some "Equal";
      value = some value;
      effect = some effect;
      toleration_seconds = none;
    })

abbrev taint_of : (String → String) → String → Option (String × String) → String → Option Toleration
taint_of trim taint none effect = tolerated (trim taint) none effect
taint_of trim taint (some (k, v)) effect = tolerated (trim k) (some (trim v)) effect

abbrev toleration_of : (String → String) → Option (String × String) → Option Toleration
toleration_of trim none = none
toleration_of trim (some (taint, effect)) =
    if is_effect (trim effect)
    then taint_of trim taint (split_once 61 taint) (trim effect)
    else none

unfoldable tolerations_from : (String → String) → List String → List Toleration
tolerations_from trim [] = []
tolerations_from trim (entry ∷ entries) =
    let rest = tolerations_from trim entries in
    elim (toleration_of trim (rsplit_once 58 entry)) [ none ↦ rest | some t ↦ t ∷ rest ]

unfoldable pub parse_tolerations : (String → String) → String → List Toleration
unfolding tolerations_from
parse_tolerations trim raw = tolerations_from trim (entries trim raw)

unfoldable pub parse : (String → String) → String → String → String → PodPlacement
parse trim node_selector annotations tolerations = record {
  node_selector = parse_pairs trim node_selector;
  annotations = parse_pairs trim annotations;
  tolerations = parse_tolerations trim tolerations;
}

abbrev pub no_placement : PodPlacement → Bool
no_placement p = is_empty p.node_selector && (is_empty p.annotations && is_empty p.tolerations)

abbrev same_text : Option String → Option String → Bool
same_text none none = true
same_text (some a) (some b) = a == b
same_text none (some b) = false
same_text (some a) none = false

abbrev same_number : Option ℕ → Option ℕ → Bool
same_number none none = true
same_number (some a) (some b) = eqb a b
same_number none (some b) = false
same_number (some a) none = false

abbrev pub same_toleration : Toleration → Toleration → Bool
same_toleration s t =
    same_text s.key t.key
    && (same_text s.operator t.operator
        && (same_text s.value t.value
            && (same_text s.effect t.effect
                && same_number s.toleration_seconds t.toleration_seconds)))

abbrev pub has_toleration : Toleration → List Toleration → Bool
has_toleration t ts = any (λ s. same_toleration s t) ts

unfoldable pub push_missing : List Toleration → List Toleration → List Toleration
push_missing ts [] = ts
push_missing ts (t ∷ others) =
    push_missing (if has_toleration t ts then ts else ts ++ t ∷ []) others

unfoldable pub apply : PodPlacement → PodTemplate → PodTemplate
apply p template = if no_placement p then template else record {
  node_selector = or_insert_all template.node_selector p.node_selector;
  annotations = or_insert_all template.annotations p.annotations;
  tolerations = push_missing template.tolerations p.tolerations;
}
