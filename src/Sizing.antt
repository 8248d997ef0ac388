-- ===== src/Sizing.antt =====
-- The memory of the postgres pod: `scale_memory_for_snapshot` and `compute_shm_and_shared_buffers` of src/quantity.rs, and
-- `resolve_postgres_resources` and `restore_job_resources` of src/controllers/restore/builders.rs. The
-- quantity parser is third-party code and its bytes are floats: `Floats` holds what the sizes use of them.
pub mod Memory
use postgres_restore_operato.Prelude.{
  ℕ, String, Bool, true, false, Option, none, some, List, [], ◌∷◌, max, if◌then◌else◌, is_empty,
}
use mathlib.Core.Option
use postgres_restore_operato.Labels.{Labels, label}
use postgres_restore_operato.Types.{Quantity}
use postgres_restore_operato.Intent.Resources.{ResourceRequirements, requests_of, limits_of}

pub record Floats (F : Type 0) : Type 0 where
  -- `ParsedQuantity::try_from`, and `to_bytes_f64` of what it gives.
  pub parse : Quantity → Option (Option F)
  pub less : F → F → Bool
  -- `f64::min` and `f64::max`.
  pub min : F → F → F
  pub max : F → F → F
  -- Multiplied by 0.10, by 0.36 and by 0.5.
  pub tenth : F → F
  pub thirty_six_percent : F → F
  pub half : F → F
  -- Rounded up to whole MiB, as a number and as the quantity made of it.
  pub mib : F → ℕ
  pub to_quantity : F → Quantity
  pub from_mib : ℕ → Quantity
  -- Of whole MiB, seven tenths, rounded down.
  pub seven_tenths : ℕ → ℕ

-- `?` on both.
abbrev pub both_read : {F : Type 0} → Option (Option F) → Option F
both_read none = none
both_read (some o) = o

abbrev pub memory_of : Quantity → ResourceRequirements
memory_of q = record { requests = some (("memory", q) ∷ []); limits = some (("memory", q) ∷ []) }

abbrev pub quantity_or : Option Quantity → Quantity → Quantity
quantity_or none q = q
quantity_or (some p) q = p

abbrev pub entry : String → Option Quantity → Labels
entry key none = []
entry key (some q) = (key, q) ∷ []

abbrev pub in_map : String → Option Labels → Option Quantity
in_map key none = none
in_map key (some entries) = label key entries

abbrev pub not_empty : Labels → Option Labels
not_empty [] = none
not_empty (e ∷ entries) = some (e ∷ entries)

abbrev pub with_memory : Labels → Option Quantity → Labels
with_memory [] memory = entry "memory" memory
with_memory (e ∷ entries) memory = e ∷ with_memory entries memory

-- Memory from the derived value, CPU from the floor.
abbrev pub merge_sides : Option Labels → Option Labels → Option Labels
merge_sides derived from_floor =
    not_empty (with_memory (entry "cpu" (in_map "cpu" from_floor)) (in_map "memory" derived))

abbrev pub merged : ResourceRequirements → Option ResourceRequirements → ResourceRequirements
merged floor none = floor
merged floor (some scaled) = record {
  requests = merge_sides scaled.requests floor.requests;
  limits = merge_sides scaled.limits floor.limits;
}

abbrev job_memory : Option ResourceRequirements → Quantity
job_memory scaled = quantity_or (in_map "memory" (limits_of scaled)) "4Gi"

module _ {F : Type 0} (floats : Floats F) where
  -- `f64::clamp`.
  abbrev pub at_most : F → F → F
  at_most most y = if floats.less most y then most else y

  abbrev pub clamp : F → F → F → F
  clamp x least most = at_most most (if floats.less x least then least else x)

  abbrev pub derived_memory : F → F → F → F
  derived_memory snapshot floor cap = clamp (floats.tenth snapshot) (floats.min floor cap) cap

  abbrev pub scaled : Option F → Option F → Option F → Option ResourceRequirements
  scaled (some snapshot) (some floor) (some cap) =
      some (memory_of (floats.to_quantity (derived_memory snapshot floor cap)))
  scaled (some snapshot) (some floor) none = none
  scaled (some snapshot) none cap = none
  scaled none floor cap = none

  unfoldable pub scale_memory_for_snapshot :
      Quantity → Quantity → Quantity → Option ResourceRequirements
  scale_memory_for_snapshot snapshot_size floor cap =
      scaled (both_read (floats.parse snapshot_size)) (both_read (floats.parse floor))
        (both_read (floats.parse cap))

  -- `spec.resources`, `spec.resourcesFloor` and `spec.resourcesMaximum` of the replica.
  unfoldable pub resolve_postgres_resources :
      Option ResourceRequirements
      → Option ResourceRequirements
      → Option Quantity
      → Quantity
      → Option ResourceRequirements
  unfolding scale_memory_for_snapshot
  resolve_postgres_resources (some pinned) floor maximum snapshot_size = some pinned
  resolve_postgres_resources none none maximum snapshot_size = none
  resolve_postgres_resources none (some floor) maximum snapshot_size = some (
      merged floor (
        scale_memory_for_snapshot snapshot_size (quantity_or (in_map "memory" floor.limits) "0")
          (quantity_or maximum "64Gi")))

  unfoldable pub restore_job_resources : Quantity → ResourceRequirements
  unfolding scale_memory_for_snapshot
  restore_job_resources snapshot_size =
      let memory = job_memory (scale_memory_for_snapshot snapshot_size "4Gi" "16Gi") in
      record {
        requests = some (("cpu", "500m") ∷ ("memory", "1Gi") ∷ []);
        limits = some (("cpu", "2") ∷ ("memory", memory) ∷ []);
      }

  abbrev pub read_in : Option Quantity → Option (Option F)
  read_in none = none
  read_in (some q) = floats.parse q

  -- A request that does not parse is the default one.
  abbrev pub memory_request : F → Option (Option F) → Option F
  memory_request default_request none = some default_request
  memory_request default_request (some o) = o

  abbrev pub capped_shm : F → Option F → F
  capped_shm shm none = shm
  capped_shm shm (some limit) = floats.min shm (floats.half limit)

  abbrev effective : F → Option F → F
  effective request none = request
  effective request (some limit) = floats.max request limit

  abbrev pub shm_of : Option F → F → ℕ
  shm_of limit request =
      let shm =
        floats.min (floats.half request) (floats.thirty_six_percent (effective request limit)) in
      max (floats.mib (capped_shm shm limit)) 16

  -- `default_request` is the bytes of `1Gi`; `none` is the panic on a request that parses and has no bytes.
  unfoldable pub compute_shm_mib : F → Option ResourceRequirements → Option ℕ
  compute_shm_mib default_request resources =
      Option.map (shm_of (both_read (read_in (in_map "memory" (limits_of resources)))))
        (memory_request default_request (read_in (in_map "memory" (requests_of resources))))

  unfoldable pub compute_shm_and_shared_buffers :
      F → Option ResourceRequirements → Option (Quantity × ℕ)
  unfolding compute_shm_mib
  compute_shm_and_shared_buffers default_request resources =
      Option.map (λ shm_mib. (floats.from_mib shm_mib, floats.seven_tenths shm_mib))
        (compute_shm_mib default_request resources)
