-- ===== src/Sizing/Memory.antt =====
-- That the memory of the postgres pod stays in its bounds: src/quantity.rs and src/controllers/restore/builders.rs.
use mathlib.Core.Option
use postgres_restore_operato.Prelude.{
  ℕ, ◌≤◌, ◌≡◌, refl, sym, subst, false, Option, none, some, max, if_case, arith,
}
use postgres_restore_operato.Labels.{Labels, label}
use postgres_restore_operato.Types.{Quantity}
use postgres_restore_operato.Intent.Resources.{ResourceRequirements, requests_of, limits_of}
use postgres_restore_operato.Sizing.{
  Floats, both_read, at_most, clamp, derived_memory, memory_of, scaled, scale_memory_for_snapshot,
  quantity_or, in_map, entry, merged, not_empty, with_memory, resolve_postgres_resources, read_in,
  memory_request, shm_of, compute_shm_mib, compute_shm_and_shared_buffers,
}

-- What is known of floats that are no NaN: their order, `min`, rounding up to MiB, and seven tenths of a number.
pub record IsOrdered {F : Type 0} (floats : Floats F) : Type 0 where
  pub less_irreflexive : (a : F) → floats.less a a ≡ false
  pub min_left : (a b : F) → floats.less a (floats.min a b) ≡ false
  pub min_right : (a b : F) → floats.less b (floats.min a b) ≡ false
  pub mib_monotone : (a b : F) → floats.less b a ≡ false → floats.mib a ≤ floats.mib b

-- A value between two others.
abbrev pub Between : {F : Type 0} → Floats F → F → F → F → Type 0
Between floats least most x = (floats.less x least ≡ false) × (floats.less most x ≡ false)

module _ {F : Type 0} (floats : Floats F) (ordered : IsOrdered floats) where
  at_most-Between :
      (least most y : F)
      → floats.less most least ≡ false
      → floats.less y least ≡ false
      → Between floats least most (at_most floats most y)
  at_most-Between least most y h k =
      if_case (Between floats least most) (floats.less most y) most y
        (λ above. (h, ordered.less_irreflexive most)) (λ below. (k, below))

  clamp-Between :
      (x least most : F)
      → floats.less most least ≡ false
      → Between floats least most (clamp floats x least most)
  clamp-Between x least most h =
      if_case (λ y. Between floats least most (at_most floats most y)) (floats.less x least) least x
        (λ below. at_most-Between least most least h (ordered.less_irreflexive least))
        (λ above. at_most-Between least most x h above)

-- The memory of a side is the given one and its CPU the floor's.
abbrev pub Side : Quantity → Option Labels → Option Labels → Type 0
Side memory from_floor side =
    (in_map "memory" side ≡ some memory) × (in_map "cpu" side ≡ in_map "cpu" from_floor)

not_empty-Side :
    (memory : Quantity) (cpu : Option Quantity) (from_floor : Option Labels)
    → in_map "cpu" from_floor ≡ cpu
    → Side memory from_floor (not_empty (with_memory (entry "cpu" cpu) (some memory)))
unfolding label
not_empty-Side memory none from_floor h = (refl, sym h)
not_empty-Side memory (some q) from_floor h = (refl, sym h)

-- What is resolved of a floor, where the sizes read: as much memory is asked for as is allowed, and CPU as
-- the floor has it.
abbrev pub Resolved : Quantity → ResourceRequirements → Option ResourceRequirements → Type 0
Resolved memory floor none = ⊥
Resolved memory floor (some r) =
    Side memory floor.requests r.requests × Side memory floor.limits r.limits

module _ {F : Type 0} (floats : Floats F) (ordered : IsOrdered floats) where
  -- Where a replica pins no resources and has a floor, and the sizes of the snapshot, of the floor's memory and of
  -- the maximum read, the pod asks for as much memory as it may use, its CPU is the floor's, and the
  -- memory is made of a number between the maximum and the lesser of the floor and the maximum.
  pub resolve_postgres_resources-Resolved :
      (floor : ResourceRequirements) (maximum : Option Quantity) (snapshot_size : Quantity)
      (snapshot least most : F)
      → both_read (floats.parse snapshot_size) ≡ some snapshot
      → both_read (floats.parse (quantity_or (in_map "memory" floor.limits) "0")) ≡ some least
      → both_read (floats.parse (quantity_or maximum "64Gi")) ≡ some most
      → let memory = derived_memory floats snapshot least most in
        Resolved
          (floats.to_quantity memory)
          floor
          (resolve_postgres_resources floats none (some floor) maximum snapshot_size)
        × Between floats (floats.min least most) most memory
  unfolding resolve_postgres_resources label
  resolve_postgres_resources-Resolved floor maximum snapshot_size snapshot least most s l m =
      let memory = floats.to_quantity (derived_memory floats snapshot least most) in
      let sized : scale_memory_for_snapshot floats snapshot_size
            (quantity_or (in_map "memory" floor.limits) "0") (quantity_or maximum "64Gi")
          ≡ some (memory_of memory) =
        λ i. scaled floats (s i) (l i) (m i) in
      (
        subst (λ r. Resolved memory floor (some (merged floor r))) (sym sized)
            (
              not_empty-Side memory (in_map "cpu" floor.requests) floor.requests refl,
              not_empty-Side memory (in_map "cpu" floor.limits) floor.limits refl,
            ),
        clamp-Between floats ordered (floats.tenth snapshot) (floats.min least most) most
            (ordered.min_right least most),
      )

  shm_of-most :
      (limit request : F)
      → shm_of floats (some limit) request ≤ max (floats.mib (floats.half limit)) 16
  shm_of-most limit request =
      let shm =
        floats.min (floats.half request) (floats.thirty_six_percent (floats.max request limit)) in
      let most =
        ordered.mib_monotone (floats.min shm (floats.half limit)) (floats.half limit)
          (ordered.min_right shm (floats.half limit)) in
      omega (arith, most)

-- Shared memory of so many MiB at most, and buffers of seven tenths of it; none are computed only where the
-- request has no bytes.
abbrev pub Fits : {F : Type 0} → Floats F → ℕ → Option F → Option (Quantity × ℕ) → Type 0
Fits floats most request none = request ≡ none
Fits floats most request (some (shm, buffers)) =
    (mib : ℕ) × (shm ≡ floats.from_mib mib) × (mib ≤ most) × (buffers ≡ floats.seven_tenths mib)

-- The request that is counted with.
abbrev pub request_of : {F : Type 0} → Floats F → F → Option ResourceRequirements → Option F
request_of floats default_request resources =
    memory_request floats default_request (read_in floats (in_map "memory" (requests_of resources)))

module _ {F : Type 0} (floats : Floats F) (ordered : IsOrdered floats) where
  mapped-Fits :
      (limit : F) (request : Option F)
      → Fits floats (max (floats.mib (floats.half limit)) 16) request (
          Option.map
            (λ shm_mib. (floats.from_mib shm_mib, floats.seven_tenths shm_mib))
            (Option.map (shm_of floats (some limit)) request))
  mapped-Fits limit none = refl
  mapped-Fits limit (some request) =
      let mib = shm_of floats (some limit) request in
      (mib, refl, shm_of-most floats ordered limit request, refl)

  -- Where the resources have a memory limit that reads, the shared memory is at most the MiB that half of it comes
  -- to, which is rounded up to whole MiB, or 16 MiB if that is more, and the shared buffers are seven tenths of that
  -- shared memory; nothing is computed only where the memory request parses and has no bytes.
  pub compute_shm_and_shared_buffers-Fits :
      (default_request limit : F) (resources : Option ResourceRequirements)
      → both_read (read_in floats (in_map "memory" (limits_of resources))) ≡ some limit
      → Fits floats
          (max (floats.mib (floats.half limit)) 16)
          (request_of floats default_request resources)
          (compute_shm_and_shared_buffers floats default_request resources)
  unfolding compute_shm_and_shared_buffers compute_shm_mib
  compute_shm_and_shared_buffers-Fits default_request limit resources h =
      subst
        (λ o.
          Fits floats (max (floats.mib (floats.half limit)) 16)
            (request_of floats default_request resources)
            (Option.map (λ shm_mib. (floats.from_mib shm_mib, floats.seven_tenths shm_mib))
              (Option.map (shm_of floats o) (request_of floats default_request resources))))
        (sym h) (mapped-Fits limit (request_of floats default_request resources))
