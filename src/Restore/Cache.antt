-- ===== src/Restore/Cache.antt =====
-- The size of a replica's kopia cache: `kopia_cache_pvc_size`, `kopia_cache_pvc_max`, `next_cache_pvc_size_after_pressure` and
-- `cache_size_needs_grow` of src/controllers/restore/builders.rs, and `grow_cache_pvc_after_pressure` of
-- src/controllers/restore.rs. The decimals and their quantities come from third-party crates: `Decimals` holds what the
-- sizes use of them.
pub mod Pressure
use Prim.Native.String
use postgres_restore_operato.Prelude.{String, Bool, true, false, Option, none, some, if◌then◌else◌}
use postgres_restore_operato.Types.{Quantity, PostgresPhysicalRestore}
use postgres_restore_operato.Effects.{Result, ok, err}

pub record Decimals (D : Type 0) : Type 0 where
  -- `ParsedQuantity::try_from`, and `into` a `Quantity`.
  pub parse : Quantity → Option D
  pub print : D → Quantity
  pub less : D → D → Bool
  pub zero : D
  -- The decimal of `10Gi`.
  pub ten_gi : D
  -- Multiplied by 0.2, by 2 and by 1.15.
  pub fifth : D → D
  pub doubled : D → D
  pub grown : D → D

module _ {D : Type 0} (decimals : Decimals D) where
  abbrev or_decimal : Option D → D → D
  or_decimal none d = d
  or_decimal (some e) d = e

  abbrev fifth_or_zero : Option D → D
  fifth_or_zero none = decimals.zero
  fifth_or_zero (some snapshot) = decimals.fifth snapshot

  abbrev grows : Option D → Option D → Bool
  grows (some c) (some d) = decimals.less c d
  grows (some c) none = false
  grows none desired = false

  unfoldable pub cache_size_needs_grow : Quantity → Quantity → Bool
  cache_size_needs_grow current desired = grows (decimals.parse current) (decimals.parse desired)

  unfoldable pub kopia_cache_pvc_size : Quantity → Quantity
  kopia_cache_pvc_size snapshot_size =
      let twenty_percent = fifth_or_zero (decimals.parse snapshot_size) in
      decimals.print
        (if decimals.less decimals.ten_gi twenty_percent then twenty_percent else decimals.ten_gi)

  unfoldable pub kopia_cache_pvc_max : Quantity → Quantity
  unfolding kopia_cache_pvc_size
  kopia_cache_pvc_max snapshot_size = decimals.print (
      decimals.doubled
        (or_decimal (decimals.parse (kopia_cache_pvc_size snapshot_size)) decimals.zero))

  abbrev capped : D → D → D
  capped bumped most = if decimals.less most bumped then most else bumped

  abbrev next_size : Quantity → Quantity → Option D → Quantity
  next_size current snapshot_size none = current
  next_size current snapshot_size (some c) = decimals.print (
      capped (decimals.grown c) (or_decimal (decimals.parse (kopia_cache_pvc_max snapshot_size)) c))

  unfoldable pub next_cache_pvc_size_after_pressure : Quantity → Quantity → Quantity
  unfolding kopia_cache_pvc_max
  next_cache_pvc_size_after_pressure current snapshot_size =
      next_size current snapshot_size (decimals.parse current)

  -- The name of the claim that is patched and its new size, where one is.
  abbrev pub resized : String → Quantity → Quantity → Option (String × Quantity)
  resized pvc current snapshot_size =
      let next = next_cache_pvc_size_after_pressure current snapshot_size in
      if cache_size_needs_grow current next then some (pvc, next) else none

  abbrev grown_claim :
      String → Quantity → Result (Option (Option Quantity)) → Option (String × Quantity)
  grown_claim pvc snapshot_size (ok (some (some current))) = resized pvc current snapshot_size
  grown_claim pvc snapshot_size (ok (some none)) = none
  grown_claim pvc snapshot_size (ok none) = none
  grown_claim pvc snapshot_size (err e) = none

  -- What is answered of the restore and of the claim, with its requested storage, and the patch that is sent.
  unfoldable pub grow_cache_pvc_after_pressure :
      Result PostgresPhysicalRestore
      → (String → Result (Option (Option Quantity)))
      → Option (String × Quantity)
  unfolding next_cache_pvc_size_after_pressure cache_size_needs_grow
  grow_cache_pvc_after_pressure (err e) get_pvc = none
  grow_cache_pvc_after_pressure (ok restore) get_pvc =
      let pvc = String.◌++◌ restore.replica "-kopia-cache" in
      grown_claim pvc restore.snapshot_size (get_pvc pvc)
