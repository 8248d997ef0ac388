-- ===== src/Storage.antt =====
-- The size of a restore's volume: `compute_storage_size` of src/controllers/replica/resources.rs. The
-- arguments are whole bytes, and absent where they are not given or do not parse. The decimal
-- arithmetic of the source is exact: sizes are computed in tenths of a byte.
use postgres_restore_operato.Prelude.{
  ℕ, ◌+◌, ◌*◌, ◌≤◌, ◌<◌, Bool, true, false, Option, none, some, ltb, if◌then◌else◌, if_case, arith,
  min,
}
use postgres_restore_operato.Effects.{Error, Result, ok, err}

-- 5Gi and 2Ti, in bytes.
abbrev five_gi : ℕ
five_gi = 5368709120

abbrev two_ti : ℕ
two_ti = 2199023255552

abbrev or_default : Option ℕ → ℕ → ℕ
or_default none n = n
or_default (some m) n = m

-- `max(10% of the snapshot, the last measured delta)`.
abbrev overhead : ℕ → Option ℕ → ℕ
overhead snapshot_bytes delta =
    if ltb snapshot_bytes (10 * or_default delta 0) then 10 * or_default delta 0 else snapshot_bytes

unfoldable pub computed_size : ℕ → Bool → Option ℕ → ℕ
computed_size snapshot_bytes writes_into_restore delta =
    if writes_into_restore
    then 10 * snapshot_bytes + overhead snapshot_bytes delta + 10 * five_gi
    else 11 * snapshot_bytes

abbrev chosen : Option ℕ → ℕ → ℕ
chosen none computed = computed
chosen (some size) computed = if ltb computed (10 * size) then 10 * size else computed

abbrev clamp : ℕ → ℕ → ℕ
clamp maximum size = if ltb maximum size then maximum else size

unfoldable pub compute_storage_size : ℕ → Option ℕ → Option ℕ → Bool → Option ℕ → Result ℕ
compute_storage_size snapshot_bytes override_size maximum writes_into_restore delta =
    let computed = computed_size snapshot_bytes writes_into_restore delta in
    let max_pvc_size = 10 * or_default maximum two_ti in
    if ltb max_pvc_size computed
    then err Error.storage_limit_exceeded
    else ok (clamp max_pvc_size (chosen override_size computed))

-- What is written into the restore beside the snapshot.
abbrev written : Bool → Option ℕ → ℕ
written false delta = 0
written true delta = or_default delta 0

-- A volume that fits, or the error for a snapshot that is too big for the maximum.
abbrev pub Fits : ℕ → Option ℕ → Option ℕ → Bool → Option ℕ → Result ℕ → Type 0
Fits snapshot_bytes override_size maximum writes delta (ok size) =
    (11 * snapshot_bytes ≤ size)
    × (10 * (snapshot_bytes + written writes delta) ≤ size)
    × (size ≤ 10 * or_default maximum two_ti)
    × (min (10 * or_default override_size 0) (10 * or_default maximum two_ti) ≤ size)
Fits snapshot_bytes override_size maximum writes delta (err e) =
    10 * or_default maximum two_ti < computed_size snapshot_bytes writes delta

computed-covers :
    (snapshot_bytes : ℕ) (writes : Bool) (delta : Option ℕ)
    → (11 * snapshot_bytes ≤ computed_size snapshot_bytes writes delta)
      × (10 * (snapshot_bytes + written writes delta) ≤ computed_size snapshot_bytes writes delta)
unfolding computed_size
computed-covers n false delta = (omega arith, omega arith)
computed-covers n true delta =
    if_case
      (λ extra.
        (11 * n ≤ 10 * n + extra + 10 * five_gi)
        × (10 * (n + or_default delta 0) ≤ 10 * n + extra + 10 * five_gi))
      (ltb n (10 * or_default delta 0)) _ _ (λ above. (ground (arith, above), omega arith))
      (λ below. (omega arith, ground (arith, below)))

clamped :
    (maximum computed : ℕ) (override_size : Option ℕ)
    → computed ≤ maximum
    → (computed ≤ clamp maximum (chosen override_size computed))
      × (clamp maximum (chosen override_size computed) ≤ maximum)
      × (min (10 * or_default override_size 0) maximum
          ≤ clamp maximum (chosen override_size computed))
clamped maximum computed none h = (ground (arith, h), ground (arith, h), ground (arith, h))
clamped maximum computed (some size) h = (ground (arith, h), ground (arith, h), ground (arith, h))

-- The volume of a restore holds the snapshot with a tenth to spare, and what the migration of its schemas
-- was last measured to add; it is no larger than the maximum, and no smaller than the configured size
-- or the maximum, whichever is less. It is refused only where `computed_size`, the snapshot with a
-- tenth of it to spare, or where schemas are written into it with 5Gi and the larger of a tenth and the
-- measured addition, is above the maximum.
pub compute_storage_size-Fits :
    (snapshot_bytes : ℕ) (override_size maximum : Option ℕ) (writes : Bool) (delta : Option ℕ)
    → Fits snapshot_bytes override_size maximum writes delta
        (compute_storage_size snapshot_bytes override_size maximum writes delta)
unfolding compute_storage_size
compute_storage_size-Fits n override_size maximum writes delta =
    let limit = 10 * or_default maximum two_ti in
    let computed = computed_size n writes delta in
    let (spare, holds) = computed-covers n writes delta in
    if_case (Fits n override_size maximum writes delta) (ltb limit computed) _ _
      (λ above. ground (arith, above))
      (λ within.
        let (least, most, floor) = clamped limit computed override_size (ground (arith, within)) in
        (omega (arith, least, spare), omega (arith, least, holds), most, floor))
