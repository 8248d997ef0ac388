-- ===== src/Queue.antt =====
-- The restore queue of src/context.rs: `ReplicaKey`, `RestoreQueue` and
-- `Context::release_restore_slot`. A Timestamp is a count of nanoseconds, read from the clock by the
-- caller.
pub mod Waiting
pub mod Slots
pub mod Served
use postgres_restore_operato.Prelude.{
  slash_join, ℕ, suc, String, Bool, not, ◌&&◌, Option, none, some, List, [], ◌∷◌, ◌++◌, ltb, ◌==◌,
  if◌then◌else◌, length, is_empty, filter, any,
}

abbrev pub ReplicaKey : Type 0
ReplicaKey = String

-- `ReplicaKey::new`: the two names joined by a slash.
unfoldable pub replica_key : String → String → ReplicaKey
replica_key = slash_join

abbrev pub Pending : Type 0
Pending = ReplicaKey × ℕ

pub record RestoreQueue : Type 0 where
  pub active : List ReplicaKey
  pub pending : List Pending

abbrev pub empty : RestoreQueue
empty = record { active = []; pending = [] }

-- `Vec::contains` on keys.
abbrev pub contains : ReplicaKey → List ReplicaKey → Bool
contains key = any (λ k. k == key)

abbrev pub waits : ReplicaKey → List Pending → Bool
waits key = any (λ p. p.0 == key)

unfoldable pub can_start : RestoreQueue → ℕ → Bool
can_start q max = ltb (length q.active) max

-- `Iterator::position` plus one; the cast to u32 is exact below 2 ^ 32 entries.
unfoldable pub position_from : ReplicaKey → ℕ → List Pending → Option ℕ
position_from key n [] = none
position_from key n (p ∷ ps) =
    let rest = position_from key (suc n) ps in if p.0 == key then some (suc n) else rest

unfoldable pub position : RestoreQueue → ReplicaKey → Option ℕ
unfolding position_from
position q key = position_from key 0 q.pending

unfoldable pub enqueue : RestoreQueue → ReplicaKey → ℕ → RestoreQueue
enqueue q key now =
    if not (waits key q.pending) then record q { pending = q.pending ++ (key, now) ∷ [] } else q

unfoldable pub mark_active : RestoreQueue → ReplicaKey → RestoreQueue
mark_active q key =
    let pending = filter (λ p. not (p.0 == key)) q.pending in
    record {
      active = if not (contains key q.active) then q.active ++ key ∷ [] else q.active;
      pending = pending;
    }

unfoldable pub remove : RestoreQueue → ReplicaKey → RestoreQueue
remove q key = record {
  active = filter (λ k. not (k == key)) q.active;
  pending = filter (λ p. not (p.0 == key)) q.pending;
}

-- The keys kept and the keys dropped; `live` is the set of keys with a restore that is Restoring.
unfoldable pub retain_active : RestoreQueue → List ReplicaKey → RestoreQueue × List ReplicaKey
retain_active q live = (
  record q { active = filter (λ k. contains k live) q.active },
  filter (λ k. not (contains k live)) q.active,
)

unfoldable pub promote : List ReplicaKey → List Pending → RestoreQueue × Option ReplicaKey
promote active [] = (record { active = active; pending = [] }, none)
promote active ((key, at) ∷ rest) =
    (record { active = active ++ key ∷ []; pending = rest }, some key)

unfoldable pub try_promote : RestoreQueue → ℕ → RestoreQueue × Option ReplicaKey
unfolding promote
try_promote q max =
    if ltb (length q.active) max && not (is_empty q.pending)
    then promote q.active q.pending
    else (q, none)

-- The gauges `active_restores` and `queue_depth`.
pub record Gauges : Type 0 where
  pub active_restores : ℕ
  pub queue_depth : ℕ

abbrev pub gauges : RestoreQueue → Gauges
gauges q = record { active_restores = length q.active; queue_depth = length q.pending }

-- `Context::release_restore_slot`: the queue, the gauges set and the replica promoted.
unfoldable pub release_restore_slot :
    RestoreQueue → ReplicaKey → ℕ → RestoreQueue × Gauges × Option ReplicaKey
unfolding remove try_promote
release_restore_slot q key max =
    let (q', promoted) = try_promote (remove q key) max in (q', gauges q', promoted)
