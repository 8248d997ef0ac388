-- ===== src/Queue/Waiting.antt =====
-- The waiting side of the restore queue (src/context.rs): who waits, and in which order.
use postgres_restore_operato.Prelude.{
  ℕ, suc, ◌+◌, ◌<◌, ◌≡◌, refl, Bool, true, false, not, none, some, List, [], ◌∷◌, ◌++◌, arith,
  eq_iff, ◌==◌, if◌then◌else◌, length, filter, Bool-cases, List-cases, inl, inr,
}
use mathlib.Core.Option
use postgres_restore_operato.Queue.{
  ReplicaKey, Pending, RestoreQueue, empty, waits, position_from, position, enqueue, mark_active,
  remove, retain_active, promote, try_promote, release_restore_slot,
}

-- No key waits twice.
abbrev pub IsDistinct : List Pending → Type 0
IsDistinct [] = Unit
IsDistinct (p ∷ ps) = (waits p.0 ps ≡ false) × IsDistinct ps

pub waits-append :
    (key : ReplicaKey) (ps : List Pending) (p : Pending)
    → waits key (ps ++ p ∷ []) ≡ (if p.0 == key then true else waits key ps)
waits-append key [] p = ground arith
waits-append key (q ∷ ps) p = ground (arith, waits-append key ps p)

pub waits-filter :
    (key k : ReplicaKey) (ps : List Pending)
    → waits key (filter (λ p. not (p.0 == k)) ps) ≡ (if k == key then false else waits key ps)
waits-filter key k [] = ground arith
waits-filter key k (p ∷ ps) =
    ground (arith, waits-filter key k ps, eq_iff p.0 k, eq_iff p.0 key, eq_iff k key)

IsDistinct-append :
    (ps : List Pending) (p : Pending)
    → IsDistinct ps
    → waits p.0 ps ≡ false
    → IsDistinct (ps ++ p ∷ [])
IsDistinct-append [] p d h = (refl, tt)
IsDistinct-append (q ∷ ps) p d h =
    ground
      (arith, IsDistinct-append ps p d.1, waits-append q.0 ps p, eq_iff p.0 q.0, eq_iff q.0 p.0)

IsDistinct-filter :
    (k : ReplicaKey) (ps : List Pending)
    → IsDistinct ps
    → IsDistinct (filter (λ p. not (p.0 == k)) ps)
IsDistinct-filter k [] d = tt
IsDistinct-filter k (p ∷ ps) d = ground (arith, IsDistinct-filter k ps d.1, waits-filter p.0 k ps)

-- The calls that the operator makes of the queue.
pub data Op : Type 0 where
  ask : ReplicaKey → ℕ → Op
  start : ReplicaKey → Op
  release : ReplicaKey → ℕ → Op
  sweep : List ReplicaKey → Op

unfoldable pub apply : RestoreQueue → Op → RestoreQueue
unfolding enqueue mark_active release_restore_slot retain_active
apply q (ask key now) = enqueue q key now
apply q (start key) = mark_active q key
apply q (release key max) = (release_restore_slot q key max).0
apply q (sweep live) = (retain_active q live).0

unfoldable pub apply_all : RestoreQueue → List Op → RestoreQueue
apply_all q [] = q
apply_all q (op ∷ ops) = apply_all (apply q op) ops

promote-IsDistinct :
    (active : List ReplicaKey) (ps : List Pending)
    → IsDistinct ps
    → IsDistinct (promote active ps).0.pending
unfolding promote
promote-IsDistinct active [] d = tt
promote-IsDistinct active (p ∷ ps) d = d.1

pub try_promote-IsDistinct :
    (q : RestoreQueue) (max : ℕ) → IsDistinct q.pending → IsDistinct (try_promote q max).0.pending
unfolding try_promote
try_promote-IsDistinct q max d = ground (arith, promote-IsDistinct q.active q.pending d)

pub apply-IsDistinct :
    (q : RestoreQueue) (op : Op) → IsDistinct q.pending → IsDistinct (apply q op).pending
unfolding apply remove
apply-IsDistinct q (ask key now) d = elim (Bool-cases (waits key q.pending)) [
  | inl here ↦ rw here d
  | inr fresh ↦ rw fresh (IsDistinct-append q.pending (key, now) d fresh)
]
apply-IsDistinct q (start key) d = IsDistinct-filter key q.pending d
apply-IsDistinct q (release key max) d =
    try_promote-IsDistinct (remove q key) max (IsDistinct-filter key q.pending d)
apply-IsDistinct q (sweep live) d = d

apply_all-IsDistinct_from :
    (q : RestoreQueue) (ops : List Op) → IsDistinct q.pending → IsDistinct (apply_all q ops).pending
unfolding apply_all
apply_all-IsDistinct_from q [] d = d
apply_all-IsDistinct_from q (op ∷ ops) d =
    apply_all-IsDistinct_from (apply q op) ops (apply-IsDistinct q op d)

-- Whatever calls are made of an empty queue, in whatever order, no replica waits twice in it.
pub apply_all-IsDistinct : (ops : List Op) → IsDistinct (apply_all empty ops).pending
apply_all-IsDistinct ops = apply_all-IsDistinct_from empty ops tt

-- The replica at the head of the queue.
abbrev pub is_first : ReplicaKey → List Pending → Bool
is_first key [] = false
is_first key (p ∷ ps) = p.0 == key

position_from-append :
    (key : ReplicaKey) (n : ℕ) (ps : List Pending) (p : Pending)
    → position_from key n (ps ++ p ∷ []) ≡ (
        if waits key ps
        then position_from key n ps
        else if p.0 == key
        then some (suc (n + length ps))
        else none)
unfolding position_from
position_from-append key n [] p = ground arith
position_from-append key n (q ∷ ps) p = ground (arith, position_from-append key (suc n) ps p)

position_from-shift :
    (key : ReplicaKey) (n : ℕ) (ps : List Pending)
    → position_from key (suc n) ps ≡ Option.map suc (position_from key n ps)
unfolding position_from
position_from-shift key n [] = ground arith
position_from-shift key n (p ∷ ps) = ground (arith, position_from-shift key (suc n) ps)

pub position_from-eq-none :
    (key : ReplicaKey) (n : ℕ) (ps : List Pending)
    → waits key ps ≡ false
    → position_from key n ps ≡ none
unfolding position_from
position_from-eq-none key n [] h = refl
position_from-eq-none key n (p ∷ ps) h = ground (arith, position_from-eq-none key (suc n) ps)

-- After `enqueue` every replica that waited keeps its place, the one enqueued has the last place if it
-- did not wait, and nobody else waits.
pub position-enqueue :
    (q : RestoreQueue) (key k : ReplicaKey) (now : ℕ)
    → position (enqueue q key now) k ≡ (
        if waits k q.pending
        then position q k
        else if key == k
        then some (suc (length q.pending))
        else none)
unfolding enqueue position
position-enqueue q key k now = elim (Bool-cases (waits key q.pending)) [
  | inl here ↦ ground (arith, eq_iff key k, position_from-eq-none k 0 q.pending)
  | inr fresh ↦ ground (arith, position_from-append k 0 q.pending (key, now))
]

pub try_promote_room :
    (q : RestoreQueue) (max : ℕ)
    → length q.active < max
    → try_promote q max ≡ promote q.active q.pending
unfolding try_promote promote
try_promote_room q max room = elim (List-cases q.pending) [
  | inl none_waits ↦ ground arith
  | inr (p, ps, waiting) ↦ rw waiting (ground arith)
]

position_from-promote :
    (active : List ReplicaKey) (ps : List Pending) (k : ReplicaKey)
    → position_from k 0 ps ≡ (
        if is_first k ps
        then some 1
        else Option.map suc (position_from k 0 (promote active ps).0.pending))
unfolding position_from promote
position_from-promote active [] k = ground arith
position_from-promote active (p ∷ ps) k = ground (arith, position_from-shift k 0 ps)

-- Where a slot is free, a promotion serves the replica that waited first, and every other replica
-- moves up by exactly one place.
pub position-try_promote :
    (q : RestoreQueue) (max : ℕ) (k : ReplicaKey)
    → length q.active < max
    → position q k
      ≡ (if is_first k q.pending then some 1 else Option.map suc (position (try_promote q max).0 k))
unfolding position
position-try_promote q max k room =
    rw (try_promote_room q max room) (position_from-promote q.active q.pending k)
