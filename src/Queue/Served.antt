-- ===== src/Queue/Served.antt =====
-- That a waiting replica is served: `Context::release_restore_slot` of src/context.rs, with the calls of the queue
-- that come between, by which others are enqueued and dead slots swept.
use postgres_restore_operato.Prelude.{
  ℕ, suc, ◌+◌, ◌≤◌, ◌<◌, ◌≡◌, ◌≢◌, refl, ap, sym, ◌∙◌, ◌⊎◌, Bool, true, false, not, Option, none,
  some, List, [], ◌∷◌, ◌==◌, length, length-filter-le, filter, any, arith, eq_iff, ◌||◌, ◌&&◌,
  length-append, Bool-cases, inl, inr, ltb, if◌then◌else◌,
}
use mathlib.Core.Option
use postgres_restore_operato.Queue.{
  ReplicaKey, Pending, RestoreQueue, contains, waits, position_from, position, enqueue, mark_active,
  remove, retain_active, promote, try_promote, release_restore_slot,
}
use postgres_restore_operato.Queue.Waiting.{
  is_first, position-enqueue, position_from-eq-none, position-try_promote, try_promote_room,
}
use postgres_restore_operato.Queue.Slots.{length-filter-lt, release_restore_slot-capacity}

-- The calls of the queue: a replica gives up its slot, one is enqueued, one starts a restore, or the slots
-- without a live restore are swept.
pub data Step : Type 0 where
  release : ReplicaKey → Step
  enter : ReplicaKey → ℕ → Step
  start : ReplicaKey → Step
  sweep : List ReplicaKey → Step

abbrev pub after_step : RestoreQueue → ℕ → Step → RestoreQueue
after_step q limit (Step.release key) = (release_restore_slot q key limit).0
after_step q limit (Step.enter key now) = enqueue q key now
after_step q limit (Step.start key) = mark_active q key
after_step q limit (Step.sweep live) = (retain_active q live).0

abbrev promoted_by : RestoreQueue → ℕ → Step → Option ReplicaKey
promoted_by q limit (Step.release key) = (release_restore_slot q key limit).2
promoted_by q limit _ = none

-- The replicas that are promoted on the way.
abbrev pub promotions : RestoreQueue → ℕ → List Step → List (Option ReplicaKey)
promotions q limit [] = []
promotions q limit (step ∷ steps) =
    promoted_by q limit step ∷ promotions (after_step q limit step) limit steps

-- Whether a step frees a slot: a replica gives up one that it holds.
abbrev frees : RestoreQueue → Step → Bool
frees q (Step.release key) = contains key q.active
frees q _ = false

abbrev pub freed : RestoreQueue → ℕ → List Step → ℕ
freed q limit [] = 0
freed q limit (step ∷ steps) =
    (if frees q step then 1 else 0) + freed (after_step q limit step) limit steps

-- No step takes the replica itself out of the queue, and a replica starts only where it has its slot already or
-- one is free.
abbrev spares : RestoreQueue → ℕ → ReplicaKey → Step → Bool
spares q limit k (Step.release key) = not (key == k)
spares q limit k (Step.start key) =
    not (key == k) && (contains key q.active || ltb (length q.active) limit)
spares q limit k _ = true

abbrev pub Spares : RestoreQueue → ℕ → ReplicaKey → List Step → Type 0
Spares q limit k [] = Unit
Spares q limit k (step ∷ steps) =
    (spares q limit k step ≡ true) × Spares (after_step q limit step) limit k steps

abbrev pub is_key : ReplicaKey → Option ReplicaKey → Bool
is_key k none = false
is_key k (some key) = key == k

-- A replica waits, at some place or before it.
abbrev By : RestoreQueue → ReplicaKey → ℕ → Type 0
By q k n = (m : ℕ) × (position q k ≡ some m) × (m ≤ n)

position_from-filter :
    (key k : ReplicaKey) (m n p : ℕ) (ps : List Pending)
    → (key == k) ≡ false
    → m ≤ n
    → position_from k n ps ≡ some p
    → (j : ℕ) × (position_from k m (filter (λ e. not (e.0 == key)) ps) ≡ some j) × (j ≤ p)
unfolding position_from
position_from-filter key k m n p [] h le e = cc
position_from-filter key k m n p (x ∷ ps) h le e = elim (Bool-cases (x.0 == key)) [
  | inl dropped ↦
      let e' : position_from k (suc n) ps ≡ some p =
        ground (arith, e, dropped, h, eq_iff x.0 key, eq_iff x.0 k, eq_iff key k) in
      rw dropped (position_from-filter key k m (suc n) p ps h (omega (arith, le)) e')
  | inr kept ↦ elim (Bool-cases (x.0 == k)) [
    | inl here ↦ rw (kept, here) (suc m, refl, ground (arith, e, here, le))
    | inr there ↦
        let e' : position_from k (suc n) ps ≡ some p = ground (arith, e, there) in
        rw (kept, there) (position_from-filter key k (suc m) (suc n) p ps h (omega (arith, le)) e')
  ]
]

position_from-positive :
    (k : ReplicaKey) (n : ℕ) (ps : List Pending) → position_from k n ps ≢ some 0
unfolding position_from
position_from-positive k n [] h = cc
position_from-positive k n (p ∷ ps) h = ground (arith, h, position_from-positive k (suc n) ps)

position-positive : (q : RestoreQueue) (k : ReplicaKey) → position q k ≢ some 0
unfolding position
position-positive q k = position_from-positive k 0 q.pending

first_promoted :
    (active : List ReplicaKey) (k : ReplicaKey) (ps : List Pending)
    → is_first k ps ≡ true
    → is_key k (promote active ps).1 ≡ true
unfolding promote
first_promoted active k [] h = cc
first_promoted active k (p ∷ ps) h = ground (arith, h)

one_before :
    (m : ℕ) (o : Option ℕ) → some m ≡ Option.map suc o → (j : ℕ) × (o ≡ some j) × (m ≡ suc j)
one_before m none h = cc
one_before m (some n) h = (n, refl, ground (arith, h))

module _ (q : RestoreQueue) (limit : ℕ) (k : ReplicaKey) (m : ℕ)
    (place : position q k ≡ some m) where
  remove-By : (key : ReplicaKey) → (key == k) ≡ false → By (remove q key) k m
  unfolding remove position
  remove-By key other = position_from-filter key k 0 0 m q.pending other (omega arith) place

  mark_active-By : (key : ReplicaKey) → (key == k) ≡ false → By (mark_active q key) k m
  unfolding mark_active position
  mark_active-By key other = position_from-filter key k 0 0 m q.pending other (omega arith) place

  k_waits : waits k q.pending ≡ true
  unfolding position
  k_waits = elim (Bool-cases (waits k q.pending)) [
    | inl there ↦ there
    | inr gone ↦ absurd (ground (arith, position_from-eq-none k 0 q.pending gone, place))
  ]

  enter-By : (key : ReplicaKey) (now : ℕ) → By (enqueue q key now) k m
  enter-By key now = (m, position-enqueue q key k now ∙ rw k_waits place, omega arith)

  sweep-By : (live : List ReplicaKey) → By (retain_active q live).0 k m
  unfolding retain_active position
  sweep-By live = (m, place, omega arith)

-- A promotion with a free slot serves the replica or moves it up; without one it changes nothing.
module _ (q : RestoreQueue) (limit : ℕ) (k : ReplicaKey) (m : ℕ)
    (place : position q k ≡ some m) where
  promoted_room :
      length q.active < limit
      → (is_key k (try_promote q limit).1 ≡ true)
        ⊎ ((j : ℕ) × (position (try_promote q limit).0 k ≡ some j) × (suc j ≤ m))
  promoted_room room =
      let moved = position-try_promote q limit k room in
      elim (Bool-cases (is_first k q.pending)) [
        | inl first ↦
            inl (rw (try_promote_room q limit room) (first_promoted q.active k q.pending first))
        | inr later ↦
            let up : some m ≡ Option.map suc (position (try_promote q limit).0 k) =
              sym place ∙ (rw later at moved) in
            let (j, there, one) = one_before m _ up in inr (j, there, omega (arith, one))
      ]

  promoted_full : ltb (length q.active) limit ≡ false → By (try_promote q limit).0 k m
  unfolding try_promote
  promoted_full full = rw full (m, place, omega arith)

module _ (q : RestoreQueue) (limit : ℕ) (k key : ReplicaKey) (m : ℕ) (place : position q k ≡ some m)
    (full : length q.active ≤ limit) (other : (key == k) ≡ false) where
  removed_room : contains key q.active ≡ true → length (remove q key).active < limit
  unfolding remove
  removed_room runs = omega (arith, full, length-filter-lt key q.active runs)

  -- A release serves the replica, or leaves it no further back, and further on where it frees a slot.
  release_step :
      (is_key k (release_restore_slot q key limit).2 ≡ true)
      ⊎ ((j : ℕ) × (position (release_restore_slot q key limit).0 k ≡ some j)
          × (j + (if contains key q.active then 1 else 0) ≤ m))
  unfolding release_restore_slot
  release_step =
      let (i, there, le) = remove-By q limit k m place key other in
      elim (Bool-cases (ltb (length (remove q key).active) limit)) [
        | inl room ↦ elim (promoted_room (remove q key) limit k i there (ground (arith, room))) [
          | inl now ↦ inl now
          | inr (j, at, up) ↦ inr (j, at, ground (arith, up, le))
        ]
        | inr no_room ↦
            let (j, at, stays) = promoted_full (remove q key) limit k i there no_room in
            inr (j, at, ground (arith, stays, le, no_room, removed_room))
      ]

module _ (q : RestoreQueue) (limit : ℕ) (full : length q.active ≤ limit) where
  release-full : (key : ReplicaKey) → length (release_restore_slot q key limit).0.active ≤ limit
  release-full key = omega (arith, full, release_restore_slot-capacity q key limit)

  start-full :
      (key : ReplicaKey)
      → (contains key q.active || ltb (length q.active) limit) ≡ true
      → length (mark_active q key).active ≤ limit
  unfolding mark_active
  start-full key room = ground (arith, full, room, length-append q.active (key ∷ []))

  enter-full : (key : ReplicaKey) (now : ℕ) → length (enqueue q key now).active ≤ limit
  unfolding enqueue
  enter-full key now = ground (arith, full)

  sweep-full : (live : List ReplicaKey) → length (retain_active q live).0.active ≤ limit
  unfolding retain_active
  sweep-full live = omega (arith, full, length-filter-le (λ k. contains k live) q.active)

-- In a queue that keeps to its limit, a replica that waits at some place is promoted by the time that as many
-- slots have been freed, each by a replica that ran and released it, whatever is enqueued, started, released or
-- swept between: as long as it is not itself started or released, and a replica starts only where it has its slot
-- already or one is free.
pub promotions_served :
    (steps : List Step) (q : RestoreQueue) (k : ReplicaKey) (limit p : ℕ)
    → length q.active ≤ limit
    → position q k ≡ some p
    → p ≤ freed q limit steps
    → Spares q limit k steps
    → any (is_key k) (promotions q limit steps) ≡ true
promotions_served [] q k limit p full place enough h =
    absurd (position-positive q k (place ∙ ap some (omega (arith, enough))))
promotions_served (Step.release key ∷ steps) q k limit p full place enough (other, rest) =
    elim (release_step q limit k key p place full (ground (arith, other))) [
      | inl now ↦ ground (arith, now)
      | inr (j, at, le) ↦
          let later =
            promotions_served steps (release_restore_slot q key limit).0 k limit j
              (release-full q limit full key) at (omega (arith, le, enough)) rest in
          ground (arith, later)
    ]
promotions_served (Step.enter key now ∷ steps) q k limit p full place enough (other, rest) =
    let (j, at, le) = enter-By q limit k p place key now in
    promotions_served steps (enqueue q key now) k limit j (enter-full q limit full key now) at
      (omega (arith, le, enough)) rest
promotions_served (Step.start key ∷ steps) q k limit p full place enough (fair, rest) =
    let (j, at, le) = mark_active-By q limit k p place key (ground (arith, fair)) in
    promotions_served steps (mark_active q key) k limit j
      (start-full q limit full key (ground (arith, fair))) at (omega (arith, le, enough)) rest
promotions_served (Step.sweep live ∷ steps) q k limit p full place enough (other, rest) =
    let (j, at, le) = sweep-By q limit k p place live in
    promotions_served steps (retain_active q live).0 k limit j (sweep-full q limit full live) at
      (omega (arith, le, enough)) rest
