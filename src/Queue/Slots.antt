-- ===== src/Queue/Slots.antt =====
-- The running side of the restore queue (src/context.rs): the slots and who holds them.
use postgres_restore_operato.Prelude.{
  ℕ, ◌+◌, ◌≤◌, ◌<◌, ◌≡◌, refl, max, Bool, true, false, not, some, List, [], ◌∷◌, ◌++◌, arith,
  eq_iff, ◌==◌, if◌then◌else◌, length, length-append, length-filter-le, filter, All, List-cases,
  ◌≢◌, inl, inr, eq_refl,
}
use postgres_restore_operato.Queue.{
  ReplicaKey, Pending, RestoreQueue, contains, waits, can_start, enqueue, mark_active, remove,
  retain_active, promote, try_promote, release_restore_slot,
}
use postgres_restore_operato.Queue.Waiting.{waits-filter, try_promote_room, waits-append}

contains-filter :
    (key k : ReplicaKey) (ks : List ReplicaKey)
    → contains key (filter (λ j. not (j == k)) ks) ≡ (if k == key then false else contains key ks)
contains-filter key k [] = ground arith
contains-filter key k (j ∷ ks) =
    ground (arith, contains-filter key k ks, eq_iff j k, eq_iff j key, eq_iff k key)

contains-append :
    (key k : ReplicaKey) (ks : List ReplicaKey)
    → contains key (ks ++ k ∷ []) ≡ (if k == key then true else contains key ks)
contains-append key k [] = ground arith
contains-append key k (j ∷ ks) = ground (arith, contains-append key k ks)

-- Removing a replica takes away its own place, running and waiting, and nobody else's.
remove_lem :
    (q : RestoreQueue) (key k : ReplicaKey)
    → (contains k (remove q key).active ≡ (if key == k then false else contains k q.active))
      × (waits k (remove q key).pending ≡ (if key == k then false else waits k q.pending))
unfolding remove
remove_lem q key k = (contains-filter k key q.active, waits-filter k key q.pending)

-- A replica marked active runs and does not wait, and nobody else is touched.
mark_active_lem :
    (q : RestoreQueue) (key k : ReplicaKey)
    → (contains k (mark_active q key).active ≡ (if key == k then true else contains k q.active))
      × (waits k (mark_active q key).pending ≡ (if key == k then false else waits k q.pending))
unfolding mark_active
mark_active_lem q key k =
    (ground (arith, contains-append k key q.active, eq_iff key k), waits-filter k key q.pending)

try_promote-capacity :
    (q : RestoreQueue) (limit : ℕ)
    → length (try_promote q limit).0.active ≤ max limit (length q.active)
unfolding try_promote promote
try_promote-capacity q limit = elim (List-cases q.pending) [
  | inl idle ↦ rw idle (ground arith)
  | inr (p, ps, waiting) ↦ rw waiting (ground (arith, length-append q.active (p.0 ∷ [])))
]

-- Releasing a slot never takes the number of running restores above the limit, or above what it was
-- where it was above the limit already.
pub release_restore_slot-capacity :
    (q : RestoreQueue) (key : ReplicaKey) (limit : ℕ)
    → length (release_restore_slot q key limit).0.active ≤ max limit (length q.active)
unfolding release_restore_slot remove
release_restore_slot-capacity q key limit = omega (
  arith,
  try_promote-capacity (remove q key) limit,
  length-filter-le (λ k. not (k == key)) q.active,
)

length-split :
    {A : Type 0} (p : A → Bool) (xs : List A)
    → length (filter p xs) + length (filter (λ x. not (p x)) xs) ≡ length xs
length-split p [] = omega arith
length-split p (x ∷ xs) = ground (arith, length-split p xs)

All-filter : {A : Type 0} (p : A → Bool) (xs : List A) → All (λ x. p x ≡ true) (filter p xs)
All-filter p [] = tt
All-filter p (x ∷ xs) = ground (arith, All-filter p xs)

-- The sweep keeps exactly slots of live restores, drops exactly the others, loses none, and leaves the
-- waiting replicas alone.
pub retain_active_lem :
    (q : RestoreQueue) (live : List ReplicaKey)
    → let (q', dropped) = retain_active q live in
      All (λ k. contains k live ≡ true) q'.active
      × All (λ k. not (contains k live) ≡ true) dropped
      × (length q'.active + length dropped ≡ length q.active)
      × (q'.pending ≡ q.pending)
unfolding retain_active
retain_active_lem q live = (
  All-filter (λ k. contains k live) q.active,
  All-filter (λ k. not (contains k live)) q.active,
  length-split (λ k. contains k live) q.active,
  refl,
)

waits-enqueue :
    (q : RestoreQueue) (key : ReplicaKey) (now : ℕ) → waits key (enqueue q key now).pending ≡ true
unfolding enqueue
waits-enqueue q key now =
    ground (arith, waits-append key q.pending (key, now), eq_iff key key, eq_refl key)

-- A replica that is promoted into the last free slot is itself refused by `can_start`, and its
-- reconcile puts it back among those that wait.
pub try_promote_refuses_itself :
    (q : RestoreQueue) (key : ReplicaKey) (limit at now : ℕ) (rest : List Pending)
    → q.pending ≡ (key, at) ∷ rest
    → length q.active + 1 ≡ limit
    → let (q', promoted) = try_promote q limit in
      (promoted ≡ some key)
      × (can_start q' limit ≡ false)
      × (waits key (enqueue q' key now).pending ≡ true)
unfolding can_start promote
try_promote_refuses_itself q key limit at now rest first full =
    rw (try_promote_room q limit (omega arith), first)
      (
        refl,
        ground (arith, length-append q.active (key ∷ [])),
        waits-enqueue (record { active = q.active ++ key ∷ []; pending = rest }) key now,
      )

pub length-filter-lt :
    (key : ReplicaKey) (ks : List ReplicaKey)
    → contains key ks ≡ true
    → length (filter (λ k. not (k == key)) ks) < length ks
length-filter-lt key (k ∷ ks) h =
    ground (arith, length-filter-lt key ks, length-filter-le (λ j. not (j == key)) ks)
length-filter-lt key [] h = cc

-- A replica that runs and also waits is promoted when another one releases its slot, and then holds
-- two slots.
pub release_restore_slot_twice :
    (q : RestoreQueue) (key other : ReplicaKey) (limit at : ℕ) (rest : List Pending)
    → other ≢ key
    → contains key q.active ≡ true
    → q.pending ≡ (key, at) ∷ rest
    → length q.active ≤ limit
    → contains other q.active ≡ true
    → let q' = (release_restore_slot q other limit).0 in
      (ks : List ReplicaKey) × (q'.active ≡ ks ++ key ∷ []) × (contains key ks ≡ true)
unfolding release_restore_slot remove promote
release_restore_slot_twice q key other limit at rest differ runs waiting room holder = (
  filter (λ k. not (k == other)) q.active,
  rw waiting (ground (arith, eq_iff key other, length-filter-lt other q.active)),
  ground (arith, contains-filter key other q.active, eq_iff other key),
)
