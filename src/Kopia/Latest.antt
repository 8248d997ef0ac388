-- ===== src/Kopia/Latest.antt =====
-- `latest_snapshot` of src/kopia.rs against the order of the start times.
use Prim.Native.String.{String, [], ◌∷◌}
use postgres_restore_operato.Prelude.{
  ◌⊎◌, ◌≡◌, refl, true, false, some, List, arith, All, Bool-cases, ◌∙◌, inl, inr,
}
use postgres_restore_operato.Kopia.{Snapshot, before_or_same, later, latest_from, latest_snapshot}

before_or_same_refl : (s : String) → before_or_same s s ≡ true
unfolding before_or_same
before_or_same_refl [] = refl
before_or_same_refl (c ∷ s) = ground (arith, before_or_same_refl s)

before_or_same_trans :
    (s t u : String)
    → before_or_same s t ≡ true
    → before_or_same t u ≡ true
    → before_or_same s u ≡ true
unfolding before_or_same
before_or_same_trans [] t u h k = refl
before_or_same_trans (c ∷ s) (d ∷ t) (e ∷ u) h k = ground (arith, before_or_same_trans s t u)
before_or_same_trans (c ∷ s) [] u h k = cc
before_or_same_trans (c ∷ s) (d ∷ t) [] h k = cc

before_or_same_total : (s t : String) → before_or_same s t ≡ false → before_or_same t s ≡ true
unfolding before_or_same
before_or_same_total [] t h = cc
before_or_same_total (c ∷ s) [] h = refl
before_or_same_total (c ∷ s) (d ∷ t) h = ground (arith, before_or_same_total s t)

later_bounds :
    (a b : Snapshot)
    → (before_or_same a.start_time (later a b).start_time ≡ true)
      × (before_or_same b.start_time (later a b).start_time ≡ true)
unfolding later
later_bounds a b = ground (
  arith,
  before_or_same_refl a.start_time,
  before_or_same_refl b.start_time,
  before_or_same_total a.start_time b.start_time,
)

later-cases : (a b : Snapshot) → (later a b ≡ a) ⊎ (later a b ≡ b)
unfolding later
later-cases a b = elim (Bool-cases (before_or_same a.start_time b.start_time)) [
  | inl after ↦ inr (rw after refl)
  | inr not_after ↦ inl (rw not_after refl)
]

latest_from_bounds :
    (best : Snapshot) (snaps : List Snapshot)
    → (before_or_same best.start_time (latest_from best snaps).start_time ≡ true)
      × All (λ s. before_or_same s.start_time (latest_from best snaps).start_time ≡ true) snaps
unfolding latest_from
latest_from_bounds best List.[] = (before_or_same_refl best.start_time, tt)
latest_from_bounds best (List.◌∷◌ snap snaps) =
    let (least, rest) = latest_from_bounds (later best snap) snaps in
    let (old, new) = later_bounds best snap in
    (
      before_or_same_trans best.start_time (later best snap).start_time _ old least,
      (before_or_same_trans snap.start_time (later best snap).start_time _ new least, rest),
    )

-- Membership, as a position in the list.
abbrev pub Mem : Snapshot → List Snapshot → Type 0
Mem snap List.[] = ⊥
Mem snap (List.◌∷◌ s snaps) = (snap ≡ s) ⊎ Mem snap snaps

chosen-Mem :
    (r m a b : Snapshot) (snaps : List Snapshot)
    → (m ≡ a) ⊎ (m ≡ b)
    → Mem r (List.◌∷◌ m snaps)
    → Mem r (List.◌∷◌ a (List.◌∷◌ b snaps))
chosen-Mem r m a b snaps (inl old) (inl e) = inl (e ∙ old)
chosen-Mem r m a b snaps (inr new) (inl e) = inr (inl (e ∙ new))
chosen-Mem r m a b snaps _ (inr h) = inr (inr h)

latest_from-Mem :
    (best : Snapshot) (snaps : List Snapshot) → Mem (latest_from best snaps) (List.◌∷◌ best snaps)
unfolding latest_from
latest_from-Mem best List.[] = inl refl
latest_from-Mem best (List.◌∷◌ snap snaps) =
    chosen-Mem _ (later best snap) best snap snaps (later-cases best snap)
      (latest_from-Mem (later best snap) snaps)

-- Of the snapshots of a list that is not empty one is chosen, it is one of the list, and none of the list
-- starts after it.
pub latest_snapshot_lem :
    (snap : Snapshot) (snaps : List Snapshot)
    → (best : Snapshot) × (latest_snapshot (List.◌∷◌ snap snaps) ≡ some best)
      × Mem best (List.◌∷◌ snap snaps)
      × All (λ s. before_or_same s.start_time best.start_time ≡ true) (List.◌∷◌ snap snaps)
unfolding latest_snapshot
latest_snapshot_lem snap snaps =
    (latest_from snap snaps, refl, latest_from-Mem snap snaps, latest_from_bounds snap snaps)
