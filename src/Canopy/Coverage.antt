-- ===== src/Canopy/Coverage.antt =====
-- What one tick of the syncer may do, by the worklist that it read: src/controllers/canopy.rs.
use postgres_restore_operato.Prelude.{
  ◌≡◌, String, Bool, true, false, not, ◌&&◌, Option, none, some, List, [], ◌∷◌, any, filter, ◌==◌,
  eq_refl, arith, All, ℕ, Bool-cases, inl, inr,
}
use postgres_restore_operato.Effects.{Result, ok, err, Call, Kind, M, answer, pure, cases, ◌>>=◌}
use postgres_restore_operato.Effects.Emits.{
  Emits, emits, for_each-Emits, bind-Emits, cases-Emits_if, branch-Emits_if, pure-Emits,
  catch-Emits,
}
use postgres_restore_operato.Intent.{WorklistEntry}
use postgres_restore_operato.Canopy.{
  CanopyApi, is_supported, namespace_name_for, send_or, ensure_namespace, set_desired_snapshot,
  reconcile_entry, teardown, tolerate, sync_entry, covers, sync, tick,
}

abbrev pub entries_of : Option (Result (List WorklistEntry)) → List WorklistEntry
entries_of none = []
entries_of (some (ok entries)) = entries
entries_of (some (err e)) = []

abbrev pub names_of : Result (List String) → List String
names_of (ok names) = names
names_of (err e) = []

abbrev offers : Option String → String → Bool
offers none snapshot = false
offers (some s) snapshot = s == snapshot

-- The namespace of an entry with an intent that this operator supports.
abbrev pub Provisioned : CanopyApi → List WorklistEntry → String → Type 0
Provisioned api entries ns =
    any (λ e. namespace_name_for api e == ns && is_supported e.intent) entries ≡ true

abbrev is_namespace : String → List String → Bool
is_namespace ns namespaces = any (λ n. n == ns) namespaces

abbrev pub Covered : CanopyApi → List WorklistEntry → List String → Call → Type 0
Covered api entries namespaces (Call.delete Kind.namespace ns) =
    (is_namespace ns namespaces ≡ true) × (covers api entries ns ≡ false)
Covered api entries namespaces (Call.create Kind.namespace ns) = Provisioned api entries ns
Covered api entries namespaces (Call.apply_canopy_secret ns) = Provisioned api entries ns
Covered api entries namespaces (Call.apply_replica ns) = Provisioned api entries ns
Covered api entries namespaces (Call.desire_snapshot ns snapshot) =
    any (λ e. namespace_name_for api e == ns && offers e.snapshot_id snapshot) entries ≡ true
Covered api entries namespaces _ = ⊥

found_tail :
    {A : Type 0} (x : A) (xs ys : List A)
    → All (λ y. (q : A → Bool) → q y ≡ true → any q xs ≡ true) ys
    → All (λ y. (q : A → Bool) → q y ≡ true → any q (x ∷ xs) ≡ true) ys
found_tail x xs [] h = tt
found_tail x xs (y ∷ ys) (h, k) = ((λ q p. ground (arith, h q p)), found_tail x xs ys k)

-- What is in a list is found in it.
found-All : {A : Type 0} (xs : List A) → All (λ x. (q : A → Bool) → q x ≡ true → any q xs ≡ true) xs
found-All [] = tt
found-All (x ∷ xs) = ((λ q p. ground (arith, p)), found_tail x xs xs (found-All xs))

All-filter_if :
    {A : Type 0} {P Q : A → Type 0} (p : A → Bool) (xs : List A)
    → ((x : A) → P x → p x ≡ true → Q x)
    → All P xs
    → All Q (filter p xs)
All-filter_if p [] f h = tt
All-filter_if p (x ∷ xs) f (h, k) =
    let rest = All-filter_if p xs f k in
    elim (Bool-cases (p x)) [
      | inl kept ↦ rw kept (f x h kept, rest)
      | inr dropped ↦ rw dropped rest
    ]

All-map :
    {A : Type 0} {P Q : A → Type 0} (xs : List A) → ((x : A) → P x → Q x) → All P xs → All Q xs
All-map [] f h = tt
All-map (x ∷ xs) f (h, k) = (f x h, All-map xs f k)

module _ (api : CanopyApi) (entries : List WorklistEntry) (namespaces : List String) where
  abbrev Within : M (Unit {0}) → Type 0
  Within m = Emits (Covered api entries namespaces) m

  send_or-Within :
      (code : ℕ) (c : Call) → Covered api entries namespaces c → Within (send_or api code c)
  unfolding send_or
  send_or-Within code c h = record { calls = (h, tt) }

  desired-Within :
      (ns : String) (snapshot_id : Option String)
      → ((snapshot : String)
          → snapshot_id ≡ some snapshot
          → any (λ e. namespace_name_for api e == ns && offers e.snapshot_id snapshot) entries
            ≡ true)
      → Within (set_desired_snapshot api ns snapshot_id)
  unfolding set_desired_snapshot
  desired-Within ns snapshot_id h =
      cases-Emits_if snapshot_id (λ _. search emits)
        λ snapshot offered. let offer = h snapshot offered in search emits depth 20

  reconcile_entry-Within :
      (e : WorklistEntry)
      → ((q : WorklistEntry → Bool) → q e ≡ true → any q entries ≡ true)
      → Within (reconcile_entry api (namespace_name_for api e) e)
  unfolding reconcile_entry ensure_namespace
  reconcile_entry-Within e h =
      branch-Emits_if _ (λ _. search emits)
        λ known.
          let provisioned =
            h (λ f. namespace_name_for api f == namespace_name_for api e && is_supported f.intent)
              (ground (arith, known, eq_refl (namespace_name_for api e))) in
          bind-Emits _ _ (send_or-Within 409 _ provisioned) λ _. bind-Emits _ _ (search emits) λ _.
            bind-Emits _ _ (search emits) λ _. bind-Emits _ _ (search emits) λ _.
              desired-Within _ e.snapshot_id λ snapshot offered.
                h
                  (λ f.
                    namespace_name_for api f == namespace_name_for api e
                    && offers f.snapshot_id snapshot)
                  (rw offered
                    (ground (arith, eq_refl (namespace_name_for api e), eq_refl snapshot)))

  sync_entry-Within :
      (e : WorklistEntry)
      → ((q : WorklistEntry → Bool) → q e ≡ true → any q entries ≡ true)
      → Within (sync_entry api e)
  unfolding sync_entry tolerate
  sync_entry-Within e h = catch-Emits _ (reconcile_entry-Within e h) pure-Emits (λ _. pure-Emits tt)

  teardown-Within :
      (ns : String)
      → ((q : String → Bool) → q ns ≡ true → any q namespaces ≡ true)
      → not (covers api entries ns) ≡ true
      → Within (tolerate (teardown api ns))
  unfolding tolerate teardown
  teardown-Within ns h uncovered =
      catch-Emits _
        (send_or-Within 404 _ (h (λ n. n == ns) (eq_refl ns), ground (arith, uncovered))) pure-Emits
        (λ _. pure-Emits tt)

  sync-Within : Within (sync api entries namespaces)
  unfolding sync
  sync-Within =
      bind-Emits _ _
        (for_each-Emits _ entries (All-map entries sync_entry-Within (found-All entries)))
        λ _. for_each-Emits _ _ (
          All-filter_if (λ ns. not (covers api entries ns)) namespaces teardown-Within
            (found-All namespaces))

module _ (api : CanopyApi) where
  read-Within :
      (worklist : Result (List WorklistEntry)) (namespaces : Result (List String))
      → Emits
          (Covered api (entries_of (some worklist)) (names_of namespaces))
          (do entries ← answer worklist; names ← answer namespaces; sync api entries names)
  unfolding answer ◌>>=◌
  read-Within (err e) namespaces = record { calls = tt }
  read-Within (ok entries) (err e) = record { calls = tt }
  read-Within (ok entries) (ok namespaces) = sync-Within api entries namespaces

  ticked-Within :
      (worklist : Option (Result (List WorklistEntry))) (namespaces : Result (List String))
      → Emits (Covered api (entries_of worklist) (names_of namespaces)) (
          cases worklist
            (pure tt)
            λ read. do entries ← answer read; names ← answer namespaces; sync api entries names)
  unfolding cases
  ticked-Within none namespaces = pure-Emits tt
  ticked-Within (some worklist) namespaces = read-Within worklist namespaces

  -- One tick deletes only namespaces that canopy manages and that no entry of the worklist it read names;
  -- it creates a namespace, and applies canopy's Secret and the replica there, only for an entry with an
  -- intent that it supports; it offers a replica only the snapshot of an entry of its namespace; and it
  -- does nothing else: without a worklist it does nothing.
  pub tick-Covered :
      Emits (Covered api (entries_of api.worklist) (names_of api.namespaces)) (tick api)
  unfolding tick
  tick-Covered = ticked-Within api.worklist api.namespaces
