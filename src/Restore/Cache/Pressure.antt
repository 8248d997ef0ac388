-- ===== src/Restore/Cache/Pressure.antt =====
-- That the size of a cache under pressure stays within its bounds: src/controllers/restore.rs and
-- src/controllers/restore/builders.rs.
use Prim.Native.String
use postgres_restore_operato.Prelude.{
  String, ◌≡◌, refl, sym, ap, ◌∙◌, ◌⊎◌, inl, inr, Bool, true, false, Option, none, some, List, [],
  ◌∷◌, if◌then◌else◌, if_case,
}
use postgres_restore_operato.Types.{Quantity, PostgresPhysicalRestore}
use postgres_restore_operato.Effects.{ok}
use postgres_restore_operato.Restore.Cache.{
  grows, Decimals, cache_size_needs_grow, kopia_cache_pvc_max, next_size, capped, or_decimal,
  resized, next_cache_pvc_size_after_pressure, grow_cache_pvc_after_pressure,
}

-- What the crates document of decimals: their order is a total one, and a decimal that is written is read back.
pub record IsOrdered {D : Type 0} (decimals : Decimals D) : Type 0 where
  pub parse-print : (d : D) → decimals.parse (decimals.print d) ≡ some d
  pub less_asymmetric : (a b : D) → decimals.less a b ≡ true → decimals.less b a ≡ false
  pub less_irreflexive : (a : D) → decimals.less a a ≡ false
  pub not_less_trans :
      (a b c : D)
      → decimals.less a b ≡ false
      → decimals.less b c ≡ false
      → decimals.less a c ≡ false

abbrev after_patch : Quantity → Bool → Option (String × Quantity) → Quantity
after_patch current accepted none = current
after_patch current accepted (some (pvc, next)) = if accepted then next else current

-- The requested storage of the claim after some reports of pressure, whose patches are accepted or not.
unfoldable pub pressures :
    {D : Type 0} → Decimals D → PostgresPhysicalRestore → Quantity → List Bool → Quantity
pressures decimals restore current [] = current
pressures decimals restore current (accepted ∷ reports) =
    pressures decimals restore
      (after_patch current accepted
        (grow_cache_pvc_after_pressure decimals (ok restore) (λ pvc. ok (some (some current)))))
      reports

-- A size that is no smaller than the first one, and no larger than the cap, or the first one itself.
abbrev pub Within : {D : Type 0} → Decimals D → D → D → Option D → Type 0
Within decimals first cap none = ⊥
Within decimals first cap (some d) =
    (decimals.less d first ≡ false) × ((decimals.less cap d ≡ false) ⊎ (d ≡ first))

module _ {D : Type 0} (decimals : Decimals D) (ordered : IsOrdered decimals)
    (restore : PostgresPhysicalRestore) (first cap : D)
    (most : decimals.parse (kopia_cache_pvc_max decimals restore.snapshot_size) ≡ some cap) where
  capped-cap : (bumped : D) → decimals.less cap (capped decimals bumped cap) ≡ false
  capped-cap bumped =
      if_case (λ d. decimals.less cap d ≡ false) (decimals.less cap bumped) _ _
        (λ h. ordered.less_irreflexive cap) (λ h. h)

  -- The size after a report, where the one before it reads as a decimal.
  next-parse :
      (current : Quantity) (c : D)
      → decimals.parse current ≡ some c
      → decimals.parse (next_cache_pvc_size_after_pressure decimals current restore.snapshot_size)
        ≡ some (capped decimals (decimals.grown c) cap)
  unfolding next_cache_pvc_size_after_pressure
  next-parse current c h =
      ap (λ o. decimals.parse (next_size decimals current restore.snapshot_size o)) h
      ∙ (ap
            (λ o.
              decimals.parse
                (decimals.print (capped decimals (decimals.grown c) (or_decimal decimals o c))))
            most
          ∙ ordered.parse-print (capped decimals (decimals.grown c) cap))

  grown-Within :
      (c : D)
      → Within decimals first cap (some c)
      → decimals.less c (capped decimals (decimals.grown c) cap) ≡ true
      → Within decimals first cap (some (capped decimals (decimals.grown c) cap))
  grown-Within c (above, most') grows =
      let d = capped decimals (decimals.grown c) cap in
      (
        ordered.not_less_trans d c first (ordered.less_asymmetric c d grows) above,
        inl (capped-cap (decimals.grown c)),
      )

  accepted-Within :
      (pvc : String) (current : Quantity) (c : D)
      → decimals.parse current ≡ some c
      → Within decimals first cap (some c)
      → Within decimals first cap (
          decimals.parse
            (after_patch current true (resized decimals pvc current restore.snapshot_size)))
  unfolding cache_size_needs_grow
  accepted-Within pvc current c h within =
      let next = next_cache_pvc_size_after_pressure decimals current restore.snapshot_size in
      let next' = next-parse current c h in
      let larger : cache_size_needs_grow decimals current next
          ≡ decimals.less c (capped decimals (decimals.grown c) cap) =
        λ i. grows decimals (h i) (next' i) in
      if_case (λ r. Within decimals first cap (decimals.parse (after_patch current true r)))
        (cache_size_needs_grow decimals current next) (some (pvc, next)) none
        (λ needed. rw next' (grown-Within c within (sym larger ∙ needed))) (λ stays. rw h within)

  refused-same :
      (current : Quantity) (patch : Option (String × Quantity))
      → after_patch current false patch ≡ current
  refused-same current none = refl
  refused-same current (some (pvc, next)) = refl

  resized-Within :
      (pvc : String) (accepted : Bool) (current : Quantity) (o : Option D)
      → decimals.parse current ≡ o
      → Within decimals first cap o
      → Within decimals first cap (
          decimals.parse
            (after_patch current accepted (resized decimals pvc current restore.snapshot_size)))
  resized-Within pvc accepted current none h within = absurd within
  resized-Within pvc false current (some c) h within =
      rw (refused-same current (resized decimals pvc current restore.snapshot_size), h) within
  resized-Within pvc true current (some c) h within = accepted-Within pvc current c h within

  reports-Within :
      (reports : List Bool) (current : Quantity)
      → Within decimals first cap (decimals.parse current)
      → Within decimals first cap (decimals.parse (pressures decimals restore current reports))
  unfolding pressures grow_cache_pvc_after_pressure
  reports-Within [] current h = h
  reports-Within (accepted ∷ reports) current h = reports-Within reports _ (
      resized-Within (String.◌++◌ restore.replica "-kopia-cache") accepted current
        (decimals.parse current) refl h)

  -- However often a restore reports pressure on the cache, and whichever patches are accepted, the requested storage of
  -- the claim reads as a decimal that is never smaller than it was at first, and no larger than the cap
  -- for the snapshot unless it is what it was at first; the decimals are totally ordered and read back
  -- as they are written.
  pub pressures-Within :
      (reports : List Bool) (current : Quantity)
      → decimals.parse current ≡ some first
      → Within decimals first cap (decimals.parse (pressures decimals restore current reports))
  pressures-Within reports current h =
      reports-Within reports current (rw h (ordered.less_irreflexive first, inr refl))
