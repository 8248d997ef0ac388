-- ===== src/Canopy/Identity.antt =====
-- What a verification report says of a restore, and whose: src/controllers/canopy/verification.rs.
use postgres_restore_operato.Prelude.{
  ℕ, ◌≡◌, refl, String, Bool, true, false, not, ◌&&◌, Option, none, some, List, [], ◌∷◌, arith,
  is_some, ap, subst, unwrap_or, sym, ◌∙◌, any, filter, ◌==◌, if◌then◌else◌,
}
use postgres_restore_operato.Labels.{own_or, label-or_insert_all}
use postgres_restore_operato.Types.{Labels, label, PostgresPhysicalReplica, PostgresPhysicalRestore}
use postgres_restore_operato.Canopy.Report.{
  RunOutcome, CanopyIds, VerificationArgs, ReportApi, identify, max_by_size, name_of,
  application_databases, application_database, is_empty_cluster, verdict, is_success, build_args,
  report, built_for, and_then, ids_by, canopy_ids, with_fallback, fill_missing_labels,
}

judged :
    (empty : Bool) (error : Option String)
    → is_success (
        (elim empty as (λ _. RunOutcome × Option String) [
          | true ↦ (RunOutcome.failure, some "restore contains no application database")
          | false ↦ (RunOutcome.success, error)
        ]).0)
      ≡ not empty
judged true error = refl
judged false error = refl

-- PostgreSQL creates three databases of its own.
abbrev is_standard : String → Bool
is_standard name = any (λ s. name == s) ("postgres" ∷ "template0" ∷ "template1" ∷ [])

-- A cluster whose databases could not be read, or that has one that is not PostgreSQL's own.
abbrev pub holds_application : Option (List (String × ℕ)) → Bool
holds_application none = true
holds_application (some sizes) = any (λ database. not (is_standard database.0)) sizes

abbrev all_labels : Option Labels → Labels
all_labels none = []
all_labels (some labels) = labels

-- Whether labels hold all three identities, each of them a UUID.
abbrev holds_all : (String → Option String) → Labels → Bool
holds_all parse_uuid labels =
    is_some (and_then (label "pgro.bes.au/group" labels) parse_uuid)
    && (is_some (and_then (label "pgro.bes.au/server" labels) parse_uuid)
        && is_some (and_then (label "pgro.bes.au/declaration-id" labels) parse_uuid))

-- The identity that labels come to under a key, filled in from others where they do not hold all three.
abbrev pub identity : (String → Option String) → Labels → Labels → String → Option String
identity parse_uuid labels others key =
    if holds_all parse_uuid labels
    then and_then (label key labels) parse_uuid
    else and_then (own_or (label key labels) (label key others)) parse_uuid

-- The three identities of a report.
abbrev pub Identified : (String → Option String) → Labels → Option Labels → CanopyIds → Type 0
Identified parse_uuid labels others ids =
    (identity parse_uuid labels (all_labels others) "pgro.bes.au/group" ≡ some ids.group)
    × (identity parse_uuid labels (all_labels others) "pgro.bes.au/server" ≡ some ids.server_id)
    × (identity parse_uuid labels (all_labels others) "pgro.bes.au/declaration-id"
        ≡ some ids.replica_id)

-- What the sent report must say.
abbrev pub Sound : ReportApi → PostgresPhysicalReplica → RunOutcome → VerificationArgs → Type 0
Sound api replica outcome args =
    (is_some replica.canopy_source ≡ true)
    × Identified api.parse_uuid replica.labels api.namespace_labels args.ids
    × (is_success args.outcome ≡ (is_success outcome && holds_application api.sizes))
    × (args.replica_healthy ≡ is_success args.outcome)

max_some : (xs : List (String × ℕ)) → is_some (name_of (max_by_size xs)) ≡ any (λ d. true) xs
unfolding max_by_size
max_some [] = refl
max_some (d ∷ xs) = refl

any-filter : {A : Type 0} (p : A → Bool) (xs : List A) → any (λ x. true) (filter p xs) ≡ any p xs
any-filter p [] = refl
any-filter p (x ∷ xs) = ground (arith, any-filter p xs)

not_standard :
    (sizes : List (String × ℕ))
    → any (λ d. true) (application_databases sizes)
      ≡ any (λ database. not (is_standard database.0)) sizes
not_standard [] = refl
not_standard (d ∷ sizes) = ground (arith, not_standard sizes)

holds_application_lem :
    (sizes : Option (List (String × ℕ))) → not (is_empty_cluster sizes) ≡ holds_application sizes
unfolding application_database
holds_application_lem none = refl
holds_application_lem (some sizes) =
    ground (arith, max_some (application_databases sizes), not_standard sizes)

ids_by-some :
    (g s d : Option String) (ids : CanopyIds)
    → ids_by g s d ≡ some ids
    → (g ≡ some ids.group) × (s ≡ some ids.server_id) × (d ≡ some ids.replica_id)
ids_by-some (some g) (some s) (some d) ids h =
    let same = ap (λ o. unwrap_or o ids) h in
    (ap (λ i. some i.group) same, ap (λ i. some i.server_id) same, ap (λ i. some i.replica_id) same)
ids_by-some (some g) (some s) none ids h = cc
ids_by-some (some g) none d ids h = cc
ids_by-some none s d ids h = cc

ids_by-none :
    (g s d : Option String) → ids_by g s d ≡ none → (is_some g && (is_some s && is_some d)) ≡ false
ids_by-none (some g) (some s) (some d) h = cc
ids_by-none (some g) (some s) none h = refl
ids_by-none (some g) none d h = refl
ids_by-none none s d h = refl

module _ (parse_uuid : String → Option String) (labels : Labels) where
  own-Identified :
      (others : Option Labels) (ids : CanopyIds)
      → canopy_ids parse_uuid labels ≡ some ids
      → Identified parse_uuid labels others ids
  unfolding canopy_ids
  own-Identified others ids h =
      let (g, s, d) = ids_by-some _ _ _ ids h in
      let all : holds_all parse_uuid labels ≡ true = rw (g, s, d) refl in
      (rw all g, rw all s, rw all d)

  filled-Identified :
      (others : Labels) (ids : CanopyIds)
      → canopy_ids parse_uuid labels ≡ none
      → canopy_ids parse_uuid (fill_missing_labels labels others) ≡ some ids
      → Identified parse_uuid labels (some others) ids
  unfolding canopy_ids
  filled-Identified others ids own h =
      let (g, s, d) = ids_by-some _ _ _ ids h in
      let missing : holds_all parse_uuid labels ≡ false = ids_by-none _ _ _ own in
      let at : (key : String)
          → and_then (own_or (label key labels) (label key others)) parse_uuid
            ≡ and_then (label key (fill_missing_labels labels others)) parse_uuid =
        λ key. ap (λ o. and_then o parse_uuid) (sym (label-or_insert_all key others labels)) in
      (rw missing (at _ ∙ g), rw missing (at _ ∙ s), rw missing (at _ ∙ d))

  fallback-Identified :
      (others : Option Labels) (own : Option CanopyIds) (ids : CanopyIds)
      → canopy_ids parse_uuid labels ≡ own
      → (with_fallback parse_uuid labels others own).1 ≡ some ids
      → Identified parse_uuid labels others ids
  fallback-Identified others (some own) ids read h = own-Identified others ids (read ∙ h)
  fallback-Identified none none ids read h = cc
  fallback-Identified (some others) none ids read h = filled-Identified others ids read h

identify-Identified :
    (api : ReportApi) (labels : Labels) (ids : CanopyIds)
    → (identify api labels).1 ≡ some ids
    → Identified api.parse_uuid labels api.namespace_labels ids
unfolding identify
identify-Identified api labels ids h =
    fallback-Identified api.parse_uuid labels api.namespace_labels _ ids refl h

verdict-success :
    (outcome : RunOutcome) (error : Option String) (sizes : Option (List (String × ℕ)))
    → is_success (verdict outcome error sizes).0 ≡ (is_success outcome && holds_application sizes)
unfolding verdict
verdict-success RunOutcome.failure error sizes = refl
verdict-success RunOutcome.success error sizes =
    judged (is_empty_cluster sizes) error ∙ holds_application_lem sizes

module _ (api : ReportApi) (replica : PostgresPhysicalReplica) (restore : PostgresPhysicalRestore)
    (outcome : RunOutcome) (error : Option String) where
  built-Sound :
      (labels : Labels) (ids : Option CanopyIds) (args : VerificationArgs)
      → is_some replica.canopy_source ≡ true
      → ((known : CanopyIds)
          → ids ≡ some known
          → Identified api.parse_uuid replica.labels api.namespace_labels known)
      → built_for api restore (verdict outcome error api.sizes) (labels, ids) ≡ some args
      → Sound api replica outcome args
  unfolding build_args
  built-Sound labels none args h k e = cc
  built-Sound labels (some ids) args h k e =
      subst (Sound api replica outcome) (ap (λ sent. unwrap_or sent args) e)
        (h, k ids refl, verdict-success outcome error api.sizes, refl)

  sent-Sound :
      (asked : Bool) (args : VerificationArgs)
      → (asked ≡ true → is_some replica.canopy_source ≡ true)
      → (elim asked as (λ _. Option VerificationArgs) [
        | false ↦ none
        | true ↦
            built_for api restore (verdict outcome error api.sizes) (identify api replica.labels)
      ])
        ≡ some args
      → Sound api replica outcome args
  sent-Sound true args h e =
      built-Sound (identify api replica.labels).0 (identify api replica.labels).1 args (h refl)
        (identify-Identified api replica.labels) e
  sent-Sound false args h e = cc

  -- A report that is sent is about a replica with a canopy source, carries the three identities that the
  -- labels of the replica hold (filled in from its namespace's where they do not hold all three), and says that
  -- the run succeeded exactly for a run that did and whose databases, if they could be read, have one that is not
  -- named `postgres`, `template0` or `template1`; the replica is healthy exactly where the run succeeded.
  pub report-Sound :
      (args : VerificationArgs)
      → report api replica restore outcome error ≡ some args
      → Sound api replica outcome args
  unfolding report
  report-Sound args e =
      sent-Sound (is_some replica.canopy_source && api.canopy) args (λ h. ground (arith, h)) e
