-- ===== src/Replica/Redaction.antt =====
-- The redaction of a switchover: src/controllers/replica/redaction.rs, and `base_version`'s use there. The
-- manifest parser and what applying a manifest comes to are parameters.
pub mod Succeeds
use postgres_restore_operato.Prelude.{
  ℕ, String, Bool, true, false, not, ◌&&◌, ◌||◌, Option, none, some, List, [], ◌∷◌, ltb, eqb,
  is_some, is_none, text_contains,
}
use postgres_restore_operato.Types.{RedactionPhase, RedactionSpec, is_done, PostgresPhysicalReplica}
use postgres_restore_operato.Effects.{
  Error, Result, ok, err, Call, ReplicaField, M, ◌>>=◌, ◌>>◌, pure, answer, try, attempt, when,
  branch, cases, catch,
}
use postgres_restore_operato.Replica.{ReplicaApi, Outcome, Response, patch}

abbrev version_placeholder : String
version_placeholder = "{version}"

unfoldable pub outcome_is_partial : Outcome → Bool
outcome_is_partial o = ltb 0 o.columns_failed || ltb 0 o.tables_failed

settled_phase : Outcome → RedactionPhase
settled_phase outcome = elim (outcome_is_partial outcome) [
  | true ↦ RedactionPhase.partial
  | false ↦ RedactionPhase.complete
]

unfoldable pub should_enforce_read_only : PostgresPhysicalReplica → Bool
should_enforce_read_only replica = replica.read_only && is_none replica.persistent_schemas

unfoldable pub validate_spec : RedactionSpec → Result (Unit {0})
validate_spec spec =
    let templated = text_contains spec.manifest_url version_placeholder in
    let has_literal = is_some spec.version in
    let has_query = is_some spec.version_query in
    elim (has_literal && has_query) [
      | true ↦
          err
            (Error.redaction "redaction spec: `version` and `versionQuery` are mutually exclusive")
      | false ↦ elim (templated && not (has_literal || has_query)) [
        | true ↦ err (
            Error.redaction
              "redaction spec: `manifestUrl` contains `{version}` but no `version` or `versionQuery` provided")
        | false ↦ elim (not templated && (has_literal || has_query)) [
          | true ↦ err (
              Error.redaction
                "redaction spec: `version`/`versionQuery` set but `manifestUrl` has no `{version}` placeholder")
          | false ↦ ok tt
        ]
      ]
    ]

-- The first column of the first row; a row without columns holds `none`.
abbrev first_value : List (Option String) → Result (Option String)
first_value [] = err (Error.redaction "versionQuery returned no rows")
first_value (none ∷ rows) = err (Error.redaction "versionQuery returned no columns")
first_value (some value ∷ rows) = ok (some value)

-- `error_for_status`: an answer of 400 or above is an error.
abbrev body_of : Response → Result String
body_of response = elim (ltb response.status 400) [ true ↦ response.text | false ↦ err Error.http ]

abbrev is_active_phase : Option RedactionPhase → Bool
is_active_phase (some RedactionPhase.active) = true
is_active_phase _ = false

abbrev pub has_phase_done : Option RedactionPhase → Bool
has_phase_done none = false
has_phase_done (some phase) = is_done phase

module _ (api : ReplicaApi) where
  unfoldable pub patch_phase : PostgresPhysicalReplica → RedactionPhase → M (Unit {0})
  patch_phase replica phase = patch api replica (ReplicaField.redaction_phase phase ∷ [])

  unfoldable pub patch_settled :
      PostgresPhysicalReplica → RedactionPhase → Option String → ℕ → M (Unit {0})
  patch_settled replica phase version columns_applied = patch api replica (
      ReplicaField.redaction_phase phase
      ∷ ReplicaField.redaction_version version
      ∷ ReplicaField.redaction_columns_applied columns_applied
      ∷ [])

  unfoldable pub resolve_by_query : Option String → String → String → M (Option String)
  resolve_by_query version_query restore_name dbname = cases version_query (pure none) λ query.
      answer (api.databases.simple_query restore_name dbname query) >>= λ rows.
      answer (first_value rows)

  unfoldable pub resolve_version : RedactionSpec → String → String → M (Option String)
  resolve_version spec restore_name dbname =
      cases spec.version (resolve_by_query spec.version_query restore_name dbname)
        λ v. pure (some v)

  unfoldable pub resolve_url : RedactionSpec → Option String → String
  resolve_url spec none = spec.manifest_url
  resolve_url spec (some v) = api.manifests.replace_version spec.manifest_url v

  -- The base version to fall back to, where there is one.
  fallback_version : RedactionSpec → Option String → Response → Option String
  fallback_version spec none response = none
  fallback_version spec (some v) response =
      elim (eqb response.status 404 && spec.version_fallback_to_base) [
        | true ↦ api.manifests.base_version v
        | false ↦ none
      ]

  unfoldable pub parse_body : Response → M String
  parse_body response =
      answer (body_of response) >>= λ body. answer (api.manifests.parse_manifest body)

  unfoldable pub fetch_manifest : RedactionSpec → Option String → String → M String
  unfolding fallback_version
  fetch_manifest spec version url = do
    response ← answer (api.manifests.send url)
    cases (fallback_version spec version response) (parse_body response) λ base.
        answer (api.manifests.send (api.manifests.replace_version spec.manifest_url base))
        >>= parse_body

  unfoldable pub reconcile_redaction :
      PostgresPhysicalReplica → RedactionSpec → String → M (Option String × Outcome)
  reconcile_redaction replica spec restore_name = do
    answer (validate_spec spec)
    answer api.databases.credentials
    dbname ← answer (api.databases.discover restore_name)
    answer (api.databases.connects restore_name dbname)
    version ← resolve_version spec restore_name dbname
    manifest ← fetch_manifest spec version (resolve_url spec version)
    try (λ c. true) (Call.redact restore_name)
    outcome ← answer (api.manifests.apply restore_name manifest)
    when (should_enforce_read_only replica) (try api.accepts (Call.enforce_read_only restore_name))
    pure (version, outcome)

  unfoldable pub settle_redaction : PostgresPhysicalReplica → Option String × Outcome → M Bool
  unfolding settled_phase
  settle_redaction replica (version, outcome) =
      patch_settled replica (settled_phase outcome) version outcome.columns_attempted >> pure true

  unfoldable pub fail_redaction : PostgresPhysicalReplica → Error → M Bool
  fail_redaction replica e = do
    patch_phase replica (RedactionPhase.failed (api.rendered e))
    attempt api.accepts (Call.event "RedactionFailed")
    pure false

  -- The source asks for a redaction only where the replica's spec has one.
  unfoldable pub reconcile_redaction_step :
      PostgresPhysicalReplica → RedactionSpec → String → M Bool
  reconcile_redaction_step replica spec switching_name =
      branch (has_phase_done replica.redaction_phase) (pure true) do
        when (not (is_active_phase replica.redaction_phase))
            (patch_phase replica RedactionPhase.active)
        catch (reconcile_redaction replica spec switching_name) (settle_redaction replica)
            (fail_redaction replica)
