-- ===== src/Replica/Credentials.antt =====
-- The first stage of `reconcile` of src/controllers/replica.rs: the source of the kopia credentials, and the
-- objects that every replica has.
use postgres_restore_operato.Prelude.{String, Option, none, some, [], ◌∷◌, unwrap_or}
use postgres_restore_operato.Types.{CanopySource, PostgresPhysicalReplica}
use postgres_restore_operato.Effects.{ReplicaField, M, ◌>>◌, pure, answer, Action}
use postgres_restore_operato.Replica.{Secret, ReplicaApi, patch, update_condition}

module _ (api : ReplicaApi) where
  unfoldable pub refuse_credentials : String → M (Option Action)
  refuse_credentials reason =
      update_condition api "KopiaSecretValid" "False" reason
      >> pure (some (record { requeue = 60 }))

  unfoldable pub accept_credentials : String → M (Option Action)
  accept_credentials reason = update_condition api "KopiaSecretValid" "True" reason >> pure none

  unfoldable pub check_secret : Secret → M (Option Action)
  unfolding refuse_credentials accept_credentials
  check_secret Secret.not_found = refuse_credentials "SecretNotFound"
  check_secret Secret.invalid = refuse_credentials "SecretInvalid"
  check_secret Secret.valid = accept_credentials "SecretValid"

  -- Exactly one of `kopiaSecretRef` and `canopySource` is set, and a Secret has what kopia needs.
  unfoldable pub check_credentials :
      Option (Option String) → Option CanopySource → M (Option Action)
  unfolding refuse_credentials accept_credentials check_secret
  check_credentials (some _) (some _) = refuse_credentials "SecretRefAndCanopySource"
  check_credentials none none = refuse_credentials "NoCredentialSource"
  check_credentials (some secret) none = check_secret (api.find_secret (unwrap_or secret ""))
  check_credentials none (some _) = accept_credentials "CanopySourced"

  unfoldable pub ensure_objects : PostgresPhysicalReplica → M (Unit {0})
  ensure_objects replica = do
    answer (api.ensures "credentials")
    answer (api.ensures "extra users")
    answer (api.ensures "service")
    patch api replica (ReplicaField.service_name replica.name ∷ [])
    patch api replica (ReplicaField.connection_info ∷ [])
