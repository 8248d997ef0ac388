-- ===== src/Replica/Grants.antt =====
-- `reconcile_extra_user_grants` of src/controllers/replica.rs.
use postgres_restore_operato.Prelude.{String, not, List, filter, is_empty}
use postgres_restore_operato.Types.{ExtraUserSpec, PostgresPhysicalReplica}
use postgres_restore_operato.Effects.{Call, M, ◌>>=◌, ◌>>◌, pure, answer, try, branch, for_each}
use postgres_restore_operato.Replica.{ReplicaApi}
use postgres_restore_operato.Replica.Users.{extra_users}

unfoldable pub extra_users_with_schemas :
    (String → String) → PostgresPhysicalReplica → List ExtraUserSpec
extra_users_with_schemas trim replica =
    filter (λ u. not (is_empty u.schemas)) (extra_users trim replica)

module _ (api : ReplicaApi) where
  unfoldable pub grant_user : String → String → ExtraUserSpec → M (Unit {0})
  grant_user restore_name dbname user =
      try api.accepts (Call.grant_schemas restore_name dbname user.name user.schemas)

  unfoldable pub grant_in : String → List ExtraUserSpec → String → M (Unit {0})
  grant_in restore_name users dbname = do
    answer (api.databases.connects restore_name dbname)
    for_each (grant_user restore_name dbname) users

  unfoldable pub reconcile_extra_user_grants : PostgresPhysicalReplica → String → M (Unit {0})
  reconcile_extra_user_grants replica restore_name =
      let users = extra_users_with_schemas api.trim replica in
      branch (is_empty users) (pure tt) do
        answer api.databases.credentials
        answer (api.databases.connects restore_name "postgres")
        superuser ← answer (api.databases.is_superuser restore_name)
        branch superuser
            (answer (api.databases.connectable_databases restore_name)
              >>= for_each (grant_in restore_name users))
            (pure tt)
