-- ===== src/Replica/Users.antt =====
-- `extra_users` of src/types/replica.rs: the extra login roles of a replica, cleaned up. `trim` is
-- `str::trim`.
use postgres_restore_operato.Prelude.{String, ◌||◌, List, [], ◌∷◌, any, ◌==◌, if◌then◌else◌}
use postgres_restore_operato.Types.{ExtraUserSpec, PostgresPhysicalReplica}

-- The entries that are not empty and not among those seen, each once.
unfoldable pub schemas_from : (String → String) → List String → List String → List String
schemas_from trim seen [] = []
schemas_from trim seen (s ∷ schemas) =
    let skipped = schemas_from trim seen schemas in
    let kept = schemas_from trim (trim s ∷ seen) schemas in
    if trim s == "" || any (λ t. t == trim s) seen then skipped else trim s ∷ kept

unfoldable pub users_from :
    (String → String) → String → List String → List ExtraUserSpec → List ExtraUserSpec
unfolding schemas_from
users_from trim analytics seen [] = []
users_from trim analytics seen (u ∷ users) =
    let name = trim u.name in
    let skipped = users_from trim analytics seen users in
    let kept = users_from trim analytics (name ∷ seen) users in
    if (name == "" || name == analytics) || any (λ t. t == name) seen
    then skipped
    else record { name = name; schemas = schemas_from trim [] u.schemas } ∷ kept

unfoldable pub extra_users : (String → String) → PostgresPhysicalReplica → List ExtraUserSpec
unfolding users_from
extra_users trim replica = users_from trim replica.analytics_username [] replica.extra_users
