-- ===== src/Replica/Roles.antt =====
-- The roles that `extra_users` of src/types/replica.rs gives out.
use postgres_restore_operato.Prelude.{
  ◌≡◌, String, false, ◌||◌, List, [], ◌∷◌, any, ◌==◌, arith, if_case,
}
use postgres_restore_operato.Types.{ExtraUserSpec, PostgresPhysicalReplica}
use postgres_restore_operato.Replica.Users.{schemas_from, users_from, extra_users}

-- Each text is new: not empty, not among those seen, nor again further on.
abbrev pub AllNew : List String → List String → Type 0
AllNew seen [] = Unit
AllNew seen (s ∷ texts) =
    ((s == "") ≡ false) × (any (λ t. t == s) seen ≡ false) × AllNew (s ∷ seen) texts

abbrev pub names : List ExtraUserSpec → List String
names [] = []
names (u ∷ users) = u.name ∷ names users

schemas_from-AllNew :
    (trim : String → String) (seen schemas : List String)
    → AllNew seen (schemas_from trim seen schemas)
unfolding schemas_from
schemas_from-AllNew trim seen [] = tt
schemas_from-AllNew trim seen (s ∷ schemas) =
    let skipped = schemas_from-AllNew trim seen schemas in
    let kept = schemas_from-AllNew trim (trim s ∷ seen) schemas in
    if_case (AllNew seen) (trim s == "" || any (λ t. t == trim s) seen) _ _ (λ _. skipped)
      λ new. (ground (arith, new), ground (arith, new), kept)

-- Every role is one that may be provisioned: not the analytics user, and with schemas that are new.
abbrev pub AllRoles : String → List ExtraUserSpec → Type 0
AllRoles analytics [] = Unit
AllRoles analytics (u ∷ users) =
    ((u.name == analytics) ≡ false) × AllNew [] u.schemas × AllRoles analytics users

users_from-AllRoles :
    (trim : String → String) (analytics : String) (seen : List String) (users : List ExtraUserSpec)
    → AllNew seen (names (users_from trim analytics seen users))
      × AllRoles analytics (users_from trim analytics seen users)
unfolding users_from
users_from-AllRoles trim analytics seen [] = (tt, tt)
users_from-AllRoles trim analytics seen (u ∷ users) =
    let skipped = users_from-AllRoles trim analytics seen users in
    let kept = users_from-AllRoles trim analytics (trim u.name ∷ seen) users in
    if_case (λ us. AllNew seen (names us) × AllRoles analytics us)
      ((trim u.name == "" || trim u.name == analytics) || any (λ t. t == trim u.name) seen) _ _
      (λ _. skipped)
      λ new. (
        (ground (arith, new), ground (arith, new), kept.0),
        (ground (arith, new), schemas_from-AllNew trim [] u.schemas, kept.1),
      )

-- Whatever the spec lists, the extra roles have names that are not empty, all different and none the
-- analytics user's, and each role's schemas are not empty and all different.
pub extra_users-AllRoles :
    (trim : String → String) (replica : PostgresPhysicalReplica)
    → AllNew [] (names (extra_users trim replica))
      × AllRoles replica.analytics_username (extra_users trim replica)
unfolding extra_users
extra_users-AllRoles trim replica =
    users_from-AllRoles trim replica.analytics_username [] replica.extra_users
