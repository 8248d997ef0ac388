-- ===== src/Registration/Target.antt =====
-- That a registration goes where canopy authorises it: src/canopy.rs.
use Prim.Native.String
use Prim.Native.String.{String, [], ◌∷◌}
use text.Mathlib.TextLemmas.{nil-append, cons-append, append-nil}
use postgres_restore_operato.Prelude.{
  ◌≡◌, refl, sym, ap, subst, inl, inr, Bool, true, false, ◌||◌, Option, none, some, List, All, ◌==◌,
  if_case, arith, eq_iff, Bool-cases,
}
use postgres_restore_operato.Split.{split}
use postgres_restore_operato.Registration.Segments.{
  is_plain, path_of, segments, split-glue, split-plain, path_of-append, plain-in_path,
  version-plain,
}
use postgres_restore_operato.Effects.{Result}
use postgres_restore_operato.Registration.{
  all_chars, opens_alphanumeric, is_path_safe_version, is_known_rank, run_query, registration_uri,
  Transport, register_reporting_schema,
}

one_rank :
    (rank known : String) (other : Bool)
    → all_chars is_plain known ≡ true
    → (other ≡ true → all_chars is_plain rank ≡ true)
    → ((rank == known) || other) ≡ true
    → all_chars is_plain rank ≡ true
one_rank rank known other plain later h = elim (Bool-cases (rank == known)) [
  | inl same ↦ subst (λ s. all_chars is_plain s ≡ true) (sym ((eq_iff rank known).0 same)) plain
  | inr differs ↦ later (ground (arith, h, differs))
]

last_rank :
    (rank known : String)
    → all_chars is_plain known ≡ true
    → (rank == known) ≡ true
    → all_chars is_plain rank ≡ true
last_rank rank known plain same =
    subst (λ s. all_chars is_plain s ≡ true) (sym ((eq_iff rank known).0 same)) plain

rank-plain : (rank : String) → is_known_rank rank ≡ true → all_chars is_plain rank ≡ true
unfolding is_known_rank all_chars
rank-plain rank = one_rank rank "production" _ refl (
    one_rank rank "clone" _ refl
      (one_rank rank "demo" _ refl (one_rank rank "test" _ refl (last_rank rank "dev" refl))))

-- What a registration for a group, a rank and a version is authorised for.
abbrev pub authorised : String → String → String → List String
authorised group rank version = List.◌∷◌ "" (
    List.◌∷◌ "artifacts" (
      List.◌∷◌ "groups" (
        List.◌∷◌ group (
          List.◌∷◌ rank
            (List.◌∷◌ version (List.◌∷◌ "reporting-schema" (List.◌∷◌ "any" List.[])))))))

between : (w : String) → String.◌++◌ "" (String.◌++◌ w "") ≡ w
between w = rw (nil-append, append-nil) refl

same_authorised :
    {g g' r r' v v' : String} → g ≡ g' → r ≡ r' → v ≡ v' → authorised g r v ≡ authorised g' r' v'
same_authorised g r v = λ i. authorised (g i) (r i) (v i)

path_of-run_query : (run_id : Option String) → path_of (run_query run_id) ≡ ""
unfolding path_of
path_of-run_query none = refl
path_of-run_query (some run) = rw cons-append refl

module _ (group rank version : String) (g : all_chars is_plain group ≡ true)
    (r : all_chars is_plain rank ≡ true) (v : all_chars is_plain version ≡ true) where
  path_of-registration_uri :
      (run_id : Option String)
      → path_of (registration_uri version group rank run_id)
        ≡ String.◌++◌ "/artifacts/groups/" (
            String.◌++◌ group (
              String.◌++◌ "/" (
                String.◌++◌ rank (
                  String.◌++◌ "/" (String.◌++◌ version (String.◌++◌ "/reporting-schema/any" ""))))))
  unfolding registration_uri all_chars
  path_of-registration_uri run_id =
      rw
        (
          path_of-append "/artifacts/groups/" _ refl,
          path_of-append group _ (plain-in_path group g),
          path_of-append "/" _ refl,
          path_of-append rank _ (plain-in_path rank r),
          path_of-append "/" _ refl,
          path_of-append version _ (plain-in_path version v),
          path_of-append "/reporting-schema/any" _ refl,
          path_of-run_query run_id,
        )
        refl

  segments-registration_uri :
      (run_id : Option String)
      → segments (path_of (registration_uri version group rank run_id))
        ≡ authorised group rank version
  unfolding split
  segments-registration_uri run_id =
      rw
        (
          path_of-registration_uri run_id,
          split-glue 47 "/artifacts/groups/" _,
          split-glue 47 group _,
          split-glue 47 "/" _,
          split-glue 47 rank _,
          split-glue 47 "/" _,
          split-glue 47 version _,
          split-glue 47 "/reporting-schema/any" _,
          split-plain group g,
          split-plain rank r,
          split-plain version v,
        )
        (same_authorised (between group) (between rank) (between version))

-- A URI whose path is the one that canopy authorises for the group, the rank and the version.
abbrev pub IsTarget : String → String → String → String → Type 0
IsTarget group rank version uri = segments (path_of uri) ≡ authorised group rank version

-- A segment that a router resolves away.
abbrev pub is_dot_segment : String → Bool
is_dot_segment s = (s == ".") || (s == "..")

differs-opening :
    (s w : String) → opens_alphanumeric s ≡ true → opens_alphanumeric w ≡ false → (s == w) ≡ false
differs-opening s w h k = elim (Bool-cases (s == w)) [
  | inl same ↦ ground (arith, h, k, ap opens_alphanumeric ((eq_iff s w).0 same))
  | inr differs ↦ differs
]

opens-dot_segment : (s : String) → opens_alphanumeric s ≡ true → is_dot_segment s ≡ false
opens-dot_segment s h = rw (differs-opening s "." h refl, differs-opening s ".." h refl) refl

-- Whatever the version, the rank and the run are, each request that registers a schema for a group whose text
-- holds no `/`, `?`, `#` or `%` has exactly the path that canopy authorises for that group, and no
-- version that is a dot segment.
pub register_reporting_schema-IsTarget :
    (transport : Transport) (version group rank : String) (run_id : Option String) (sql : String)
    → all_chars is_plain group ≡ true
    → All
        (λ uri. IsTarget group rank version uri × (is_dot_segment version ≡ false))
        (register_reporting_schema transport version group rank run_id sql).0
unfolding register_reporting_schema is_path_safe_version
register_reporting_schema-IsTarget transport version group rank run_id sql g =
    let P : String → Type 0 =
      λ uri. IsTarget group rank version uri × (is_dot_segment version ≡ false) in
    if_case (λ (r : List String × Result (Option String)). All P r.0) (is_path_safe_version version)
      _ _
      (λ safe.
        if_case (λ (r : List String × Result (Option String)). All P r.0) (is_known_rank rank) _ _
          (λ known. (
            (
              segments-registration_uri group rank version g (rank-plain rank known)
                  (version-plain version (ground (arith, safe))) run_id,
              opens-dot_segment version (ground (arith, safe)),
            ),
            tt,
          ))
          (λ unknown. tt))
      (λ unsafe. tt)
