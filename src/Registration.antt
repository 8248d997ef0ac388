-- ===== src/Registration.antt =====
-- The registration of a reporting schema with canopy: `register_reporting_schema` of src/canopy.rs. A uuid is its
-- text; the transport and the reader of canopy's answer are arguments.
pub mod Segments
pub mod Target
use Prim.Native.Char.{Char, code}
use Prim.Native.String
use Prim.Native.String.{String, [], ◌∷◌}
use postgres_restore_operato.Prelude.{
  ℕ, Bool, true, false, ◌&&◌, ◌||◌, Option, none, some, List, leb, ltb, eqb, ◌==◌, if◌then◌else◌,
}
use postgres_restore_operato.Slug.{is_ascii_alphanumeric}
use postgres_restore_operato.Effects.{Error, Result, ok, err}

-- `str::chars` and `all`.
unfoldable pub all_chars : (Char → Bool) → String → Bool
all_chars f [] = true
all_chars f (c ∷ s) = f c && all_chars f s

-- An alphanumeric, or one of `.`, `+` and `-`.
abbrev pub is_version_char : Char → Bool
is_version_char c =
    is_ascii_alphanumeric c || (eqb (code c) 46 || (eqb (code c) 43 || eqb (code c) 45))

abbrev pub opens_alphanumeric : String → Bool
opens_alphanumeric [] = false
opens_alphanumeric (c ∷ s) = is_ascii_alphanumeric c

unfoldable pub is_path_safe_version : String → Bool
is_path_safe_version version = opens_alphanumeric version && all_chars is_version_char version

unfoldable pub is_known_rank : String → Bool
is_known_rank rank =
    (rank == "production")
    || ((rank == "clone") || ((rank == "demo") || ((rank == "test") || (rank == "dev"))))

abbrev pub run_query : Option String → String
run_query none = ""
run_query (some run) = String.◌++◌ "?run=" run

unfoldable pub registration_uri : String → String → String → Option String → String
registration_uri version group rank run_id = String.◌++◌ "/artifacts/groups/" (
    String.◌++◌ group (
      String.◌++◌ "/" (
        String.◌++◌ rank (
          String.◌++◌ "/"
            (String.◌++◌ version (String.◌++◌ "/reporting-schema/any" (run_query run_id)))))))

-- What canopy answers to a POST to a URI: the status and the body.
pub record Transport : Type 0 where
  pub call : String → String → Result (ℕ × String)
  -- The `id` in the body, if it reads.
  pub artifact_id : String → Option String

abbrev registered : Transport → Result (ℕ × String) → Result (Option String)
registered transport (err e) = err (Error.canopy "register_reporting_schema failed")
registered transport (ok (status, body)) =
    if leb 200 status && ltb status 300
    then ok (transport.artifact_id body)
    else err (Error.canopy "register_reporting_schema was refused")

-- The URIs that are asked for, and the id of the artifact where the answer carries one.
unfoldable pub register_reporting_schema :
    Transport
    → String
    → String
    → String
    → Option String
    → String
    → List String × Result (Option String)
register_reporting_schema transport version group rank run_id sql =
    if is_path_safe_version version
    then (if is_known_rank rank
        then (
          List.◌∷◌ (registration_uri version group rank run_id) List.[],
          registered transport (transport.call (registration_uri version group rank run_id) sql),
        )
        else (List.[], err (Error.canopy "not an environment a schema can be registered against")))
    else (List.[], err (Error.canopy "not a version a schema can be registered against"))
