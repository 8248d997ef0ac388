-- ===== src/Kopia/Secret.antt =====
-- The credentials of a kopia repository: `validate_kopia_secret` of src/kopia.rs, and `kopia_source` of
-- src/types/replica.rs. A value of a Secret that is not UTF-8 is `none`.
pub mod Connects
use Prim.Native.String
use postgres_restore_operato.Prelude.{
  String, Bool, true, false, Option, none, some, List, [], ◌∷◌, ◌++◌, ◌==◌, if◌then◌else◌, is_some,
}
use postgres_restore_operato.Types.{CanopySource, PostgresPhysicalReplica}
use postgres_restore_operato.Effects.{Error, Result, ok, err}

abbrev pub Data : Type 0
Data = List (String × Option String)

pub record KopiaSecret : Type 0 where
  pub name : Option String
  pub entries : Option Data

pub record KopiaCredentials : Type 0 where
  pub bucket : String
  pub region : String
  pub access_key_id : String
  pub secret_access_key : String
  pub repository_password : String
  pub endpoint : Option String
  pub disable_tls : Bool

abbrev pub required_keys : List String
required_keys = "bucket" ∷ "region" ∷ "accessKeyId" ∷ "secretAccessKey" ∷ "repositoryPassword" ∷ []

-- `entries.get(key)`.
unfoldable pub value_at : String → Data → Option (Option String)
value_at key [] = none
value_at key ((k, v) ∷ entries) =
    let rest = value_at key entries in if k == key then some v else rest

-- The first of the keys that is missing.
unfoldable pub missing_key : List String → Data → Option String
unfolding value_at
missing_key [] entries = none
missing_key (key ∷ keys) entries =
    let rest = missing_key keys entries in if is_some (value_at key entries) then rest else some key

abbrev name_or_unnamed : Option String → String
name_or_unnamed none = "<unnamed>"
name_or_unnamed (some name) = name

abbrev not_utf8 : String → String → Error
not_utf8 secret_name key =
    Error.invalid_kopia_secret secret_name
      (String.◌++◌ "key " (String.◌++◌ key " is not valid UTF-8"))

-- A key that may be missing.
abbrev pub optional_string : String → String → Option (Option String) → Result (Option String)
optional_string secret_name key none = ok none
optional_string secret_name key (some none) = err (not_utf8 secret_name key)
optional_string secret_name key (some (some s)) = ok (some s)

-- The source indexes the entries, whose keys it has looked for.
abbrev pub get_string : String → String → Option (Option String) → Result String
get_string secret_name key (some (some s)) = ok s
get_string secret_name key (some none) = err (not_utf8 secret_name key)
get_string secret_name key none =
    err (Error.invalid_kopia_secret secret_name (String.◌++◌ "missing key: " key))

abbrev pub is_true : Option String → Bool
is_true none = false
is_true (some v) = v == "true"

-- `?`.
abbrev pub and_ok : {A B : Type 0} → Result A → (A → Result B) → Result B
and_ok (err e) f = err e
and_ok (ok a) f = f a

abbrev pub credentials_in : String → Data → Result KopiaCredentials
credentials_in secret_name entries =
    and_ok (optional_string secret_name "endpoint" (value_at "endpoint" entries)) λ endpoint.
      and_ok (optional_string secret_name "disableTls" (value_at "disableTls" entries))
        λ disable_tls.
          and_ok (get_string secret_name "bucket" (value_at "bucket" entries)) λ bucket.
            and_ok (get_string secret_name "region" (value_at "region" entries)) λ region.
              and_ok (get_string secret_name "accessKeyId" (value_at "accessKeyId" entries))
                λ access_key_id.
                  and_ok
                    (get_string secret_name "secretAccessKey" (value_at "secretAccessKey" entries))
                    λ secret_access_key.
                      and_ok
                        (get_string secret_name "repositoryPassword"
                          (value_at "repositoryPassword" entries))
                        λ repository_password. ok (record {
                          bucket = bucket;
                          region = region;
                          access_key_id = access_key_id;
                          secret_access_key = secret_access_key;
                          repository_password = repository_password;
                          endpoint = endpoint;
                          disable_tls = is_true disable_tls;
                        })

abbrev pub credentials_unless : String → Data → Option String → Result KopiaCredentials
credentials_unless secret_name entries (some key) =
    err (Error.invalid_kopia_secret secret_name (String.◌++◌ "missing key: " key))
credentials_unless secret_name entries none = credentials_in secret_name entries

abbrev pub credentials_of : String → Option Data → Result KopiaCredentials
credentials_of secret_name none =
    err (Error.invalid_kopia_secret secret_name "secret has no entries")
credentials_of secret_name (some entries) =
    credentials_unless secret_name entries (missing_key required_keys entries)

unfoldable pub validate_kopia_secret : KopiaSecret → Result KopiaCredentials
unfolding missing_key
validate_kopia_secret secret = credentials_of (name_or_unnamed secret.name) secret.entries

-- Where kopia runs from: a Secret with real keys, or the proxy, with the name of the Secret, the group
-- and the type of the backup.
pub data KopiaSource : Type 0 where
  secret : String → KopiaSource
  canopy_proxy : String → String → String → KopiaSource

unfoldable pub secret_name : KopiaSource → String
secret_name (secret name) = name
secret_name (canopy_proxy name group backup_type) = name

unfoldable pub is_canopy_proxy : KopiaSource → Bool
is_canopy_proxy (secret name) = false
is_canopy_proxy (canopy_proxy name group backup_type) = true

abbrev secret_source : Option (Option String) → Option KopiaSource
secret_source (some (some name)) = some (secret name)
secret_source (some none) = none
secret_source none = none

abbrev source_of : String → Option CanopySource → Option (Option String) → Option KopiaSource
source_of name (some canopy) kopia_secret_ref =
    some (canopy_proxy (String.◌++◌ name "-canopy-creds") canopy.group canopy.backup_type)
source_of name none kopia_secret_ref = secret_source kopia_secret_ref

-- `none` is the panic of `expect`.
unfoldable pub kopia_source : PostgresPhysicalReplica → Option KopiaSource
kopia_source replica = source_of replica.name replica.canopy_source replica.kopia_secret_ref
