-- ===== src/Kopia/Secret/Connects.antt =====
-- What a Secret is taken for: `validate_kopia_secret` of src/kopia.rs.
use mathlib.Core.Option
use postgres_restore_operato.Prelude.{
  ◌≡◌, refl, sym, ap, ◌∙◌, String, Bool, true, false, ◌&&◌, Option, none, some, ◌==◌, arith,
}
use postgres_restore_operato.Effects.{Error, Result, ok, err}
use postgres_restore_operato.Kopia.Secret.{
  Data, KopiaSecret, KopiaCredentials, required_keys, value_at, missing_key, optional_string,
  get_string, is_true, and_ok, credentials_in, credentials_unless, credentials_of,
  validate_kopia_secret,
}

-- A key with a text, and a key that is missing or has a text.
abbrev is_text : Option (Option String) → Bool
is_text none = false
is_text (some none) = false
is_text (some (some s)) = true

abbrev is_readable : Option (Option String) → Bool
is_readable none = true
is_readable (some none) = false
is_readable (some (some s)) = true

-- Whether a Secret has all that kopia needs.
abbrev pub is_complete : Option Data → Bool
is_complete none = false
is_complete (some entries) =
    is_text (value_at "bucket" entries)
    && (is_text (value_at "region" entries)
        && (is_text (value_at "accessKeyId" entries)
            && (is_text (value_at "secretAccessKey" entries)
                && (is_text (value_at "repositoryPassword" entries)
                    && (is_readable (value_at "endpoint" entries)
                        && is_readable (value_at "disableTls" entries))))))

abbrev text_of : Option (Option String) → Option String
text_of none = none
text_of (some none) = none
text_of (some (some s)) = some s

abbrev pub text_at : String → Option Data → Option String
text_at key none = none
text_at key (some entries) = text_of (value_at key entries)

-- Whether a text is there and reads `true`.
abbrev pub says_true : Option String → Bool
says_true none = false
says_true (some v) = v == "true"

-- What a Secret is taken for.
abbrev pub Taken : Option Data → Result KopiaCredentials → Type 0
Taken entries (err e) = is_complete entries ≡ false
Taken entries (ok creds) =
    (is_complete entries ≡ true)
    × (text_at "bucket" entries ≡ some creds.bucket)
    × (text_at "region" entries ≡ some creds.region)
    × (text_at "accessKeyId" entries ≡ some creds.access_key_id)
    × (text_at "secretAccessKey" entries ≡ some creds.secret_access_key)
    × (text_at "repositoryPassword" entries ≡ some creds.repository_password)
    × (text_at "endpoint" entries ≡ creds.endpoint)
    × (creds.disable_tls ≡ says_true (text_at "disableTls" entries))

is_true_text : (v : Option String) → is_true v ≡ says_true v
is_true_text none = refl
is_true_text (some v) = refl

-- The two ways in which a step can go.
and_ok_case :
    {A B : Type 0} (P : Result B → Type 0) (r : Result A) (f : A → Result B)
    → ((e : Error) → r ≡ err e → P (err e))
    → ((a : A) → r ≡ ok a → P (f a))
    → P (and_ok r f)
and_ok_case P (err e) f bad good = bad e refl
and_ok_case P (ok a) f bad good = good a refl

get_string-ok :
    (name key s : String) (v : Option (Option String))
    → get_string name key v ≡ ok s
    → v ≡ some (some s)
get_string-ok name key s none h = cc
get_string-ok name key s (some none) h = cc
get_string-ok name key s (some (some t)) h = cc

get_string-err :
    (name key : String) (e : Error) (v : Option (Option String))
    → get_string name key v ≡ err e
    → is_text v ≡ false
get_string-err name key e none h = refl
get_string-err name key e (some none) h = refl
get_string-err name key e (some (some t)) h = cc

optional-ok :
    (name key : String) (o : Option String) (v : Option (Option String))
    → optional_string name key v ≡ ok o
    → v ≡ Option.map some o
optional-ok name key none none h = refl
optional-ok name key (some s) none h = cc
optional-ok name key o (some none) h = cc
optional-ok name key none (some (some t)) h = cc
optional-ok name key (some s) (some (some t)) h = cc

optional-err :
    (name key : String) (e : Error) (v : Option (Option String))
    → optional_string name key v ≡ err e
    → is_readable v ≡ false
optional-err name key e none h = cc
optional-err name key e (some none) h = refl
optional-err name key e (some (some t)) h = cc

optional_read :
    (o : Option String) (v : Option (Option String))
    → v ≡ Option.map some o
    → (is_readable v ≡ true) × (text_of v ≡ o)
optional_read none v h = (rw h refl, rw h refl)
optional_read (some s) v h = (rw h refl, rw h refl)

required_read :
    (s : String) (v : Option (Option String))
    → v ≡ some (some s)
    → (is_text v ≡ true) × (text_of v ≡ some s)
required_read s v h = (rw h refl, rw h refl)

module _ (name : String) (entries : Data) where
  required_case :
      {A : Type 0} (P : Result A → Type 0) (key : String) (f : String → Result A)
      → ((e : Error) → is_text (value_at key entries) ≡ false → P (err e))
      → ((s : String) → value_at key entries ≡ some (some s) → P (f s))
      → P (and_ok (get_string name key (value_at key entries)) f)
  required_case P key f bad good =
      and_ok_case P (get_string name key (value_at key entries)) f
        (λ e h. bad e (get_string-err name key e (value_at key entries) h))
        (λ s h. good s (get_string-ok name key s (value_at key entries) h))

  optional_case :
      {A : Type 0} (P : Result A → Type 0) (key : String) (f : Option String → Result A)
      → ((e : Error) → is_readable (value_at key entries) ≡ false → P (err e))
      → ((o : Option String) → value_at key entries ≡ Option.map some o → P (f o))
      → P (and_ok (optional_string name key (value_at key entries)) f)
  optional_case P key f bad good =
      and_ok_case P (optional_string name key (value_at key entries)) f
        (λ e h. bad e (optional-err name key e (value_at key entries) h))
        (λ o h. good o (optional-ok name key o (value_at key entries) h))

  credentials_in-Taken : Taken (some entries) (credentials_in name entries)
  credentials_in-Taken =
      let P = Taken (some entries) in
      optional_case P "endpoint" _ (λ e bad. ground (arith, bad))
        λ endpoint h₁.
          optional_case P "disableTls" _ (λ e bad. ground (arith, bad))
            λ disable_tls h₂.
              required_case P "bucket" _ (λ e bad. ground (arith, bad))
                λ bucket h₃.
                  required_case P "region" _ (λ e bad. ground (arith, bad))
                    λ region h₄.
                      required_case P "accessKeyId" _ (λ e bad. ground (arith, bad))
                        λ access_key_id h₅.
                          required_case P "secretAccessKey" _ (λ e bad. ground (arith, bad))
                            λ secret_access_key h₆.
                              required_case P "repositoryPassword" _ (λ e bad. ground (arith, bad))
                                λ repository_password h₇.
                                  let (e, e') =
                                    optional_read endpoint (value_at "endpoint" entries) h₁ in
                                  let (d, d') =
                                    optional_read disable_tls (value_at "disableTls" entries) h₂ in
                                  let (b, b') =
                                    required_read bucket (value_at "bucket" entries) h₃ in
                                  let (r, r') =
                                    required_read region (value_at "region" entries) h₄ in
                                  let (a, a') =
                                    required_read access_key_id (value_at "accessKeyId" entries)
                                      h₅ in
                                  let (k, k') =
                                    required_read secret_access_key
                                      (value_at "secretAccessKey" entries) h₆ in
                                  let (p, p') =
                                    required_read repository_password
                                      (value_at "repositoryPassword" entries) h₇ in
                                  (
                                    ground (arith, e, d, b, r, a, k, p),
                                    b',
                                    r',
                                    a',
                                    k',
                                    p',
                                    e',
                                    is_true_text disable_tls ∙ ap says_true (sym d'),
                                  )

missing-incomplete :
    (entries : Data) (key : String)
    → missing_key required_keys entries ≡ some key
    → is_complete (some entries) ≡ false
unfolding missing_key
missing-incomplete entries key h = ground (arith, h)

credentials_unless-Taken :
    (name : String) (entries : Data) (missing : Option String)
    → missing_key required_keys entries ≡ missing
    → Taken (some entries) (credentials_unless name entries missing)
credentials_unless-Taken name entries (some key) h = missing-incomplete entries key h
credentials_unless-Taken name entries none h = credentials_in-Taken name entries

credentials_of-Taken :
    (name : String) (entries : Option Data) → Taken entries (credentials_of name entries)
credentials_of-Taken name none = refl
credentials_of-Taken name (some entries) =
    credentials_unless-Taken name entries (missing_key required_keys entries) refl

-- A Secret is refused where it has no data, lacks a required key or holds a value that is not UTF-8 at a key
-- that is read, and only there. Otherwise each of the credentials is the text that the Secret holds at its key,
-- and TLS is disabled exactly where the Secret's `disableTls` is `true`.
pub validate_kopia_secret-Taken :
    (secret : KopiaSecret) → Taken secret.entries (validate_kopia_secret secret)
unfolding validate_kopia_secret
validate_kopia_secret-Taken secret = credentials_of-Taken _ secret.entries
