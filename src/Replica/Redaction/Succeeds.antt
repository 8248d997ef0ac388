-- ===== src/Replica/Redaction/Succeeds.antt =====
-- What a redaction needs of the manifest's host, the database and the cluster to succeed:
-- `reconcile_redaction` of src/controllers/replica/redaction.rs against a description of its own.
use postgres_restore_operato.Prelude.{
  ◌≡◌, refl, sym, ◌∙◌, String, Bool, true, false, not, ◌&&◌, ◌||◌, Option, none, some, List, [],
  ◌∷◌, ltb, leb, eqb, is_some, is_none, text_contains, arith, if◌then◌else◌, Bool-cases, inl, inr,
}
use postgres_restore_operato.Types.{RedactionPhase, is_done, RedactionSpec, PostgresPhysicalReplica}
use postgres_restore_operato.Effects.{
  Error, Result, ok, err, Call, M, ◌>>=◌, pure, answer, cases, when, try, outcome,
}
use postgres_restore_operato.Replica.{ReplicaApi, Outcome, Response}
use postgres_restore_operato.Replica.Redaction.{
  version_placeholder, should_enforce_read_only, validate_spec, first_value, resolve_by_query,
  resolve_version, resolve_url, fallback_version, parse_body, fetch_manifest, reconcile_redaction,
  has_phase_done,
}

-- The replica's redaction phase says that a redaction ended.
abbrev pub is_redacted : Option RedactionPhase → Bool
is_redacted (some RedactionPhase.complete) = true
is_redacted (some RedactionPhase.partial) = true
is_redacted _ = false

-- The two answers in their order: the second is asked for only after the first is there.
abbrev then_ok : {A B : Type 0} → Result A → (A → Result B) → Result B
then_ok (ok a) f = f a
then_ok (err e) f = err e

abbrev ok_and : {A : Type 0} → Result A → (A → Bool) → Bool
ok_and (ok a) p = p a
ok_and (err e) p = false

-- A version comes from one place at most, and from one exactly where the URL has a place for it.
abbrev is_consistent : RedactionSpec → Bool
is_consistent spec =
    not (is_some spec.version && is_some spec.version_query)
    && ((text_contains spec.manifest_url version_placeholder
          && (is_some spec.version || is_some spec.version_query))
        || (not (text_contains spec.manifest_url version_placeholder)
            && not (is_some spec.version || is_some spec.version_query)))

-- The first value of the first row.
abbrev top_value : List (Option String) → Result (Option String)
top_value (some v ∷ rows) = ok (some v)
top_value (none ∷ rows) = err (Error.redaction "versionQuery returned no columns")
top_value [] = err (Error.redaction "versionQuery returned no rows")

abbrev asked_version :
    ReplicaApi → String → String → Option String → Option String → Result (Option String)
asked_version api name dbname (some v) query = ok (some v)
asked_version api name dbname none none = ok none
asked_version api name dbname none (some query) =
    then_ok (api.databases.simple_query name dbname query) top_value

abbrev url_of : ReplicaApi → RedactionSpec → Option String → String
url_of api spec none = spec.manifest_url
url_of api spec (some v) = api.manifests.replace_version spec.manifest_url v

-- A manifest is read from an answer whose status is not an error.
abbrev read_from : ReplicaApi → Response → Result String
read_from api response =
    if leb 400 response.status
    then err Error.http
    else then_ok response.text api.manifests.parse_manifest

abbrev base_of : ReplicaApi → Option String → Option String
base_of api none = none
base_of api (some v) = api.manifests.base_version v

-- A missing manifest is looked for once more, under the base version, where the spec says so.
abbrev second_try : ReplicaApi → RedactionSpec → Response → Option String → Result String
second_try api spec response none = read_from api response
second_try api spec response (some base) =
    then_ok (api.manifests.send (api.manifests.replace_version spec.manifest_url base))
      (read_from api)

abbrev manifest_for : ReplicaApi → RedactionSpec → Option String → Result String
manifest_for api spec version = then_ok (api.manifests.send (url_of api spec version)) λ response.
    if eqb response.status 404 && spec.version_fallback_to_base
    then second_try api spec response (base_of api version)
    else read_from api response

-- The whole of a redaction: the spec is consistent, the database opens, the version and the manifest are
-- there, the manifest is applied, and the database is made read-only again where the replica wants it.
unfoldable pub run_succeeds : ReplicaApi → PostgresPhysicalReplica → RedactionSpec → String → Bool
run_succeeds api replica spec name =
    is_consistent spec
    && ok_and api.databases.credentials λ _. ok_and (api.databases.discover name) λ dbname.
      ok_and (api.databases.connects name dbname) λ _.
        ok_and (asked_version api name dbname spec.version spec.version_query) λ version.
          ok_and (manifest_for api spec version) λ manifest.
            ok_and (api.manifests.apply name manifest) λ _.
              not (replica.read_only && is_none replica.persistent_schemas)
              || api.accepts (Call.enforce_read_only name)

pub phase_done : (phase : Option RedactionPhase) → has_phase_done phase ≡ is_redacted phase
unfolding is_done
phase_done none = refl
phase_done (some RedactionPhase.active) = refl
phase_done (some RedactionPhase.complete) = refl
phase_done (some RedactionPhase.partial) = refl
phase_done (some (RedactionPhase.failed e)) = refl

run_result :
    {A B : Type 0} (t : List Call) (r : Result A) (f : A → M B)
    → (record { trace = t; result = r } >>= f).result ≡ then_ok r λ a. (f a).result
unfolding ◌>>=◌
run_result t (ok a) f = refl
run_result t (err e) f = refl

bind_result :
    {A B : Type 0} (m : M A) (f : A → M B) → (m >>= f).result ≡ then_ok m.result λ a. (f a).result
unfolding ◌>>=◌
bind_result m f = run_result m.trace m.result f

then_ok_case :
    {A B : Type 0} (r : Result A) (f : A → Result B) (b : B)
    → then_ok r f ≡ ok b
    → (a : A) × (r ≡ ok a) × (f a ≡ ok b)
then_ok_case (ok a) f b h = (a, refl, h)
then_ok_case (err e) f b h = cc

bind-ok :
    {A B : Type 0} (m : M A) (f : A → M B) (b : B)
    → (m >>= f).result ≡ ok b
    → (a : A) × (m.result ≡ ok a) × ((f a).result ≡ ok b)
bind-ok m f b h = then_ok_case m.result (λ a. (f a).result) b (sym (bind_result m f) ∙ h)

then_ok_same :
    {A B : Type 0} (r : Result A) (f g : A → Result B)
    → ((a : A) → f a ≡ g a)
    → then_ok r f ≡ then_ok r g
then_ok_same (ok a) f g h = h a
then_ok_same (err e) f g h = refl

ok_and_intro :
    {A : Type 0} (r : Result A) (p : A → Bool) (a : A) → r ≡ ok a → p a ≡ true → ok_and r p ≡ true
ok_and_intro (ok b) p a h k = ground (arith, h, k)
ok_and_intro (err e) p a h k = cc

both : {a b : Bool} → a ≡ true → b ≡ true → (a && b) ≡ true
both h k = ground (arith, h, k)

consistent : (spec : RedactionSpec) → validate_spec spec ≡ ok tt → is_consistent spec ≡ true
unfolding validate_spec
consistent spec h = ground (arith, h)

module _ (api : ReplicaApi) where
  value_result :
      (rows : Result (List (Option String)))
      → (answer rows >>= λ rows. answer (first_value rows)).result ≡ then_ok rows top_value
  unfolding answer ◌>>=◌
  value_result (err e) = refl
  value_result (ok []) = refl
  value_result (ok (none ∷ rows)) = refl
  value_result (ok (some v ∷ rows)) = refl

  cased_version :
      (name dbname : String) (version query : Option String)
      → (cases version (resolve_by_query api query name dbname) λ v. pure (some v)).result
        ≡ asked_version api name dbname version query
  unfolding cases pure resolve_by_query
  cased_version name dbname (some v) query = refl
  cased_version name dbname none none = refl
  cased_version name dbname none (some query) =
      value_result (api.databases.simple_query name dbname query)

  version_result :
      (spec : RedactionSpec) (name dbname : String)
      → (resolve_version api spec name dbname).result
        ≡ asked_version api name dbname spec.version spec.version_query
  unfolding resolve_version
  version_result spec name dbname = cased_version name dbname spec.version spec.version_query

  body_result :
      (status : Bool) (text : Result String)
      → (answer (elim status [ true ↦ text | false ↦ err Error.http ]) >>= λ body.
          answer (api.manifests.parse_manifest body)).result
        ≡ (if status then then_ok text api.manifests.parse_manifest else err Error.http)
  unfolding answer ◌>>=◌
  body_result true (ok body) = refl
  body_result true (err e) = refl
  body_result false text = refl

  parse_result : (response : Response) → (parse_body api response).result ≡ read_from api response
  unfolding parse_body
  parse_result response =
      body_result (ltb response.status 400) response.text
      ∙ elim (Bool-cases (leb 400 response.status)) [
        | inl bad ↦
            let low : ltb response.status 400 ≡ false = ground (arith, bad) in rw (bad, low) refl
        | inr good ↦
            let low : ltb response.status 400 ≡ true = ground (arith, good) in rw (good, low) refl
      ]

  -- What is read of an answer, where a base version may be fallen back to.
  second_result :
      (spec : RedactionSpec) (response : Response) (falls_back : Bool) (base : Option String)
      → (cases
          (elim falls_back [ true ↦ base | false ↦ none ])
          (parse_body api response)
          λ base.
            answer (api.manifests.send (api.manifests.replace_version spec.manifest_url base))
            >>= parse_body api).result
        ≡ (if falls_back then second_try api spec response base else read_from api response)
  unfolding cases
  second_result spec response false base = parse_result response
  second_result spec response true none = parse_result response
  second_result spec response true (some base) =
      let sent = api.manifests.send (api.manifests.replace_version spec.manifest_url base) in
      unfold answer in
      bind_result (answer sent) (parse_body api) ∙ then_ok_same sent _ _ parse_result

  fetched :
      (spec : RedactionSpec) (version : Option String) (response : Response)
      → (cases (fallback_version api spec version response) (parse_body api response) λ base.
          answer (api.manifests.send (api.manifests.replace_version spec.manifest_url base))
          >>= parse_body api).result
        ≡ (if eqb response.status 404 && spec.version_fallback_to_base
            then second_try api spec response (base_of api version)
            else read_from api response)
  unfolding fallback_version
  fetched spec none response =
      elim (Bool-cases (eqb response.status 404 && spec.version_fallback_to_base)) [
        | inl back ↦ rw back (unfold cases in parse_result response)
        | inr direct ↦ rw direct (unfold cases in parse_result response)
      ]
  fetched spec (some v) response =
      second_result spec response (eqb response.status 404 && spec.version_fallback_to_base)
        (api.manifests.base_version v)

  url_lem :
      (spec : RedactionSpec) (version : Option String)
      → resolve_url api spec version ≡ url_of api spec version
  unfolding resolve_url
  url_lem spec none = refl
  url_lem spec (some v) = refl

  manifest_result :
      (spec : RedactionSpec) (version : Option String)
      → (fetch_manifest api spec version (resolve_url api spec version)).result
        ≡ manifest_for api spec version
  unfolding fetch_manifest answer
  manifest_result spec version = rw (url_lem spec version) (
      bind_result (answer (api.manifests.send (url_of api spec version))) _
      ∙ then_ok_same (api.manifests.send (url_of api spec version)) _ _ (fetched spec version))

  enforced :
      (wanted : Bool) (c : Call)
      → (when wanted (try api.accepts c)).result ≡ ok tt
      → (not wanted || api.accepts c) ≡ true
  unfolding when try outcome
  enforced false c h = refl
  enforced true c h = ground (arith, h)

  pub reconcile_redaction_succeeds :
      (replica : PostgresPhysicalReplica) (spec : RedactionSpec) (name : String)
      (done : Option String × Outcome)
      → (reconcile_redaction api replica spec name).result ≡ ok done
      → run_succeeds api replica spec name ≡ true
  unfolding reconcile_redaction run_succeeds answer should_enforce_read_only
  reconcile_redaction_succeeds replica spec name done h =
      let (a, valid, h₁) = bind-ok _ _ _ h in
      let (b, secret, h₂) = bind-ok _ _ _ h₁ in
      let (dbname, found, h₃) = bind-ok _ _ _ h₂ in
      let (c, connects, h₄) = bind-ok _ _ _ h₃ in
      let (version, resolved, h₅) = bind-ok _ _ _ h₄ in
      let (manifest, fetched, h₆) = bind-ok _ _ _ h₅ in
      let (d, tried, h₇) = bind-ok _ _ _ h₆ in
      let (e, applied, h₈) = bind-ok _ _ _ h₇ in
      let (f, enforces, h₉) = bind-ok _ _ _ h₈ in
      both (consistent spec valid) (
        ok_and_intro _ _ _ secret (
          ok_and_intro _ _ _ found (
            ok_and_intro _ _ _ connects (
              ok_and_intro _ _ _ (sym (version_result spec name dbname) ∙ resolved) (
                ok_and_intro _ _ _ (sym (manifest_result spec version) ∙ fetched)
                  (ok_and_intro _ _ _ applied (enforced _ _ enforces)))))))
