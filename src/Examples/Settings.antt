-- ===== src/Examples/Settings.antt =====
-- The settings, a Secret, a registration, a batch, a cache under pressure and resources at concrete inputs:
-- src/bin/operator.rs, src/kopia.rs, src/canopy.rs, src/controllers/restore/migration.rs and
-- src/controllers/restore.rs and src/quantity.rs.
use Prim.Native.String.{◌∷◌}
use postgres_restore_operato.Prelude.{
  ℕ, zero, suc, ◌-◌, max, if◌then◌else◌, ◌*◌, ◌/◌, ◌≡◌, refl, ap, pos, String, true, false, Option,
  none, some, List, All, ltb, arith,
}
use postgres_restore_operato.Json.{Json, number, text, object, end, field}
use postgres_restore_operato.Effects.{Error, ok, err}
use postgres_restore_operato.Types.{Quantity}
use postgres_restore_operato.Slug.{text_length}
use postgres_restore_operato.Examples.Replicas.{switching}
use postgres_restore_operato.Restore.Batch.{Batch, Readers, read_result}
use postgres_restore_operato.Restore.Measured.{Told, read_result-Told}
use postgres_restore_operato.Restore.Cache.{Decimals, kopia_cache_pvc_max, kopia_cache_pvc_size}
use postgres_restore_operato.Restore.Cache.Pressure.{IsOrdered, Within, pressures, pressures-Within}
use postgres_restore_operato.Registration.{Transport, all_chars, register_reporting_schema}
use postgres_restore_operato.Registration.Target.{
  IsTarget, is_dot_segment, register_reporting_schema-IsTarget,
}
use postgres_restore_operato.Kopia.Secret.{KopiaSecret, validate_kopia_secret}
use postgres_restore_operato.Kopia.Secret.Connects.{Taken, validate_kopia_secret-Taken}
use postgres_restore_operato.Labels.{label}
use postgres_restore_operato.Intent.Resources.{ResourceRequirements}
use postgres_restore_operato.Sizing.{
  Floats, derived_memory, resolve_postgres_resources, compute_shm_and_shared_buffers,
}
use postgres_restore_operato.Sizing.Memory
use postgres_restore_operato.Sizing.Memory.{
  resolve_postgres_resources-Resolved, compute_shm_and_shared_buffers-Fits, Resolved, Between, Fits,
  request_of,
}
use postgres_restore_operato.Config.{Event, applied, deleted, read_config}
use postgres_restore_operato.Config.Reload.{handle_all, last_config, handle_all-read_config}

abbrev readers : Readers
readers = record {
  as_i64 = λ s. some (pos 1500);
  parse = λ s. none;
  lines = λ s. List.◌∷◌ s List.[];
  trim = λ s. s;
  trim_start = λ s. s;
}

abbrev stats : Json
stats = object (
    field "durationMsPerMigration" (object (field "1-add.js" (number "1500") end))
      (field "failedMigration" (text "2-drop.js") end))

abbrev batch : Batch
batch = record {
  applied = List.◌∷◌ "1-add.js" List.[];
  batch_duration_ms = none;
  stats = some stats;
}

read_result-Told_example :
    Told switching
      (some batch)
      (pos 7)
      true
      (read_result readers (some "Error: lost") (ok (pos 7)) (ok (some batch)) true)
read_result-Told_example =
    read_result-Told readers switching (some "Error: lost") (pos 7) (some batch) true

abbrev transport : Transport
transport = record { call = λ uri sql. ok (201, "{}"); artifact_id = λ body. none }

register_reporting_schema-IsTarget_example :
    All
      (λ uri. IsTarget "a1-b2" "production" "2.41.0" uri × (is_dot_segment "2.41.0" ≡ false))
      (register_reporting_schema transport "2.41.0" "a1-b2" "production" (some "r-1") "CREATE").0
unfolding all_chars
register_reporting_schema-IsTarget_example =
    register_reporting_schema-IsTarget transport "2.41.0" "a1-b2" "production" (some "r-1") "CREATE"
      refl

abbrev a_secret : KopiaSecret
a_secret = record {
  name = some "kopia";
  entries = some (
      List.◌∷◌ ("bucket", some "b")
        (List.◌∷◌ ("region", some "r")
          (List.◌∷◌ ("accessKeyId", some "k")
            (List.◌∷◌ ("secretAccessKey", some "s")
              (List.◌∷◌ ("repositoryPassword", some "p")
                (List.◌∷◌ ("disableTls", some "true") List.[]))))));
}

validate_kopia_secret-Taken_example : Taken a_secret.entries (validate_kopia_secret a_secret)
validate_kopia_secret-Taken_example = validate_kopia_secret-Taken a_secret

abbrev some_events : List Event
some_events =
    List.◌∷◌ deleted (List.◌∷◌ (applied (List.◌∷◌ ("usePortForward", "true") List.[])) List.[])

abbrev no_numbers : String → Option ℕ
no_numbers s = none

abbrev untrimmed : String → String
untrimmed s = s

handle_all-read_config_example :
    handle_all no_numbers untrimmed (read_config no_numbers untrimmed (err Error.kube)) some_events
    ≡ read_config no_numbers untrimmed (last_config (err Error.kube) some_events)
handle_all-read_config_example =
    handle_all-read_config no_numbers untrimmed some_events (err Error.kube)

-- Sizes in Gi, written as so many strokes.
unfoldable strokes : ℕ → Quantity
strokes zero = ""
strokes (suc n) = "|" ∷ strokes n

length-strokes : (n : ℕ) → text_length (strokes n) ≡ n
unfolding strokes text_length
length-strokes zero = refl
length-strokes (suc n) = ap suc (length-strokes n)

abbrev gigabytes : Decimals ℕ
gigabytes = record {
  parse = λ q. some (text_length q);
  print = strokes;
  less = ltb;
  zero = 0;
  ten_gi = 10;
  fifth = λ n. n / 5;
  doubled = λ n. 2 * n;
  grown = λ n. 115 * n / 100;
}

gigabytes-IsOrdered : IsOrdered gigabytes
gigabytes-IsOrdered = record {
  parse-print = λ d. ap some (length-strokes d);
  less_asymmetric = λ a b h. ground (arith, h);
  less_irreflexive = λ a. ground arith;
  not_less_trans = λ a b c h k. ground (arith, h, k);
}

pressures-Within_example : Within gigabytes 18 20 (
    gigabytes.parse (
      pressures gigabytes switching
        (strokes 18)
        (List.◌∷◌ true (List.◌∷◌ false (List.◌∷◌ true List.[])))))
unfolding kopia_cache_pvc_max kopia_cache_pvc_size strokes text_length
pressures-Within_example =
    pressures-Within gigabytes gigabytes-IsOrdered switching 18 20 refl
      (List.◌∷◌ true (List.◌∷◌ false (List.◌∷◌ true List.[]))) (strokes 18) refl

-- Sizes in Mi, written as so many strokes.
abbrev megabytes : Floats ℕ
megabytes = record {
  parse = λ q. some (some (text_length q));
  less = ltb;
  min = λ a b. if ltb b a then b else a;
  max = λ a b. if ltb a b then b else a;
  tenth = λ n. n / 10;
  thirty_six_percent = λ n. 36 * n / 100;
  half = λ n. n / 2;
  mib = λ n. n;
  to_quantity = strokes;
  from_mib = strokes;
  seven_tenths = λ n. n - 3 * n / 10;
}

megabytes-IsOrdered : Memory.IsOrdered megabytes
megabytes-IsOrdered = record {
  less_irreflexive = λ a. ground arith;
  min_left = λ a b. ground arith;
  min_right = λ a b. ground arith;
  mib_monotone = λ a b h. ground (arith, h);
}

abbrev a_floor : ResourceRequirements
a_floor = record {
  requests = some (List.◌∷◌ ("cpu", "250m") List.[]);
  limits = some (List.◌∷◌ ("cpu", "2") (List.◌∷◌ ("memory", "||||") List.[]));
}

resolve_postgres_resources-Resolved_example :
    let memory = derived_memory megabytes 80 4 6 in
    Resolved
      (strokes memory)
      a_floor
      (resolve_postgres_resources megabytes none (some a_floor) (some "||||||") (strokes 80))
    × Between megabytes (megabytes.min 4 6) 6 memory
unfolding text_length strokes label
resolve_postgres_resources-Resolved_example =
    resolve_postgres_resources-Resolved megabytes megabytes-IsOrdered a_floor (some "||||||")
      (strokes 80) 80 4 6 refl refl refl

compute_shm_and_shared_buffers-Fits_example :
    Fits megabytes
      (max (megabytes.mib (megabytes.half 4)) 16)
      (request_of megabytes 1024 (some a_floor))
      (compute_shm_and_shared_buffers megabytes 1024 (some a_floor))
unfolding text_length label
compute_shm_and_shared_buffers-Fits_example =
    compute_shm_and_shared_buffers-Fits megabytes megabytes-IsOrdered 1024 4 (some a_floor) refl
