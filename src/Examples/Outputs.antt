-- ===== src/Examples/Outputs.antt =====
-- The output of Jobs at concrete inputs: the list of snapshots of src/kopia.rs, a log of
-- src/controllers/jobs.rs, and the size of a volume of src/controllers/replica/resources.rs.
use Prim.Native.String
use Prim.Native.String.{◌∷◌}
use postgres_restore_operato.Prelude.{ℕ, zero, suc, ◌≤◌, List, none, some, true}
use postgres_restore_operato.Storage.{Fits, compute_storage_size, compute_storage_size-Fits}
use postgres_restore_operato.Jobs.Log.{bytes, log_tail}
use postgres_restore_operato.Jobs.Log.Headline.{headline_in, HeldIn, log_tail-AtMost}

abbrev as_is : String.String → String.String
as_is s = s

abbrev statements : ℕ → List String.String
statements zero = List.[]
statements (suc n) = List.◌∷◌ "select 1" (statements n)

-- An error, and then a statement of forty lines.
abbrev error_first : String.String → List String.String
error_first log = List.◌∷◌ log (statements 40)

log_tail-AtMost_example :
    (bytes (log_tail error_first as_is as_is "Error: no such table") ≤ 2000)
    × HeldIn
        (headline_in error_first as_is as_is "Error: no such table")
        (log_tail error_first as_is as_is "Error: no such table")
log_tail-AtMost_example = log_tail-AtMost error_first as_is as_is "Error: no such table"

compute_storage_size-Fits_example :
    Fits 1000000000
      (some 21474836480)
      none
      true
      (some 7000000000)
      (compute_storage_size 1000000000 (some 21474836480) none true (some 7000000000))
compute_storage_size-Fits_example =
    compute_storage_size-Fits 1000000000 (some 21474836480) none true (some 7000000000)
