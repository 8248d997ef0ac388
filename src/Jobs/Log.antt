-- ===== src/Jobs/Log.antt =====
-- What is kept of a failed Job's log: `log_tail` of src/controllers/jobs.rs. A text is a list of characters,
-- whose lengths are counted in the bytes of UTF-8. `str::lines`, `str::trim` and `str::trim_start`
-- are arguments.
pub mod Headline
use Prim.Native.Char.{Char, code}
use Prim.Native.String
use Prim.Native.String.{String, [], ◌∷◌}
use text.Mathlib.TextLemmas.{nil-append, cons-append}
use postgres_restore_operato.Prelude.{
  starts_with, starts_with-append, text_contains, ℕ, ◌+◌, ◌-◌, ◌≤◌, ◌≡◌, refl, Bool, true, ◌||◌,
  Option, none, some, List, leb, ltb, if◌then◌else◌, if_case, arith, any, length, zero, suc, ap,
  sym, subst, ◌∙◌,
}
use postgres_restore_operato.Split.{join}

unfoldable len_utf8 : Char → ℕ
len_utf8 c =
    if ltb (code c) 128
    then 1
    else (if ltb (code c) 2048 then 2 else (if ltb (code c) 65536 then 3 else 4))

-- `str::len`.
unfoldable pub bytes : String → ℕ
unfolding len_utf8
bytes [] = 0
bytes (c ∷ s) = len_utf8 c + bytes s

-- The longest prefix of at most so many bytes: up to the last boundary of a character.
unfoldable take_bytes : ℕ → String → String
unfolding len_utf8
take_bytes n [] = ""
take_bytes n (c ∷ s) =
    let rest = take_bytes (n - len_utf8 c) s in if leb (len_utf8 c) n then c ∷ rest else ""

unfoldable pub truncate_to : String → ℕ → String
unfolding take_bytes
truncate_to text max_bytes = if leb (bytes text) max_bytes then text else take_bytes max_bytes text

-- The longest suffix of at most so many bytes: from the first boundary of a character.
unfoldable pub last_bytes : ℕ → String → String
last_bytes n [] = ""
last_bytes n (c ∷ s) = let rest = last_bytes n s in if leb (bytes (c ∷ s)) n then c ∷ s else rest

abbrev markers : List String
markers = List.◌∷◌ "Error:" (
    List.◌∷◌ "ERROR:" (
      List.◌∷◌ "error:" (
        List.◌∷◌ "Error [" (
          List.◌∷◌ "DatabaseError" (
            List.◌∷◌ "SequelizeDatabaseError" (
              List.◌∷◌ "Database Error in" (
                List.◌∷◌ "Compilation Error in"
                  (List.◌∷◌ "Runtime Error in" (List.◌∷◌ "Failure in model" List.[])))))))))

unfoldable pub is_error_headline : (String → String) → String → Bool
is_error_headline trim_start line =
    any
      (λ marker.
        starts_with (trim_start line) marker
        || text_contains (trim_start line) (String.◌++◌ " " marker))
      markers

abbrev drop : ℕ → List String → List String
drop zero lines = lines
drop (suc n) List.[] = List.[]
drop (suc n) (List.◌∷◌ line lines) = drop n lines

abbrev separator : String
separator = "\n…\n"

abbrev after : Option (ℕ × String) → Option (ℕ × String)
after none = none
after (some (at, line)) = some (1 + at, line)

-- The first line that names an error, with its position.
unfoldable first_error : (String → String) → List String → Option (ℕ × String)
first_error trim_start List.[] = none
first_error trim_start (List.◌∷◌ line lines) =
    let rest = first_error trim_start lines in
    if is_error_headline trim_start line then some (0, line) else after rest

-- The headline, where the tail does not already hold it.
abbrev headline_of : (String → String) → ℕ → String → Option (ℕ × String) → Option String
headline_of trim tail_start tail none = none
headline_of trim tail_start tail (some (at, line)) =
    if ltb at tail_start || ltb 2000 (bytes tail) then some (truncate_to (trim line) 500) else none

abbrev kept : ℕ → String → String
kept budget tail = if leb (bytes tail) budget then tail else last_bytes budget tail

abbrev prefixed : String → String → String
prefixed headline tail =
    if text_contains tail headline then tail else String.◌++◌ headline (String.◌++◌ separator tail)

unfoldable pub with_headline : Option String → String → String
with_headline none tail = kept 2000 tail
with_headline (some headline) tail =
    prefixed headline (kept (2000 - (bytes headline + bytes separator)) tail)

unfoldable pub log_tail :
    (String → List String) → (String → String) → (String → String) → String → String
unfolding first_error with_headline
log_tail lines_of trim trim_start log =
    let lines = lines_of log in
    let tail_start = length lines - 40 in
    let tail = join "\n" (drop tail_start lines) in
    with_headline (headline_of trim tail_start tail (first_error trim_start lines)) tail
