-- ===== src/Jobs/Log/Headline.antt =====
-- How long what is kept of a Job's log is, and which line it holds: `log_tail` of src/controllers/jobs.rs.
use Prim.Native.String
use Prim.Native.String.{String, [], ◌∷◌}
use text.Mathlib.TextLemmas.{nil-append, cons-append}
use postgres_restore_operato.Prelude.{
  starts_with, starts_with-append, text_contains, ℕ, ◌+◌, ◌-◌, ◌≤◌, ◌≡◌, refl, Bool, true, ◌||◌,
  Option, none, some, List, leb, ltb, if◌then◌else◌, if_case, arith, any, length, suc, ap, sym,
  subst, ◌∙◌,
}
use postgres_restore_operato.Split.{join}
use postgres_restore_operato.Jobs.Log.{
  len_utf8, bytes, take_bytes, truncate_to, last_bytes, is_error_headline, drop, separator, after,
  first_error, headline_of, kept, prefixed, with_headline, log_tail,
}

-- The words by which a line names an error: at its start, or after a space.
abbrev error_words : List String
error_words = List.◌∷◌ "Error:" (
    List.◌∷◌ "ERROR:" (
      List.◌∷◌ "error:" (
        List.◌∷◌ "Error [" (
          List.◌∷◌ "DatabaseError" (
            List.◌∷◌ "SequelizeDatabaseError" (
              List.◌∷◌ "Database Error in" (
                List.◌∷◌ "Compilation Error in"
                  (List.◌∷◌ "Runtime Error in" (List.◌∷◌ "Failure in model" List.[])))))))))

abbrev names_error : String → Bool
names_error text =
    any (λ w. starts_with text w || text_contains text (String.◌++◌ " " w)) error_words

-- The first line that names an error, with its number, counted from a start.
unfoldable pub error_from : (String → String) → ℕ → List String → Option (ℕ × String)
error_from trim_start n List.[] = none
error_from trim_start n (List.◌∷◌ line lines) =
    let rest = error_from trim_start (suc n) lines in
    if names_error (trim_start line) then some (n, line) else rest

-- The whole characters at the start of a text that fit into so many bytes.
unfoldable pub cut : ℕ → String → String
unfolding bytes
cut n [] = ""
cut n (c ∷ s) =
    let rest = cut (n - bytes (c ∷ "")) s in if leb (bytes (c ∷ "")) n then c ∷ rest else ""

abbrev beside : (String → String) → List String → Option (ℕ × String) → Option String
beside trim lines none = none
beside trim lines (some (n, line)) =
    if ltb (n + 40) (length lines) || ltb 2000 (bytes (join "\n" (drop (length lines - 40) lines)))
    then some (cut 500 (trim line))
    else none

-- The headline that a log has beside its last 40 lines.
unfoldable pub headline_in :
    (String → List String) → (String → String) → (String → String) → String → Option String
unfolding error_from
headline_in lines_of trim trim_start log =
    beside trim (lines_of log) (error_from trim_start 0 (lines_of log))

abbrev later : ℕ → Option (ℕ × String) → Option (ℕ × String)
later n none = none
later n (some (at, line)) = some (n + at, line)

later-after : (n : ℕ) (o : Option (ℕ × String)) → later (suc n) o ≡ later n (after o)
later-after n none = refl
later-after n (some (at, line)) = ap (λ m. some (m, line)) (omega arith)

names_error-is_error_headline :
    (trim_start : String → String) (line : String)
    → names_error (trim_start line) ≡ is_error_headline trim_start line
unfolding is_error_headline
names_error-is_error_headline trim_start line = refl

error_from-first_error :
    (trim_start : String → String) (n : ℕ) (lines : List String)
    → error_from trim_start n lines ≡ later n (first_error trim_start lines)
unfolding error_from first_error
error_from-first_error trim_start n List.[] = refl
error_from-first_error trim_start n (List.◌∷◌ line lines) =
    rw
      (
        names_error-is_error_headline trim_start line,
        error_from-first_error trim_start (suc n) lines,
      )
      (if_case
        (λ o.
          (if is_error_headline trim_start line
            then some (n, line)
            else later (suc n) (first_error trim_start lines))
          ≡ later n o)
        (is_error_headline trim_start line) _ _ (λ h. rw h (ap (λ m. some (m, line)) (omega arith)))
        (λ h. rw h (later-after n _)))

cut-short : (n : ℕ) (s : String) → bytes s ≤ n → cut n s ≡ s
unfolding cut bytes
cut-short n [] h = refl
cut-short n (c ∷ s) h = ground (arith, h, cut-short (n - len_utf8 c) s)

cut-take_bytes : (n : ℕ) (s : String) → cut n s ≡ take_bytes n s
unfolding cut bytes take_bytes
cut-take_bytes n [] = refl
cut-take_bytes n (c ∷ s) = ground (arith, cut-take_bytes (n - len_utf8 c) s)

truncate_to-cut : (s : String) (n : ℕ) → truncate_to s n ≡ cut n s
unfolding truncate_to
truncate_to-cut s n =
    if_case (λ t. t ≡ cut n s) (leb (bytes s) n) _ _
      (λ fits. sym (cut-short n s (ground (arith, fits)))) (λ _. sym (cut-take_bytes n s))

bytes-append : (s t : String) → bytes (String.◌++◌ s t) ≡ bytes s + bytes t
unfolding bytes
bytes-append [] t = rw nil-append (omega arith)
bytes-append (c ∷ s) t = rw (cons-append, bytes-append s t) (omega arith)

take_bytes-AtMost : (n : ℕ) (s : String) → bytes (take_bytes n s) ≤ n
unfolding take_bytes bytes
take_bytes-AtMost n [] = omega arith
take_bytes-AtMost n (c ∷ s) =
    if_case (λ t. bytes t ≤ n) (leb (len_utf8 c) n) _ _
      (λ fits. ground (arith, fits, take_bytes-AtMost (n - len_utf8 c) s)) (λ _. omega arith)

truncate_to-AtMost : (s : String) (n : ℕ) → bytes (truncate_to s n) ≤ n
unfolding truncate_to
truncate_to-AtMost s n =
    if_case (λ t. bytes t ≤ n) (leb (bytes s) n) _ _ (λ fits. ground (arith, fits))
      (λ _. take_bytes-AtMost n s)

last_bytes-AtMost : (n : ℕ) (s : String) → bytes (last_bytes n s) ≤ n
unfolding last_bytes bytes
last_bytes-AtMost n [] = omega arith
last_bytes-AtMost n (c ∷ s) =
    if_case (λ t. bytes t ≤ n) (leb (bytes (c ∷ s)) n) _ _ (λ fits. ground (arith, fits))
      (λ _. last_bytes-AtMost n s)

kept-AtMost : (n : ℕ) (tail : String) → bytes (kept n tail) ≤ n
kept-AtMost n tail =
    if_case (λ t. bytes t ≤ n) (leb (bytes tail) n) _ _ (λ fits. ground (arith, fits))
      (λ _. last_bytes-AtMost n tail)

abbrev ShortIf : Option String → Type 0
ShortIf none = Unit
ShortIf (some headline) = bytes headline ≤ 500

headline_of-ShortIf :
    (trim : String → String) (tail_start : ℕ) (tail : String) (first : Option (ℕ × String))
    → ShortIf (headline_of trim tail_start tail first)
headline_of-ShortIf trim tail_start tail none = tt
headline_of-ShortIf trim tail_start tail (some (at, line)) =
    if_case ShortIf (ltb at tail_start || ltb 2000 (bytes tail)) _ _
      (λ _. truncate_to-AtMost (trim line) 500) (λ _. tt)

separator_lem : bytes separator ≡ 5
unfolding bytes
separator_lem = refl

prefixed-AtMost :
    (headline tail : String)
    → bytes headline ≤ 500
    → bytes tail ≤ 2000 - (bytes headline + bytes separator)
    → bytes (prefixed headline tail) ≤ 2000
prefixed-AtMost headline tail h k =
    if_case (λ t. bytes t ≤ 2000) (text_contains tail headline) _ _ (λ _. omega (arith, k))
      (λ _.
        rw (bytes-append headline (String.◌++◌ separator tail), bytes-append separator tail)
          (omega (arith, h, k, separator_lem)))

with_headline-AtMost :
    (headline : Option String) (tail : String)
    → ShortIf headline
    → bytes (with_headline headline tail) ≤ 2000
unfolding with_headline
with_headline-AtMost none tail h = kept-AtMost 2000 tail
with_headline-AtMost (some headline) tail h =
    prefixed-AtMost headline _ h (kept-AtMost (2000 - (bytes headline + bytes separator)) tail)

contains_start : (s p : String) → starts_with s p ≡ true → text_contains s p ≡ true
unfolding text_contains
contains_start [] p h = h
contains_start (c ∷ s) p h = ground (arith, h)

abbrev pub HeldIn : Option String → String → Type 0
HeldIn none text = Unit
HeldIn (some headline) text = text_contains text headline ≡ true

prefixed-HeldIn : (headline tail : String) → text_contains (prefixed headline tail) headline ≡ true
prefixed-HeldIn headline tail =
    if_case (λ t. text_contains t headline ≡ true) (text_contains tail headline) _ _
      (λ there. there)
      (λ _. contains_start _ headline (starts_with-append headline (String.◌++◌ separator tail)))

with_headline-HeldIn :
    (headline : Option String) (tail : String) → HeldIn headline (with_headline headline tail)
unfolding with_headline
with_headline-HeldIn none tail = tt
with_headline-HeldIn (some headline) tail =
    prefixed-HeldIn headline (kept (2000 - (bytes headline + bytes separator)) tail)

headline_of-beside :
    (trim : String → String) (lines : List String) (first : Option (ℕ × String))
    → headline_of trim (length lines - 40) (join "\n" (drop (length lines - 40) lines)) first
      ≡ beside trim lines (later 0 first)
headline_of-beside trim lines none = refl
headline_of-beside trim lines (some (at, line)) =
    rw (truncate_to-cut (trim line) 500) (ground arith)

headline_in_lem :
    (lines_of : String → List String) (trim trim_start : String → String) (log : String)
    → headline_of trim
        (length (lines_of log) - 40)
        (join "\n" (drop (length (lines_of log) - 40) (lines_of log)))
        (first_error trim_start (lines_of log))
      ≡ headline_in lines_of trim trim_start log
unfolding headline_in
headline_in_lem lines_of trim trim_start log =
    headline_of-beside trim (lines_of log) (first_error trim_start (lines_of log))
    ∙ ap (beside trim (lines_of log)) (sym (error_from-first_error trim_start 0 (lines_of log)))

-- What is kept of a log takes at most 2000 bytes, whatever its lines are, and where the first line that
-- names an error (by one of ten words, at its start or after a space) stands before the last 40 lines, or
-- these take more than 2000 bytes, it holds at least that line, trimmed and cut to at most 500 bytes.
pub log_tail-AtMost :
    (lines_of : String → List String) (trim trim_start : String → String) (log : String)
    → (bytes (log_tail lines_of trim trim_start log) ≤ 2000)
      × HeldIn (headline_in lines_of trim trim_start log) (log_tail lines_of trim trim_start log)
unfolding log_tail
log_tail-AtMost lines_of trim trim_start log =
    let lines = lines_of log in
    let tail_start = length lines - 40 in
    let tail = join "\n" (drop tail_start lines) in
    let headline = headline_of trim tail_start tail (first_error trim_start lines) in
    (
      with_headline-AtMost headline tail
          (headline_of-ShortIf trim tail_start tail (first_error trim_start lines)),
      subst (λ h. HeldIn h (with_headline headline tail))
          (headline_in_lem lines_of trim trim_start log) (with_headline-HeldIn headline tail),
    )
