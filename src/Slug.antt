-- ===== src/Slug.antt =====
-- `slug` of src/util.rs, the part of a namespace's name that a person can read. What it builds is ASCII, so
-- its length in bytes is its number of characters.
pub mod Label
use Prim.Native.Char.{Char, char, code, nul}
use Prim.Native.Nat.{compare, Ordering}
use Prim.Native.String.{String, [], ◌∷◌}
use native.Mathlib.Omega.{compare-eq, compare-gt}
use postgres_restore_operato.Prelude.{
  ℕ, zero, suc, ◌+◌, ◌≤◌, ◌<◌, ◌≡◌, refl, Bool, true, false, not, ◌&&◌, ◌||◌, leb, ltb, eqb,
  if◌then◌else◌, if_case, arith,
}

-- The character with the given code, where that is below the surrogates.
unfoldable pub char_by : (n : ℕ) (o : Ordering) → compare n 55296 ≡ o → Char
char_by n Ordering.lt e = char n (rw e tt)
char_by n _ e = nul

abbrev pub is_ascii_uppercase : Char → Bool
is_ascii_uppercase c = leb 65 (code c) && leb (code c) 90

abbrev pub is_ascii_lowercase : Char → Bool
is_ascii_lowercase c = leb 97 (code c) && leb (code c) 122

abbrev pub is_ascii_digit : Char → Bool
is_ascii_digit c = leb 48 (code c) && leb (code c) 57

abbrev pub is_ascii_alphanumeric : Char → Bool
is_ascii_alphanumeric c = is_ascii_uppercase c || (is_ascii_lowercase c || is_ascii_digit c)

unfoldable pub to_ascii_lowercase : Char → Char
unfolding char_by
to_ascii_lowercase c =
    if is_ascii_uppercase c then char_by (code c + 32) (compare (code c + 32) 55296) refl else c

abbrev pub is_dash : Char → Bool
is_dash c = eqb (code c) 45

-- The loop over the characters; `prev_dash` says whether what is built ends in a dash or is empty.
unfoldable pub slug_chars : Bool → String → String
slug_chars prev_dash [] = []
slug_chars prev_dash (c ∷ s) =
    let kept = slug_chars false s in
    let skipped = slug_chars true s in
    if is_ascii_alphanumeric c
    then to_ascii_lowercase c ∷ kept
    else if prev_dash
    then skipped
    else "-" ∷ skipped

abbrev pub is_blank : String → Bool
is_blank [] = true
is_blank (c ∷ s) = false

-- `while out.ends_with('-') { out.pop(); }`.
unfoldable pub pop_dashes : String → String
pop_dashes [] = []
pop_dashes (c ∷ s) = let rest = pop_dashes s in if is_dash c && is_blank rest then [] else c ∷ rest

-- `while out.starts_with('-') { out.remove(0); }`.
unfoldable pub remove_dashes : String → String
remove_dashes [] = []
remove_dashes (c ∷ s) = let rest = remove_dashes s in if is_dash c then rest else c ∷ s

unfoldable pub text_length : String → ℕ
text_length [] = 0
text_length (c ∷ s) = suc (text_length s)

unfoldable pub truncate : ℕ → String → String
truncate zero s = []
truncate (suc n) [] = []
truncate (suc n) (c ∷ s) = c ∷ truncate n s

abbrev pub or_replica : String → String
or_replica [] = "replica"
or_replica (c ∷ s) = c ∷ s

abbrev pub shorten : String → String
shorten out = if ltb 50 (text_length out) then pop_dashes (truncate 50 out) else out

unfoldable pub slug : String → String
unfolding char_by to_ascii_lowercase slug_chars pop_dashes remove_dashes truncate text_length
slug s = shorten (or_replica (remove_dashes (pop_dashes (slug_chars true s))))
