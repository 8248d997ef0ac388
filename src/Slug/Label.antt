-- ===== src/Slug/Label.antt =====
-- What `slug` of src/util.rs makes: a DNS label.
use Prim.Native.Char.{Char, code}
use Prim.Native.Nat.{compare, Ordering}
use Prim.Native.String.{String, [], ◌∷◌}
use native.Mathlib.Omega.{compare-eq, compare-gt}
use postgres_restore_operato.Prelude.{
  ℕ, zero, suc, ◌+◌, ◌≤◌, ◌<◌, ◌≡◌, refl, Bool, true, false, not, ◌&&◌, ◌||◌, ltb, if_case, arith,
}
use postgres_restore_operato.Slug.{
  char_by, to_ascii_lowercase, slug_chars, pop_dashes, remove_dashes, truncate, text_length,
  is_ascii_lowercase, is_ascii_digit, is_ascii_alphanumeric, is_dash, is_blank, or_replica, shorten,
  slug,
}

-- A DNS label: lower-case letters, digits and dashes, neither starting nor ending with a dash.
abbrev in_label : Char → Bool
in_label c = is_ascii_lowercase c || (is_ascii_digit c || is_dash c)

abbrev pub all_in_label : String → Bool
all_in_label [] = true
all_in_label (c ∷ s) = in_label c && all_in_label s

abbrev pub first_dash : String → Bool
first_dash [] = true
first_dash (c ∷ s) = is_dash c

abbrev pub last_dash : String → Bool
last_dash [] = false
last_dash (c ∷ []) = is_dash c
last_dash (c ∷ d ∷ s) = last_dash (d ∷ s)

-- Not empty, as `first_dash` refuses the empty text.
abbrev pub IsLabel : String → Type 0
IsLabel s = (all_in_label s ≡ true) × (first_dash s ≡ false) × (last_dash s ≡ false)

code-char_by :
    (n : ℕ) (o : Ordering) (e : compare n 55296 ≡ o) → n < 55296 → code (char_by n o e) ≡ n
unfolding char_by
code-char_by n Ordering.lt e h = refl
code-char_by n Ordering.eq e h = absurd (omega (arith, compare-eq n 55296 e))
code-char_by n Ordering.gt e h = absurd (omega (arith, compare-gt n 55296 e))

lowercase_in_label :
    (c : Char) → is_ascii_alphanumeric c ≡ true → in_label (to_ascii_lowercase c) ≡ true
unfolding to_ascii_lowercase
lowercase_in_label c h =
    ground (arith, h, code-char_by (code c + 32) (compare (code c + 32) 55296) refl)

slug_chars-label : (prev_dash : Bool) (s : String) → all_in_label (slug_chars prev_dash s) ≡ true
unfolding slug_chars
slug_chars-label prev_dash [] = refl
slug_chars-label prev_dash (c ∷ s) =
    ground (arith, slug_chars-label false s, slug_chars-label true s, lowercase_in_label c)

pop_dashes-label : (s : String) → all_in_label s ≡ true → all_in_label (pop_dashes s) ≡ true
unfolding pop_dashes
pop_dashes-label [] h = refl
pop_dashes-label (c ∷ s) h = ground (arith, h, pop_dashes-label s)

remove_dashes-label : (s : String) → all_in_label s ≡ true → all_in_label (remove_dashes s) ≡ true
unfolding remove_dashes
remove_dashes-label [] h = refl
remove_dashes-label (c ∷ s) h = ground (arith, h, remove_dashes-label s)

truncate-label : (n : ℕ) (s : String) → all_in_label s ≡ true → all_in_label (truncate n s) ≡ true
unfolding truncate
truncate-label zero s h = refl
truncate-label (suc n) [] h = refl
truncate-label (suc n) (c ∷ s) h = ground (arith, h, truncate-label n s)

cons_last :
    (c : Char) (s : String)
    → (is_dash c && is_blank s) ≡ false
    → last_dash s ≡ false
    → last_dash (c ∷ s) ≡ false
cons_last c [] h k = ground (arith, h)
cons_last c (d ∷ s) h k = k

pop_dashes-last : (s : String) → last_dash (pop_dashes s) ≡ false
unfolding pop_dashes
pop_dashes-last [] = refl
pop_dashes-last (c ∷ s) =
    let rest = pop_dashes-last s in
    if_case (λ t. last_dash t ≡ false) (is_dash c && is_blank (pop_dashes s)) _ _ (λ _. refl)
      λ other. cons_last c (pop_dashes s) other rest

last_tail : (c : Char) (s : String) → last_dash (c ∷ s) ≡ false → last_dash s ≡ false
last_tail c [] h = refl
last_tail c (d ∷ s) h = h

remove_dashes-last : (s : String) → last_dash s ≡ false → last_dash (remove_dashes s) ≡ false
unfolding remove_dashes
remove_dashes-last [] h = refl
remove_dashes-last (c ∷ s) h =
    let rest = remove_dashes-last s (last_tail c s h) in
    if_case (λ t. last_dash t ≡ false) (is_dash c) _ _ (λ _. rest) (λ _. h)

-- What is built has no dash in front: it is empty, or starts with something else.
abbrev starts_well : String → Bool
starts_well [] = true
starts_well (c ∷ s) = not (is_dash c)

remove_dashes-first : (s : String) → starts_well (remove_dashes s) ≡ true
unfolding remove_dashes
remove_dashes-first [] = refl
remove_dashes-first (c ∷ s) =
    let rest = remove_dashes-first s in
    if_case (λ t. starts_well t ≡ true) (is_dash c) _ _ (λ _. rest) (λ other. ground (arith, other))

replica_or :
    (s : String)
    → all_in_label s ≡ true
    → starts_well s ≡ true
    → last_dash s ≡ false
    → IsLabel (or_replica s)
replica_or [] h k l = (refl, refl, refl)
replica_or (c ∷ s) h k l = (h, ground (arith, k), l)

pop_truncate_first :
    (s : String) → first_dash s ≡ false → first_dash (pop_dashes (truncate 50 s)) ≡ false
unfolding truncate pop_dashes
pop_truncate_first [] h = cc
pop_truncate_first (c ∷ s) h = rw h h

shorten-IsLabel : (s : String) → IsLabel s → IsLabel (shorten s)
shorten-IsLabel s (h, k, l) =
    if_case IsLabel (ltb 50 (text_length s)) _ _
      (λ _. (
        pop_dashes-label (truncate 50 s) (truncate-label 50 s h),
        pop_truncate_first s k,
        pop_dashes-last (truncate 50 s),
      ))
      (λ _. (h, k, l))

pop_dashes-length : (s : String) → text_length (pop_dashes s) ≤ text_length s
unfolding pop_dashes text_length
pop_dashes-length [] = omega arith
pop_dashes-length (c ∷ s) = ground (arith, pop_dashes-length s)

truncate-length : (n : ℕ) (s : String) → text_length (truncate n s) ≤ n
unfolding truncate text_length
truncate-length zero s = omega arith
truncate-length (suc n) [] = omega arith
truncate-length (suc n) (c ∷ s) = omega (arith, truncate-length n s)

shorten-length : (s : String) → text_length (shorten s) ≤ 50
shorten-length s =
    if_case (λ t. text_length t ≤ 50) (ltb 50 (text_length s)) _ _
      (λ _. omega (arith, pop_dashes-length (truncate 50 s), truncate-length 50 s))
      (λ short. ground (arith, short))

-- Whatever it is given, `slug` makes a DNS label of at most 50 characters: lower-case letters, digits and
-- dashes, not empty, and with no dash at either end.
pub slug-IsLabel : (s : String) → IsLabel (slug s) × (text_length (slug s) ≤ 50)
unfolding slug
slug-IsLabel s =
    let chars = slug_chars true s in
    let popped = pop_dashes chars in
    let out = or_replica (remove_dashes popped) in
    (
      shorten-IsLabel out (
          replica_or (remove_dashes popped)
            (remove_dashes-label popped (pop_dashes-label chars (slug_chars-label true s)))
            (remove_dashes-first popped) (remove_dashes-last popped (pop_dashes-last chars))),
      shorten-length out,
    )
