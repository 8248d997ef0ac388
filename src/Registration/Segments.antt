-- ===== src/Registration/Segments.antt =====
-- How the path of a URI is read, and what the segments of a text are: src/canopy.rs.
use Prim.Native.Char.{Char, code}
use Prim.Native.String
use Prim.Native.String.{String, [], ◌∷◌}
use text.Mathlib.TextLemmas.{nil-append, cons-append}
use postgres_restore_operato.Prelude.{
  ℕ, ◌≡◌, refl, inl, inr, Bool, true, false, not, ◌&&◌, ◌||◌, List, eqb, if◌then◌else◌, if_case,
  arith, Bool-cases,
}
use postgres_restore_operato.Split.{split, prepend}
use postgres_restore_operato.Registration.{all_chars, is_version_char}

-- A character that neither ends a segment nor the path of a URI, nor is read as another one.
abbrev pub is_plain : Char → Bool
is_plain c =
    not (eqb (code c) 47)
    && (not (eqb (code c) 63) && (not (eqb (code c) 35) && not (eqb (code c) 37)))

-- The path of a URI: what stands before its query and its fragment.
unfoldable pub path_of : String → String
path_of [] = ""
path_of (c ∷ uri) =
    let rest = path_of uri in if eqb (code c) 63 || eqb (code c) 35 then "" else c ∷ rest

-- The segments of a path.
abbrev pub segments : String → List String
segments path = split 47 path

-- Two lists of segments, the last one of the first and the first one of the second being one.
abbrev pub glue : List String → List String → List String
glue List.[] vs = vs
glue (List.◌∷◌ w List.[]) List.[] = List.◌∷◌ w List.[]
glue (List.◌∷◌ w List.[]) (List.◌∷◌ v vs) = List.◌∷◌ (String.◌++◌ w v) vs
glue (List.◌∷◌ w (List.◌∷◌ u ws)) vs = List.◌∷◌ w (glue (List.◌∷◌ u ws) vs)

abbrev filled : List String → Bool
filled List.[] = false
filled (List.◌∷◌ w ws) = true

prepend-glue :
    (c : Char) (ws vs : List String)
    → filled ws ≡ true
    → prepend c (glue ws vs) ≡ glue (prepend c ws) vs
prepend-glue c List.[] vs h = cc
prepend-glue c (List.◌∷◌ w List.[]) List.[] h = refl
prepend-glue c (List.◌∷◌ w List.[]) (List.◌∷◌ v vs) h = rw cons-append refl
prepend-glue c (List.◌∷◌ w (List.◌∷◌ u ws)) vs h = refl

glue-later :
    (ws vs : List String) → filled ws ≡ true → List.◌∷◌ "" (glue ws vs) ≡ glue (List.◌∷◌ "" ws) vs
glue-later List.[] vs h = cc
glue-later (List.◌∷◌ w ws) vs h = refl

glue-nothing : (vs : List String) → filled vs ≡ true → vs ≡ glue (List.◌∷◌ "" List.[]) vs
glue-nothing List.[] h = cc
glue-nothing (List.◌∷◌ v vs) h = rw nil-append refl

filled-prepend : (c : Char) (ws : List String) → filled (prepend c ws) ≡ true
filled-prepend c List.[] = refl
filled-prepend c (List.◌∷◌ w ws) = refl

filled-split : (n : ℕ) (s : String) → filled (split n s) ≡ true
unfolding split
filled-split n [] = refl
filled-split n (c ∷ s) =
    if_case (λ ws. filled ws ≡ true) (eqb (code c) n) (List.◌∷◌ "" (split n s))
      (prepend c (split n s)) (λ h. refl) (λ h. filled-prepend c (split n s))

-- The segments of two texts, one after the other.
pub split-glue : (n : ℕ) (p s : String) → split n (String.◌++◌ p s) ≡ glue (split n p) (split n s)
unfolding split
split-glue n [] s = rw nil-append (glue-nothing (split n s) (filled-split n s))
split-glue n (c ∷ p) s =
    let here = filled-split n p in
    let later = split-glue n p s in
    elim (Bool-cases (eqb (code c) n)) [
      | inl h ↦ rw (cons-append, h, later) (glue-later (split n p) (split n s) here)
      | inr h ↦ rw (cons-append, h, later) (prepend-glue c (split n p) (split n s) here)
    ]

pub split-plain : (s : String) → all_chars is_plain s ≡ true → split 47 s ≡ List.◌∷◌ s List.[]
unfolding split all_chars
split-plain [] h = refl
split-plain (c ∷ s) h =
    let plain : is_plain c ≡ true = ground (arith, h) in
    let rest : all_chars is_plain s ≡ true = ground (arith, h) in
    let slash : eqb (code c) 47 ≡ false = ground (arith, plain) in
    rw (slash, split-plain s rest) refl

-- Neither ends the path.
abbrev pub in_path : Char → Bool
in_path c = not (eqb (code c) 63 || eqb (code c) 35)

pub path_of-append :
    (p s : String)
    → all_chars in_path p ≡ true
    → path_of (String.◌++◌ p s) ≡ String.◌++◌ p (path_of s)
unfolding path_of all_chars
path_of-append [] s h = rw (nil-append, nil-append) refl
path_of-append (c ∷ p) s h =
    let here : (eqb (code c) 63 || eqb (code c) 35) ≡ false = ground (arith, h) in
    let rest : all_chars in_path p ≡ true = ground (arith, h) in
    rw (cons-append, cons-append, here, path_of-append p s rest) refl

pub plain-in_path : (s : String) → all_chars is_plain s ≡ true → all_chars in_path s ≡ true
unfolding all_chars
plain-in_path [] h = refl
plain-in_path (c ∷ s) h =
    let rest : all_chars is_plain s ≡ true = ground (arith, h) in
    ground (arith, h, plain-in_path s rest)

pub version-plain : (s : String) → all_chars is_version_char s ≡ true → all_chars is_plain s ≡ true
unfolding all_chars
version-plain [] h = refl
version-plain (c ∷ s) h =
    let here : is_version_char c ≡ true = ground (arith, h) in
    let plain : is_plain c ≡ true = ground (arith, here) in
    let rest : all_chars is_version_char s ≡ true = ground (arith, h) in
    ground (arith, plain, version-plain s rest)
