-- ===== src/Prelude/Texts.antt =====
-- Texts as lists of characters: the tests of Rust's `str` that the controllers use.
use Prim.Native.Char.{code}
use Prim.Native.String.{String, [], ◌∷◌, ◌++◌}
use mathlib.Core.Path.{◌≡◌, refl, sym, subst}
use mathlib.Core.Logic.{inl, inr}
use mathlib.Core.Bool.{Bool, true, false, ◌&&◌, ◌||◌}
use mathlib.Core.Option.{Option, none, some}
use native.Mathlib.Omega.{arith}
use text.Mathlib.TextLemmas.{nil-append, cons-append, append_assoc}
use text.Mathlib.Text.{◌==◌}
use text.Mathlib.TextEquality.{eq_iff}
use postgres_restore_operato.Prelude.Tests.{Bool-cases, eqb, if◌then◌else◌}

-- `str::starts_with`.
unfoldable pub starts_with : String → String → Bool
starts_with text [] = true
starts_with [] (p ∷ prefix) = false
starts_with (c ∷ text) (p ∷ prefix) = eqb (code c) (code p) && starts_with text prefix

-- `str::contains`.
unfoldable pub text_contains : String → String → Bool
unfolding starts_with
text_contains [] needle = starts_with [] needle
text_contains (c ∷ text) needle = starts_with (c ∷ text) needle || text_contains text needle

-- `str::strip_prefix`.
unfoldable pub strip_prefix : String → String → Option String
strip_prefix text [] = some text
strip_prefix [] (p ∷ prefix) = none
strip_prefix (c ∷ text) (p ∷ prefix) =
    let rest = strip_prefix text prefix in if eqb (code c) (code p) then rest else none

pub strip_prefix-append : (p s : String) → strip_prefix (p ++ s) p ≡ some s
unfolding strip_prefix
strip_prefix-append [] s = rw nil-append refl
strip_prefix-append (c ∷ p) s = rw cons-append (ground (arith, strip_prefix-append p s))

pub starts_with-append : (p s : String) → starts_with (p ++ s) p ≡ true
unfolding starts_with
starts_with-append [] s = refl
starts_with-append (c ∷ p) s = rw cons-append (ground (arith, starts_with-append p s))

-- Texts of which one opens with a prefix and the other does not.
pub differs :
    (prefix s t : String)
    → starts_with s prefix ≡ true
    → starts_with t prefix ≡ false
    → (s == t) ≡ false
differs prefix s t h k = elim (Bool-cases (s == t)) [
  | inl same ↦ let e = subst (λ u. starts_with u prefix ≡ true) ((eq_iff s t).0 same) h in cc
  | inr other ↦ other
]

-- What a failure's reason is written as.
abbrev pub failure : String → String
failure reason = "failed: " ++ reason

pub strip_prefix-failure :
    (reason : String) → strip_prefix (failure reason) "failed:" ≡ some (" " ++ reason)
strip_prefix-failure reason =
    subst (λ t. strip_prefix t "failed:" ≡ some (" " ++ reason))
      (sym (append_assoc "failed:" " " reason)) (strip_prefix-append "failed:" (" " ++ reason))

pub failure-differs :
    (reason t : String) → starts_with t "f" ≡ false → (failure reason == t) ≡ false
failure-differs reason t h =
    differs "f" (failure reason) t
      (subst (λ s. starts_with s "f" ≡ true) (sym (append_assoc "f" "ailed: " reason))
        (starts_with-append "f" ("ailed: " ++ reason)))
      h
