-- ===== src/Kopia/Output.antt =====
-- `parse_snapshot_list_output` of src/kopia.rs: the lines that a Job prints around its JSON.
use Prim.Native.Char.{code}
use Prim.Native.String
use Prim.Native.String.{String, [], ◌∷◌}
use text.Mathlib.TextLemmas.{nil-append, cons-append}
use postgres_restore_operato.Prelude.{ℕ, ◌≡◌, refl, false, none, some, eqb}
use postgres_restore_operato.Kopia.{from_open, to_close, parse_snapshot_list_output, array_text}

-- No character of a text has the given code.
abbrev pub Lacks : ℕ → String → Type 0
Lacks n [] = Unit
Lacks n (c ∷ s) = (eqb (code c) n ≡ false) × Lacks n s

from_open-append :
    (before rest : String)
    → Lacks 91 before
    → from_open (String.◌++◌ before ("[" ∷ rest)) ≡ some ("[" ∷ rest)
unfolding from_open
from_open-append [] rest h = rw nil-append refl
from_open-append (c ∷ before) rest (h, k) = rw (cons-append, h) (from_open-append before rest k)

to_close-none : (after : String) → Lacks 93 after → to_close after ≡ none
unfolding to_close
to_close-none [] h = refl
to_close-none (c ∷ after) (h, k) = rw (to_close-none after k, h) refl

to_close-append :
    (body after : String)
    → Lacks 93 after
    → to_close (String.◌++◌ body ("]" ∷ after)) ≡ some (String.◌++◌ body "]")
unfolding to_close
to_close-append [] after h = rw (nil-append, nil-append, to_close-none after h) refl
to_close-append (c ∷ body) after h =
    rw (cons-append, cons-append, to_close-append body after h) refl

-- Whatever is printed before the array without an opening bracket, and after it without a closing one,
-- what is parsed is the array's text.
pub parse_snapshot_list_output_noise :
    {A : Type 0} (from_str : String → A) (before body after : String)
    → Lacks 91 before
    → Lacks 93 after
    → parse_snapshot_list_output from_str
        (String.◌++◌ before ("[" ∷ String.◌++◌ body ("]" ∷ after)))
      ≡ from_str ("[" ∷ String.◌++◌ body "]")
unfolding parse_snapshot_list_output array_text to_close
parse_snapshot_list_output_noise from_str before body after h k =
    rw (from_open-append before (String.◌++◌ body ("]" ∷ after)) h, to_close-append body after k)
      refl
