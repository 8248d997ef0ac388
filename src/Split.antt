-- ===== src/Split.antt =====
-- `str::split`, `str::split_once` and `str::rsplit_once` at one character, given by its code.
use Prim.Native.Char.{Char, code}
use Prim.Native.String
use Prim.Native.String.{String, [], ◌∷◌}
use text.Mathlib.TextLemmas.{nil-append, cons-append}
use postgres_restore_operato.Prelude.{ℕ, ◌≡◌, refl, Option, none, some, List, eqb, if◌then◌else◌}
use postgres_restore_operato.Kopia.Output.{Lacks}

abbrev pub prepend : Char → List String → List String
prepend c List.[] = List.◌∷◌ (c ∷ "") List.[]
prepend c (List.◌∷◌ w ws) = List.◌∷◌ (c ∷ w) ws

unfoldable pub split : ℕ → String → List String
split n [] = List.◌∷◌ "" List.[]
split n (c ∷ s) =
    let rest = split n s in if eqb (code c) n then List.◌∷◌ "" rest else prepend c rest

abbrev after_first : Char → Option (String × String) → Option (String × String)
after_first c none = none
after_first c (some (a, b)) = some (c ∷ a, b)

unfoldable pub split_once : ℕ → String → Option (String × String)
split_once n [] = none
split_once n (c ∷ s) =
    let rest = split_once n s in if eqb (code c) n then some ("", s) else after_first c rest

abbrev or_last : ℕ → Char → String → Option (String × String) → Option (String × String)
or_last n c s none = if eqb (code c) n then some ("", s) else none
or_last n c s (some (a, b)) = some (c ∷ a, b)

unfoldable pub rsplit_once : ℕ → String → Option (String × String)
rsplit_once n [] = none
rsplit_once n (c ∷ s) = or_last n c s (rsplit_once n s)

-- Items, with a separator between them.
abbrev pub join : String → List String → String
join sep List.[] = ""
join sep (List.◌∷◌ w List.[]) = w
join sep (List.◌∷◌ w (List.◌∷◌ v ws)) = String.◌++◌ w (String.◌++◌ sep (join sep (List.◌∷◌ v ws)))

pub split-Lacks : (n : ℕ) (w : String) → Lacks n w → split n w ≡ List.◌∷◌ w List.[]
unfolding split
split-Lacks n [] h = refl
split-Lacks n (c ∷ w) (h, k) = rw (h, split-Lacks n w k) refl

pub split-append :
    (w rest : String)
    → Lacks 44 w
    → split 44 (String.◌++◌ w (String.◌++◌ "," rest)) ≡ List.◌∷◌ w (split 44 rest)
unfolding split
split-append [] rest h = rw (nil-append, cons-append, nil-append) refl
split-append (c ∷ w) rest (h, k) = rw (cons-append, h, split-append w rest k) refl
