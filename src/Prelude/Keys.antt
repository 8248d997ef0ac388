-- ===== src/Prelude/Keys.antt =====
-- Keys of the form `{namespace}/{name}`.
use Prim.Native.Char.{Char, code}
use Prim.Native.String
use Prim.Native.String.{String, [], ◌∷◌}
use mathlib.Core.Path.{◌≡◌, refl, ap, sym}
use mathlib.Core.Logic.{◌≢◌}
use text.Mathlib.TextLemmas.{nil-append, cons-append}

-- The format string `"{namespace}/{name}"`.
unfoldable pub slash_join : String → String → String
slash_join namespace name = String.◌++◌ namespace (String.◌++◌ "/" name)

abbrev pub NoSlash : String → Type 0
NoSlash [] = Unit
NoSlash (c ∷ s) = (code c ≢ b'/') × NoSlash s

slash-append : (s : String) → String.◌++◌ "/" s ≡ "/" ∷ s
slash-append s = rw (cons-append, nil-append)

cons_parts : (c d : Char) (s t : String) → c ∷ s ≡ d ∷ t → (c ≡ d) × (s ≡ t)
cons_parts c d s t e = (cc, cc)

join_injective :
    (a b n m : String)
    → NoSlash a
    → NoSlash b
    → String.◌++◌ a ("/" ∷ n) ≡ String.◌++◌ b ("/" ∷ m)
    → (a ≡ b) × (n ≡ m)
join_injective [] [] n m _ _ e = (refl, (cons_parts _ _ _ _ (simp nil-append at e)).1)
join_injective [] (d ∷ b) n m _ (h, _) e =
    absurd (h (ap code (sym (cons_parts _ _ _ _ (simp (nil-append, cons-append) at e)).0)))
join_injective (c ∷ a) [] n m (h, _) _ e =
    absurd (h (ap code (cons_parts _ _ _ _ (simp (nil-append, cons-append) at e)).0))
join_injective (c ∷ a) (d ∷ b) n m (_, h) (_, k) e =
    let (same, rest) = cons_parts c d _ _ (simp cons-append at e) in
    let (front, back) = join_injective a b n m h k rest in (cc, back)

-- Two pairs of names have the same key only if they are the same, provided that no namespace has a slash
-- in it.
pub slash_join_injective :
    (a b n m : String) → NoSlash a → NoSlash b → slash_join a n ≡ slash_join b m → (a ≡ b) × (n ≡ m)
unfolding slash_join
slash_join_injective a b n m h k e = join_injective a b n m h k (simp slash-append at e)
