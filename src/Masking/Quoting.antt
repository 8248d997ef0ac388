-- ===== src/Masking/Quoting.antt =====
-- That a quoted identifier is read back whole: `quote_ident` of src/controllers/postgres.rs.
use Prim.Native.Char.{Char}
use Prim.Native.String.{String, [], ◌∷◌, ◌++◌}
use text.Mathlib.TextLemmas.{nil-append, cons-append, append_assoc}
use postgres_restore_operato.Prelude.{
  ◌≡◌, refl, true, false, Option, none, some, if◌then◌else◌, Bool-cases, inl, inr,
}
use postgres_restore_operato.Masking.Mask.{is_quote, double_quotes, quote_ident}

abbrev before_rest : Char → Option (String × String) → Option (String × String)
before_rest c none = none
before_rest c (some (a, rest)) = some (c ∷ a, rest)

-- What SQL reads after an opening quote, up to the quote that closes it: two quotes stand for one.
unfoldable pub read_quoted : String → Option (String × String)
read_quoted [] = none
read_quoted (c ∷ []) = if is_quote c then some ("", "") else none
read_quoted (c ∷ (d ∷ s)) =
    let doubled = before_rest c (read_quoted s) in
    let plain = before_rest c (read_quoted (d ∷ s)) in
    if is_quote c then (if is_quote d then doubled else some ("", d ∷ s)) else plain

abbrev after_quote : String → Option (String × String)
after_quote [] = none
after_quote (c ∷ s) = if is_quote c then read_quoted s else none

-- The identifier at the head of a text, and the rest.
unfoldable pub read_ident : String → Option (String × String)
unfolding read_quoted
read_ident s = after_quote s

abbrev pub OpensNone : String → Type 0
OpensNone [] = Unit
OpensNone (c ∷ s) = is_quote c ≡ false

closing : (rest : String) → OpensNone rest → read_quoted ("\"" ++ rest) ≡ some ("", rest)
unfolding read_quoted
closing [] h = refl
closing (c ∷ rest) h = rw (cons-append, nil-append, h) refl

plain_read :
    (c : Char) (s : String)
    → is_quote c ≡ false
    → read_quoted (c ∷ s) ≡ before_rest c (read_quoted s)
unfolding read_quoted
plain_read c [] h = rw h refl
plain_read c (d ∷ s) h = rw h refl

doubled_read :
    (c : Char) (s : String)
    → is_quote c ≡ true
    → read_quoted (c ∷ (c ∷ s)) ≡ before_rest c (read_quoted s)
unfolding read_quoted
doubled_read c s h = rw h refl

body_read :
    (s rest : String)
    → OpensNone rest
    → read_quoted (double_quotes s ++ ("\"" ++ rest)) ≡ some (s, rest)
unfolding double_quotes
body_read [] rest h = rw nil-append (closing rest h)
body_read (c ∷ s) rest h = elim (Bool-cases (is_quote c)) [
  | inl quoted ↦
      rw (quoted, cons-append, cons-append, doubled_read c _ quoted, body_read s rest h) refl
  | inr plain ↦ rw (plain, cons-append, plain_read c _ plain, body_read s rest h) refl
]

-- Whatever an identifier holds, what SQL reads at the head of its quotation is the identifier itself, and
-- then what follows, where that does not open with a quote: no name ends its own quotation.
pub read_ident-quote_ident :
    (s rest : String) → OpensNone rest → read_ident (quote_ident s ++ rest) ≡ some (s, rest)
unfolding read_ident quote_ident
read_ident-quote_ident s rest h =
    rw (append_assoc, cons-append, nil-append, append_assoc) (body_read s rest h)
