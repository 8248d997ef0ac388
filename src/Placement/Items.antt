-- ===== src/Placement/Items.antt =====
-- The items of a comma-separated text: `parse_pairs` and `parse_tolerations` of src/placement.rs, and
-- `parse_comma_list` of src/controllers/canopy/intent.rs, which is the same split.
use postgres_restore_operato.Prelude.{
  ◌≡◌, refl, ◌∙◌, ap, String, false, not, List, [], ◌∷◌, map, filter, ◌==◌,
}
use postgres_restore_operato.Kopia.Output.{Lacks}
use postgres_restore_operato.Split.{split, join, split-Lacks, split-append}
use postgres_restore_operato.Placement.{entries}

-- An item that trimming leaves alone, not empty and without a comma.
abbrev pub AllItems : (String → String) → List String → Type 0
AllItems trim [] = Unit
AllItems trim (w ∷ ws) = (trim w ≡ w) × ((w == "") ≡ false) × Lacks 44 w × AllItems trim ws

split-join :
    (trim : String → String) (w : String) (ws : List String)
    → Lacks 44 w
    → AllItems trim ws
    → split 44 (join "," (w ∷ ws)) ≡ w ∷ ws
split-join trim w [] h k = split-Lacks 44 w h
split-join trim w (v ∷ ws) h (t, e, l, k) =
    split-append w (join "," (v ∷ ws)) h ∙ ap (λ rest. w ∷ rest) (split-join trim v ws l k)

kept_items :
    (trim : String → String) (ws : List String)
    → AllItems trim ws
    → filter (λ entry. not (entry == "")) (map trim ws) ≡ ws
kept_items trim [] h = refl
kept_items trim (w ∷ ws) (t, e, l, k) = rw (t, e, kept_items trim ws k) refl

-- Items that are trimmed, not empty and without commas, written with commas between them, are read back.
pub entries-join :
    (trim : String → String) (w : String) (ws : List String)
    → AllItems trim (w ∷ ws)
    → entries trim (join "," (w ∷ ws)) ≡ w ∷ ws
unfolding entries
entries-join trim w ws (t, e, l, k) =
    ap (λ parts. filter (λ entry. not (entry == "")) (map trim parts)) (split-join trim w ws l k)
    ∙ kept_items trim (w ∷ ws) (t, e, l, k)
