-- ===== src/Canopy/Largest.antt =====
-- Which database is taken for the application's: `application_database` of src/controllers/postgres.rs.
use postgres_restore_operato.Prelude.{
  ℕ, ◌≤◌, ◌≡◌, refl, String, Option, none, some, List, [], ◌∷◌, arith, All, leb, ap, subst,
  unwrap_or, ◌⊎◌, inl, inr, if_case,
}
use postgres_restore_operato.Canopy.Report.{
  max_by_size, later_or, name_of, application_databases, application_database,
}

abbrev pub Among : String × ℕ → List (String × ℕ) → Type 0
Among d [] = ⊥
Among d (x ∷ xs) = (d ≡ x) ⊎ Among d xs

abbrev pub AtMost : ℕ → List (String × ℕ) → Type 0
AtMost n xs = All (λ d. d.1 ≤ n) xs

raise : (m n : ℕ) (xs : List (String × ℕ)) → m ≤ n → AtMost m xs → AtMost n xs
raise m n [] h k = tt
raise m n (x ∷ xs) h (k, l) = (omega (arith, h, k), raise m n xs h l)

-- The choice between a database and the best of the others.
chosen_lem :
    (d : String × ℕ) (xs : List (String × ℕ)) (best : Option (String × ℕ))
    → ((b : String × ℕ) → best ≡ some b → Among b xs × AtMost b.1 xs)
    → (best ≡ none → xs ≡ [])
    → Among (later_or d best) (d ∷ xs) × AtMost (later_or d best).1 (d ∷ xs)
chosen_lem d xs none h k = (inl refl, (omega arith, rw (k refl) tt))
chosen_lem d xs (some b) h k =
    if_case (λ c. Among c (d ∷ xs) × AtMost c.1 (d ∷ xs)) (leb d.1 b.1) _ _
      (λ less. (inr (h b refl).0, (ground (arith, less), (h b refl).1)))
      λ more. (inl refl, (omega arith, raise b.1 d.1 xs (ground (arith, more)) (h b refl).1))

max_none : (xs : List (String × ℕ)) → max_by_size xs ≡ none → xs ≡ []
unfolding max_by_size
max_none [] e = refl
max_none (d ∷ xs) e = cc

max_by_size_lem :
    (xs : List (String × ℕ)) (best : String × ℕ)
    → max_by_size xs ≡ some best
    → Among best xs × AtMost best.1 xs
unfolding max_by_size
max_by_size_lem [] best e = cc
max_by_size_lem (d ∷ xs) best e =
    subst (λ c. Among c (d ∷ xs) × AtMost c.1 (d ∷ xs)) (ap (λ o. unwrap_or o d) e)
      (chosen_lem d xs (max_by_size xs) (max_by_size_lem xs) (max_none xs))

named_lem :
    (xs : List (String × ℕ)) (chosen : Option (String × ℕ)) (name : String)
    → ((b : String × ℕ) → chosen ≡ some b → Among b xs × AtMost b.1 xs)
    → name_of chosen ≡ some name
    → (size : ℕ) × Among (name, size) xs × AtMost size xs
named_lem xs none name h e = cc
named_lem xs (some (n, size)) name h e =
    subst (λ m. (size : ℕ) × Among (m, size) xs × AtMost size xs) (ap (λ o. unwrap_or o name) e)
      (size, (h (n, size) refl).0, (h (n, size) refl).1)

-- The application database is the largest of the databases that PostgreSQL did not create itself.
pub application_database_lem :
    (sizes : List (String × ℕ)) (name : String)
    → application_database sizes ≡ some name
    → (size : ℕ) × Among (name, size) (application_databases sizes)
      × AtMost size (application_databases sizes)
unfolding application_database
application_database_lem sizes name e =
    named_lem _ (max_by_size (application_databases sizes)) name (max_by_size_lem _) e
