-- ===== src/Masking/Masks.antt =====
-- What an applied manifest promises: `apply` of src/controllers/replica/redaction/apply.rs counts each mask
-- that it could not put on its column.
use postgres_restore_operato.Prelude.{
  ℕ, ◌≡◌, String, Bool, true, false, ◌&&◌, Option, none, some, List, [], ◌∷◌, ◌==◌, if_case, any,
  All, arith, eq_refl, Bool-cases, inl, inr,
}
use postgres_restore_operato.Masking.{ColumnMask}
use postgres_restore_operato.Masking.Apply.{
  Statement, Sent, Row, Database, ByTable, send, push, push_assignment, same_key, key_before,
  retry_columns, apply_table_masks, apply_masks, group_masks, assignment_of, grouped,
}

abbrev pub has : String × String → List (String × String) → Bool
has (c, e) assignments = any (λ a. a.0 == c && a.1 == e) assignments

abbrev pub statement_sets : String → String → String × String → Statement → Bool
statement_sets s t a (Statement.update schema table assignments) =
    schema == s && (table == t && has a assignments)
statement_sets s t a _ = false

-- That an accepted statement set a column of a table to an expression.
abbrev pub sets : String → String → String × String → Statement × Bool → Bool
sets s t a (stmt, accepted) = accepted && statement_sets s t a stmt

abbrev pub assigned : String → String → String × String → Sent → Bool
assigned s t a sent = any (sets s t a) sent

-- What was sent stays sent.
retry_columns-keeps :
    (db : Database) (schema table : String) (p : Statement × Bool → Bool)
    (assignments : List (String × String)) (sent : Sent)
    → any p sent ≡ true
    → any p (retry_columns db schema table assignments sent).0 ≡ true
unfolding retry_columns
retry_columns-keeps db schema table p [] sent h = h
retry_columns-keeps db schema table p (b ∷ assignments) sent h =
    retry_columns-keeps db schema table p assignments _ (ground (arith, h))

retry_columns-sets :
    (db : Database) (schema table s t : String) (a : String × String)
    (assignments : List (String × String)) (sent : Sent)
    → same_key (schema, table) (s, t) ≡ true
    → (retry_columns db schema table assignments sent).1 ≡ 0
    → has a assignments ≡ true
    → assigned s t a (retry_columns db schema table assignments sent).0 ≡ true
unfolding retry_columns
retry_columns-sets db schema table s t a [] sent same h k = cc
retry_columns-sets db schema table s t (c, e) (b ∷ assignments) sent same h k =
    elim (Bool-cases (b.0 == c && b.1 == e)) [
      | inl here ↦
          retry_columns-keeps db schema table (sets s t (c, e)) assignments _
            (ground (arith, h, here, same))
      | inr other ↦
          retry_columns-sets db schema table s t (c, e) assignments _ same (ground (arith, h))
            (ground (arith, k, other))
    ]

apply_table_masks-keeps :
    (db : Database) (schema table : String) (p : Statement × Bool → Bool)
    (assignments : List (String × String)) (sent : Sent)
    → any p sent ≡ true
    → any p (apply_table_masks db schema table assignments sent).0 ≡ true
unfolding apply_table_masks
apply_table_masks-keeps db schema table p assignments sent h =
    let sent' = send db sent (Statement.update schema table assignments) in
    let kept : any p sent' ≡ true = ground (arith, h) in
    ground (arith, kept, retry_columns-keeps db schema table p assignments sent' kept)

apply_table_masks-sets :
    (db : Database) (schema table s t : String) (a : String × String)
    (assignments : List (String × String)) (sent : Sent)
    → same_key (schema, table) (s, t) ≡ true
    → (apply_table_masks db schema table assignments sent).1 ≡ 0
    → has a assignments ≡ true
    → assigned s t a (apply_table_masks db schema table assignments sent).0 ≡ true
unfolding apply_table_masks
apply_table_masks-sets db schema table s t a assignments sent same h k =
    let stmt = Statement.update schema table assignments in
    elim (Bool-cases (db.accepts sent stmt)) [
      | inl fine ↦ rw fine (ground (arith, fine, k, same))
      | inr refused ↦
          rw refused
            (retry_columns-sets db schema table s t a assignments _ same (rw refused at h) k)
    ]

abbrev pub holds : String × String → String × String → ByTable → Bool
holds key a by_table = any (λ entry. same_key entry.0 key && has a entry.1) by_table

pub apply_masks-keeps :
    (db : Database) (p : Statement × Bool → Bool) (by_table : ByTable) (sent : Sent)
    → any p sent ≡ true
    → any p (apply_masks db by_table sent).0 ≡ true
unfolding apply_masks
apply_masks-keeps db p [] sent h = h
apply_masks-keeps db p (((schema, table), assignments) ∷ by_table) sent h =
    apply_masks-keeps db p by_table _ (apply_table_masks-keeps db schema table p assignments sent h)

apply_masks-sets :
    (db : Database) (s t : String) (a : String × String) (by_table : ByTable) (sent : Sent)
    → (apply_masks db by_table sent).1 ≡ 0
    → holds (s, t) a by_table ≡ true
    → assigned s t a (apply_masks db by_table sent).0 ≡ true
unfolding apply_masks
apply_masks-sets db s t a [] sent h k = cc
apply_masks-sets db s t a (((schema, table), assignments) ∷ by_table) sent h k =
    elim (Bool-cases (same_key (schema, table) (s, t) && has a assignments)) [
      | inl here ↦ apply_masks-keeps db (sets s t a) by_table _ (
          apply_table_masks-sets db schema table s t a assignments sent (ground (arith, here))
            (ground (arith, h)) (ground (arith, here)))
      | inr other ↦
          apply_masks-sets db s t a by_table _ (ground (arith, h)) (ground (arith, k, other))
    ]

has-push :
    (a : String × String) (assignments : List (String × String)) → has a (push assignments a) ≡ true
has-push (c, e) [] = ground (arith, eq_refl c, eq_refl e)
has-push (c, e) (b ∷ assignments) = ground (arith, has-push (c, e) assignments)

has-push_other :
    (a b : String × String) (assignments : List (String × String))
    → has a assignments ≡ true
    → has a (push assignments b) ≡ true
has-push_other a b [] h = cc
has-push_other (c, e) b (d ∷ assignments) h = ground (arith, h, has-push_other (c, e) b assignments)

same_key_refl : (key : String × String) → same_key key key ≡ true
same_key_refl (s, t) = ground (arith, eq_refl s, eq_refl t)

push_assignment-holds :
    (key a : String × String) (by_table : ByTable)
    → holds key a (push_assignment key a by_table) ≡ true
unfolding push_assignment
push_assignment-holds key (c, e) [] = ground (arith, same_key_refl key, eq_refl c, eq_refl e)
push_assignment-holds key (c, e) ((k, assignments) ∷ by_table) =
    if_case (λ b. holds key (c, e) b ≡ true) (same_key k key) _ _
      (λ same. ground (arith, same, has-push (c, e) assignments))
      (λ other.
        if_case (λ b. holds key (c, e) b ≡ true) (key_before key k) _ _
          (λ before. ground (arith, same_key_refl key, eq_refl c, eq_refl e))
          (λ after. ground (arith, push_assignment-holds key (c, e) by_table)))

push_assignment-keeps :
    (key a other b : String × String) (by_table : ByTable)
    → holds other b by_table ≡ true
    → holds other b (push_assignment key a by_table) ≡ true
unfolding push_assignment
push_assignment-keeps key a other b [] h = cc
push_assignment-keeps key a other b ((k, assignments) ∷ by_table) h =
    if_case (λ bs. holds other b bs ≡ true) (same_key k key) _ _
      (λ same. ground (arith, h, has-push_other b a assignments))
      (λ differs.
        if_case (λ bs. holds other b bs ≡ true) (key_before key k) _ _ (λ before. ground (arith, h))
          (λ after. ground (arith, h, push_assignment-keeps key a other b by_table)))

grouped-keeps :
    (mask : ColumnMask) (o : Option (String × String)) (by_table : ByTable) (failed : ℕ)
    → (grouped mask o by_table failed).1 ≡ 0
    → failed ≡ 0
grouped-keeps mask none by_table failed h = absurd (omega (arith, h))
grouped-keeps mask (some a) by_table failed h = h

grouped-holds :
    (mask : ColumnMask) (o : Option (String × String)) (by_table : ByTable) (failed : ℕ)
    (key a : String × String)
    → holds key a by_table ≡ true
    → holds key a (grouped mask o by_table failed).0 ≡ true
grouped-holds mask none by_table failed key a h = h
grouped-holds mask (some b) by_table failed key a h =
    push_assignment-keeps (mask.schema, mask.table) b key a by_table h

-- What a mask sets its column to is among the columns to set.
abbrev pub Grouped : ColumnMask → Option (String × String) → ByTable → Type 0
Grouped mask none by_table = ⊥
Grouped mask (some a) by_table = holds (mask.schema, mask.table) a by_table ≡ true

grouped-Grouped :
    (mask : ColumnMask) (o : Option (String × String)) (by_table : ByTable) (failed : ℕ)
    → (grouped mask o by_table failed).1 ≡ 0
    → Grouped mask o (grouped mask o by_table failed).0
grouped-Grouped mask none by_table failed h = omega (arith, h)
grouped-Grouped mask (some a) by_table failed h =
    push_assignment-holds (mask.schema, mask.table) a by_table

-- The failures counted so far are kept.
group_masks-keeps :
    (rows : List Row) (masks : List ColumnMask) (by_table : ByTable) (failed : ℕ)
    → (group_masks rows masks by_table failed).1 ≡ 0
    → failed ≡ 0
unfolding group_masks
group_masks-keeps rows [] by_table failed h = h
group_masks-keeps rows (mask ∷ masks) by_table failed h =
    grouped-keeps mask (assignment_of rows mask) by_table failed
      (group_masks-keeps rows masks _ _ h)

group_masks-holds :
    (rows : List Row) (masks : List ColumnMask) (by_table : ByTable) (failed : ℕ)
    (key a : String × String)
    → holds key a by_table ≡ true
    → holds key a (group_masks rows masks by_table failed).0 ≡ true
unfolding group_masks
group_masks-holds rows [] by_table failed key a h = h
group_masks-holds rows (mask ∷ masks) by_table failed key a h =
    group_masks-holds rows masks _ _ key a
      (grouped-holds mask (assignment_of rows mask) by_table failed key a h)

Grouped-mono :
    (mask : ColumnMask) (o : Option (String × String)) (before after : ByTable)
    → ((key a : String × String) → holds key a before ≡ true → holds key a after ≡ true)
    → Grouped mask o before
    → Grouped mask o after
Grouped-mono mask none before after keep h = h
Grouped-mono mask (some a) before after keep h = keep (mask.schema, mask.table) a h

pub group_masks-Grouped :
    (rows : List Row) (masks : List ColumnMask) (by_table : ByTable) (failed : ℕ)
    → (group_masks rows masks by_table failed).1 ≡ 0
    → All
        (λ mask. Grouped mask (assignment_of rows mask) (group_masks rows masks by_table failed).0)
        masks
unfolding group_masks
group_masks-Grouped rows [] by_table failed h = tt
group_masks-Grouped rows (mask ∷ masks) by_table failed h =
    let o = assignment_of rows mask in
    let step = grouped mask o by_table failed in
    (
      Grouped-mono mask o step.0 (group_masks rows masks step.0 step.1).0
          (λ key a held. group_masks-holds rows masks step.0 step.1 key a held)
          (grouped-Grouped mask o by_table failed (group_masks-keeps rows masks _ _ h)),
      group_masks-Grouped rows masks step.0 step.1 h,
    )

-- That a mask is on its column: an accepted statement set the column to the expression of the mask.
abbrev pub MaskedBy : ColumnMask → Option (String × String) → Sent → Type 0
MaskedBy mask none sent = ⊥
MaskedBy mask (some a) sent = assigned mask.schema mask.table a sent ≡ true

apply_masks-MaskedBy :
    (db : Database) (by_table : ByTable) (sent : Sent) (mask : ColumnMask)
    (o : Option (String × String))
    → (apply_masks db by_table sent).1 ≡ 0
    → Grouped mask o by_table
    → MaskedBy mask o (apply_masks db by_table sent).0
apply_masks-MaskedBy db by_table sent mask none h g = g
apply_masks-MaskedBy db by_table sent mask (some a) h g =
    apply_masks-sets db mask.schema mask.table a by_table sent h g

pub All-masked :
    (db : Database) (rows : List Row) (by_table : ByTable) (sent : Sent) (masks : List ColumnMask)
    → (apply_masks db by_table sent).1 ≡ 0
    → All (λ mask. Grouped mask (assignment_of rows mask) by_table) masks
    → All (λ mask. MaskedBy mask (assignment_of rows mask) (apply_masks db by_table sent).0) masks
All-masked db rows by_table sent [] h g = tt
All-masked db rows by_table sent (mask ∷ masks) h (g, rest) = (
  apply_masks-MaskedBy db by_table sent mask (assignment_of rows mask) h g,
  All-masked db rows by_table sent masks h rest,
)
