-- ===== src/Labels.antt =====
-- Labels, annotations and selectors: a `BTreeMap<String, String>` of the source as an association list, in
-- which the first entry of a key counts.
use postgres_restore_operato.Prelude.{
  ◌≡◌, refl, ◌∙◌, String, true, Option, none, some, false, not, filter, List, [], ◌∷◌, ◌==◌,
  is_some, All, if◌then◌else◌, arith, eq_iff, eq_refl,
}

abbrev pub Labels : Type 0
Labels = List (String × String)

unfoldable pub label : String → Labels → Option String
label key [] = none
label key ((k, v) ∷ labels) = let rest = label key labels in if k == key then some v else rest

-- An insert into a `BTreeMap`, which drops the older value of the key.
unfoldable pub insert : String → String → Labels → Labels
insert k v labels = (k, v) ∷ filter (λ entry. not (entry.0 == k)) labels

-- `entry(key).or_insert(value)`, for each of the others.
unfoldable pub or_insert_all : Labels → Labels → Labels
or_insert_all labels [] = labels
or_insert_all labels ((k, v) ∷ others) =
    or_insert_all (if is_some (label k labels) then labels else (k, v) ∷ labels) others

abbrev pub own_or : Option String → Option String → Option String
own_or none other = other
own_or (some own) other = some own

label-others :
    (key k : String) (labels : Labels)
    → (k == key) ≡ false
    → label key (filter (λ entry. not (entry.0 == k)) labels) ≡ label key labels
unfolding label
label-others key k [] h = refl
label-others key k ((j, v) ∷ labels) h =
    ground (arith, h, label-others key k labels h, eq_iff j k, eq_iff j key, eq_iff k key)

pub label-insert_other :
    (key k v : String) (labels : Labels)
    → (k == key) ≡ false
    → label key (insert k v labels) ≡ label key labels
unfolding label insert
label-insert_other key k v labels h = rw h (label-others key k labels h)

insert_one :
    (key k v : String) (labels : Labels) (rest : Option String)
    → own_or (label key (if is_some (label k labels) then labels else (k, v) ∷ labels)) rest
      ≡ own_or (label key labels) (if k == key then some v else rest)
unfolding label
insert_one key k v labels rest = ground (arith, eq_iff k key)

own_alone : (own : Option String) → own ≡ own_or own none
own_alone none = refl
own_alone (some own) = refl

-- A key that is there keeps its value, and one that is not takes the others'.
pub label-or_insert_all :
    (key : String) (others labels : Labels)
    → label key (or_insert_all labels others) ≡ own_or (label key labels) (label key others)
unfolding or_insert_all label
label-or_insert_all key [] labels = own_alone (label key labels)
label-or_insert_all key ((k, v) ∷ others) labels =
    label-or_insert_all key others _ ∙ insert_one key k v labels (label key others)

abbrev AllIn : Labels → Labels → Type 0
AllIn labels others = All (λ entry. is_some (label entry.0 labels) ≡ true) others

tail-AllIn :
    (k v : String) (labels others : Labels) → AllIn labels others → AllIn ((k, v) ∷ labels) others
unfolding label
tail-AllIn k v labels [] h = tt
tail-AllIn k v labels ((j, w) ∷ others) (h, rest) =
    (ground (arith, h), tail-AllIn k v labels others rest)

self-AllIn : (labels : Labels) → AllIn labels labels
unfolding label
self-AllIn [] = tt
self-AllIn ((k, v) ∷ labels) =
    (ground (arith, eq_refl k), tail-AllIn k v labels labels (self-AllIn labels))

inserted-AllIn :
    (labels others all : Labels) → AllIn all others → AllIn (or_insert_all labels all) others
inserted-AllIn labels [] all h = tt
inserted-AllIn labels ((k, v) ∷ others) all (h, rest) = (
  rw (label-or_insert_all k all labels) (ground (arith, h)),
  inserted-AllIn labels others all rest,
)

nothing_inserted :
    (labels others : Labels) → AllIn labels others → or_insert_all labels others ≡ labels
unfolding or_insert_all
nothing_inserted labels [] h = refl
nothing_inserted labels ((k, v) ∷ others) (h, rest) = rw h (nothing_inserted labels others rest)

-- What was inserted once is not inserted again.
pub or_insert_all_twice :
    (labels others : Labels)
    → or_insert_all (or_insert_all labels others) others ≡ or_insert_all labels others
or_insert_all_twice labels others =
    nothing_inserted _ others (inserted-AllIn labels others others (self-AllIn others))
