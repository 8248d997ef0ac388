-- ===== src/Intent/Resources.antt =====
-- The resources that the parameters of a worklist entry pin: `resolve_resources` of
-- src/controllers/canopy/intent.rs. A number of the parameters is the text of an `i64`, which is also the
-- quantity that `Quantity(b.to_string())` makes of it.
use postgres_restore_operato.Prelude.{
  ◌≡◌, refl, String, Bool, Option, none, some, List, [], ◌∷◌, ◌==◌, if◌then◌else◌, ◌||◌, is_some,
}
use postgres_restore_operato.Labels.{Labels, label, insert, label-insert_other}
use postgres_restore_operato.Types.{Quantity}

-- A JSON value: an `i64`, a text, a truth value or another.
pub data Value : Type 0 where
  integer text : String → Value
  truth : Bool → Value
  other : Value

abbrev pub Params : Type 0
Params = List (String × Value)

unfoldable pub param : String → Params → Option Value
param key [] = none
param key ((k, v) ∷ params) = let rest = param key params in if k == key then some v else rest

abbrev as_i64 : Option Value → Option String
as_i64 (some (Value.integer n)) = some n
as_i64 _ = none

abbrev as_str : Option Value → Option String
as_str (some (Value.text s)) = some s
as_str _ = none

abbrev as_bool : Option Value → Option Bool
as_bool (some (Value.truth b)) = some b
as_bool _ = none

unfoldable pub param_i64 : Params → String → Option String
param_i64 params key = as_i64 (param key params)

unfoldable pub param_str : Params → String → Option String
param_str params key = as_str (param key params)

unfoldable pub param_bool : Params → String → Option Bool
param_bool params key = as_bool (param key params)

pub record ResourceRequirements : Type 0 where
  pub requests : Option Labels
  pub limits : Option Labels

abbrev pub requests_of : Option ResourceRequirements → Option Labels
requests_of none = none
requests_of (some r) = r.requests

abbrev pub limits_of : Option ResourceRequirements → Option Labels
limits_of none = none
limits_of (some r) = r.limits

unfoldable pub set_cpu : Quantity → Option Labels → Option Labels
set_cpu cpu none = some (insert "cpu" cpu [])
set_cpu cpu (some side) = some (insert "cpu" cpu side)

unfoldable pub set_request :
    Option Quantity → Option ResourceRequirements → Option ResourceRequirements
set_request none floor = floor
set_request (some cpu) floor =
    some (record { requests = set_cpu cpu (requests_of floor); limits = limits_of floor })

unfoldable pub set_limit :
    Option Quantity → Option ResourceRequirements → Option ResourceRequirements
set_limit none floor = floor
set_limit (some cpu) floor =
    some (record { requests = requests_of floor; limits = set_cpu cpu (limits_of floor) })

-- What a side of the requirements holds.
abbrev pub held : String → Option Labels → Option Quantity
held key none = none
held key (some side) = label key side

abbrev entries_by : Option Quantity → Option Quantity → Option Labels
entries_by none none = none
entries_by none (some memory) = some (("memory", memory) ∷ [])
entries_by (some cpu) none = some (("cpu", cpu) ∷ [])
entries_by (some cpu) (some memory) = some (("cpu", cpu) ∷ ("memory", memory) ∷ [])

abbrev pinned : Quantity → Quantity → Option ResourceRequirements → ResourceRequirements
pinned request limit floor = record {
  requests = entries_by (held "cpu" (requests_of floor)) (some request);
  limits = entries_by (held "cpu" (limits_of floor)) (some limit);
}

-- The pin where a parameter names the memory; one given alone sets both.
unfoldable pub pin :
    Option Quantity → Option Quantity → Option ResourceRequirements → Option ResourceRequirements
pin none none floor = none
pin (some request) none floor = some (pinned request request floor)
pin none (some limit) floor = some (pinned limit limit floor)
pin (some request) (some limit) floor = some (pinned request limit floor)

unfoldable pub resolve_resources :
    Params → Option ResourceRequirements → Option ResourceRequirements × Option ResourceRequirements
resolve_resources p given =
    let floor =
      set_limit (param_str p "cpu_limit") (set_request (param_str p "cpu_request") given) in
    (pin (param_i64 p "memory_request") (param_i64 p "memory_limit") floor, floor)

abbrev pub given_or : Option Quantity → Option Quantity → Option Quantity
given_or none q = q
given_or (some own) q = some own

-- A quantity that counts where another is given.
abbrev pub where_given : Option Quantity → Option Quantity → Option Quantity
where_given none q = none
where_given (some _) q = q

held-set_cpu : (cpu : Quantity) (side : Option Labels) → held "cpu" (set_cpu cpu side) ≡ some cpu
unfolding set_cpu insert label
held-set_cpu cpu none = refl
held-set_cpu cpu (some side) = refl

held-set_cpu_memory :
    (cpu : Quantity) (side : Option Labels) → held "memory" (set_cpu cpu side) ≡ held "memory" side
unfolding set_cpu label insert
held-set_cpu_memory cpu none = refl
held-set_cpu_memory cpu (some side) = label-insert_other "memory" "cpu" cpu side refl

-- The requirements that an entry's parameters come to, with the floor of its intent.
abbrev pub Sized :
    Params
    → Option ResourceRequirements
    → Option ResourceRequirements × Option ResourceRequirements
    → Type 0
Sized p given (pinned_resources, floor) =
    (is_some pinned_resources
      ≡ (is_some (param_i64 p "memory_request") || is_some (param_i64 p "memory_limit")))
    × (held "cpu" (requests_of floor)
        ≡ given_or (param_str p "cpu_request") (held "cpu" (requests_of given)))
    × (held "cpu" (limits_of floor)
        ≡ given_or (param_str p "cpu_limit") (held "cpu" (limits_of given)))
    × (held "memory" (requests_of floor) ≡ held "memory" (requests_of given))
    × (held "memory" (limits_of floor) ≡ held "memory" (limits_of given))
    × (held "memory" (requests_of pinned_resources)
        ≡ given_or (param_i64 p "memory_request") (param_i64 p "memory_limit"))
    × (held "memory" (limits_of pinned_resources)
        ≡ given_or (param_i64 p "memory_limit") (param_i64 p "memory_request"))
    × (held "cpu" (requests_of pinned_resources)
        ≡ where_given (held "memory" (requests_of pinned_resources))
            (held "cpu" (requests_of floor)))
    × (held "cpu" (limits_of pinned_resources)
        ≡ where_given (held "memory" (limits_of pinned_resources)) (held "cpu" (limits_of floor)))

-- The processor and the memory of a side of a floor.
abbrev FloorBy :
    Option Quantity
    → Option Quantity
    → Option ResourceRequirements
    → Option ResourceRequirements
    → Type 0
FloorBy request limit given floor =
    (held "cpu" (requests_of floor) ≡ given_or request (held "cpu" (requests_of given)))
    × (held "cpu" (limits_of floor) ≡ given_or limit (held "cpu" (limits_of given)))
    × (held "memory" (requests_of floor) ≡ held "memory" (requests_of given))
    × (held "memory" (limits_of floor) ≡ held "memory" (limits_of given))

set_limit-FloorBy :
    (request limit : Option Quantity) (given : Option ResourceRequirements)
    → FloorBy request limit given (set_limit limit (set_request request given))
unfolding set_limit set_request
set_limit-FloorBy none none given = (refl, refl, refl, refl)
set_limit-FloorBy none (some l) given =
    (refl, held-set_cpu l (limits_of given), refl, held-set_cpu_memory l (limits_of given))
set_limit-FloorBy (some r) none given =
    (held-set_cpu r (requests_of given), refl, held-set_cpu_memory r (requests_of given), refl)
set_limit-FloorBy (some r) (some l) given = (
  held-set_cpu r (requests_of given),
  held-set_cpu l (limits_of given),
  held-set_cpu_memory r (requests_of given),
  held-set_cpu_memory l (limits_of given),
)

memory_entry :
    (cpu : Option Quantity) (m : Quantity) → held "memory" (entries_by cpu (some m)) ≡ some m
unfolding label
memory_entry none m = refl
memory_entry (some c) m = refl

cpu_entry : (cpu : Option Quantity) (m : Quantity) → held "cpu" (entries_by cpu (some m)) ≡ cpu
unfolding label
cpu_entry none m = refl
cpu_entry (some c) m = refl

-- The memory and the processor that are pinned.
abbrev PinnedBy :
    Option Quantity
    → Option Quantity
    → Option ResourceRequirements
    → Option ResourceRequirements
    → Type 0
PinnedBy request limit floor pinned_resources =
    (is_some pinned_resources ≡ (is_some request || is_some limit))
    × (held "memory" (requests_of pinned_resources) ≡ given_or request limit)
    × (held "memory" (limits_of pinned_resources) ≡ given_or limit request)
    × (held "cpu" (requests_of pinned_resources)
        ≡ where_given (held "memory" (requests_of pinned_resources))
            (held "cpu" (requests_of floor)))
    × (held "cpu" (limits_of pinned_resources)
        ≡ where_given (held "memory" (limits_of pinned_resources)) (held "cpu" (limits_of floor)))

counted :
    (memory : Option Quantity) (m : Quantity) (cpu kept : Option Quantity)
    → memory ≡ some m
    → cpu ≡ kept
    → cpu ≡ where_given memory kept
counted memory m cpu kept h k = rw h k

pinned-PinnedBy :
    (r l : Quantity) (floor : Option ResourceRequirements)
    → PinnedBy (some r) (some l) floor (some (pinned r l floor))
pinned-PinnedBy r l floor =
    let cpu_request = held "cpu" (requests_of floor) in
    let cpu_limit = held "cpu" (limits_of floor) in
    (
      refl,
      memory_entry cpu_request r,
      memory_entry cpu_limit l,
      counted _ r _ _ (memory_entry cpu_request r) (cpu_entry cpu_request r),
      counted _ l _ _ (memory_entry cpu_limit l) (cpu_entry cpu_limit l),
    )

pin-PinnedBy :
    (request limit : Option Quantity) (floor : Option ResourceRequirements)
    → PinnedBy request limit floor (pin request limit floor)
unfolding pin
pin-PinnedBy none none floor = (refl, refl, refl, refl, refl)
pin-PinnedBy (some r) none floor = pinned-PinnedBy r r floor
pin-PinnedBy none (some l) floor = pinned-PinnedBy l l floor
pin-PinnedBy (some r) (some l) floor = pinned-PinnedBy r l floor

-- A processor parameter replaces the processor of the floor on its side, and leaves its memory; memory is
-- pinned on both sides where either parameter names it, each side's own first, and what is pinned keeps
-- the processor of the floor; without a memory parameter nothing is pinned.
pub resolve_resources-Sized :
    (p : Params) (given : Option ResourceRequirements) → Sized p given (resolve_resources p given)
unfolding resolve_resources
resolve_resources-Sized p given =
    let floor =
      set_limit (param_str p "cpu_limit") (set_request (param_str p "cpu_request") given) in
    let (a, b, c, d) =
      set_limit-FloorBy (param_str p "cpu_request") (param_str p "cpu_limit") given in
    let (n, e, f, g, h) =
      pin-PinnedBy (param_i64 p "memory_request") (param_i64 p "memory_limit") floor in
    (n, a, b, c, d, e, f, g, h)
