-- ===== src/Status/Conditions.antt =====
-- That an update of a condition leaves the others: src/controllers/replica/status.rs.
use postgres_restore_operato.Prelude.{
  ℕ, ◌+◌, ◌≡◌, refl, ap, String, Option, none, some, List, [], ◌∷◌, ◌==◌, if◌then◌else◌, arith,
  eq_iff, max,
}
use postgres_restore_operato.Types.{Timestamp}
use postgres_restore_operato.Effects.{Result, ok}
use postgres_restore_operato.Status.{
  condition_at, Condition, Current, overwritten, set_condition, update_condition,
}

-- The condition of a type, and how many there are.
unfoldable pub condition_of : String → List Condition → Option Condition
condition_of t [] = none
condition_of t (c ∷ cs) = let rest = condition_of t cs in if c.type_ == t then some c else rest

unfoldable pub conditions_of : String → List Condition → ℕ
conditions_of t [] = 0
conditions_of t (c ∷ cs) = (if c.type_ == t then 1 else 0) + conditions_of t cs

abbrev pub written : Option Condition → Condition → Condition
written none new = new
written (some existing) new = overwritten existing new

pub condition_of-set_condition :
    (t : String) (new : Condition) (cs : List Condition)
    → condition_of t (set_condition new cs)
      ≡ (if new.type_ == t then some (written (condition_of t cs) new) else condition_of t cs)
unfolding condition_of set_condition
condition_of-set_condition t new [] = refl
condition_of-set_condition t new (c ∷ cs) = ground (
  arith,
  eq_iff c.type_ t,
  eq_iff new.type_ t,
  eq_iff c.type_ new.type_,
  condition_of-set_condition t new cs,
)

pub conditions_of-set_condition :
    (t : String) (new : Condition) (cs : List Condition)
    → conditions_of t (set_condition new cs)
      ≡ (if new.type_ == t then max 1 (conditions_of t cs) else conditions_of t cs)
unfolding conditions_of set_condition
conditions_of-set_condition t new [] = ground arith
conditions_of-set_condition t new (c ∷ cs) = ground (
  arith,
  eq_iff c.type_ t,
  eq_iff new.type_ t,
  eq_iff c.type_ new.type_,
  conditions_of-set_condition t new cs,
)

-- Since when a status holds: the time of the old condition where it had the same status, and now otherwise.
abbrev pub since : Timestamp → String → Option Condition → Timestamp
since now status none = now
since now status (some old) = if old.status == status then old.last_transition_time else now

-- A condition that is set.
abbrev pub set_to : Timestamp → String → String → String → String → Current → Condition
set_to now type_ status reason message current = record {
  type_ = type_;
  status = status;
  reason = reason;
  message = message;
  last_transition_time = since now status (condition_of type_ current.conditions);
  observed_generation = current.generation;
}

written-set_to :
    (now : Timestamp) (type_ status reason message : String) (generation : Option ℕ)
    (old : Option Condition)
    → written old (condition_at type_ status reason message now generation) ≡ record {
      type_ = type_;
      status = status;
      reason = reason;
      message = message;
      last_transition_time = since now status old;
      observed_generation = generation;
    }
written-set_to now type_ status reason message generation none = refl
written-set_to now type_ status reason message generation (some old) = refl

-- What an accepted update patches holds the condition of its type with the new status, reason and message,
-- and since when it holds: the time of the first condition of its type before, where that had the same status,
-- and the time of the update otherwise. The first condition of every other type is left, the update adds one
-- condition where there was none of its type, and leaves the number of each type otherwise.
pub update_condition_lem :
    (current : Current) (patch_status : List Condition → Result (Unit {0})) (now : Timestamp)
    (type_ status reason message t : String) (cs : List Condition)
    → update_condition (ok current) patch_status now type_ status reason message ≡ ok cs
    → (condition_of t cs ≡ (
        if type_ == t
        then some (set_to now type_ status reason message current)
        else condition_of t current.conditions))
      × (conditions_of t cs ≡ (
          if type_ == t
          then max 1 (conditions_of t current.conditions)
          else conditions_of t current.conditions))
unfolding update_condition
update_condition_lem current patch_status now type_ status reason message t cs h =
    let new = condition_at type_ status reason message now current.generation in
    let same : set_condition new current.conditions ≡ cs = ground (arith, h) in
    ground (
      arith,
      ap (condition_of t) same,
      ap (conditions_of t) same,
      condition_of-set_condition t new current.conditions,
      written-set_to now type_ status reason message current.generation
          (condition_of type_ current.conditions),
      conditions_of-set_condition t new current.conditions,
      eq_iff type_ t,
    )
