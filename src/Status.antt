-- ===== src/Status.antt =====
-- The conditions of a replica's status: `update_condition` of src/controllers/replica/status.rs. A write is the
-- list that is patched, or the error.
pub mod Conditions
use postgres_restore_operato.Prelude.{
  ℕ, String, Bool, Option, List, [], ◌∷◌, ◌==◌, if◌then◌else◌, none, some,
}
use postgres_restore_operato.Types.{Timestamp}
use postgres_restore_operato.Effects.{Result, ok, err}

pub record Condition : Type 0 where
  pub type_ : String
  pub status : String
  pub reason : String
  pub message : String
  pub last_transition_time : Timestamp
  pub observed_generation : Option ℕ

-- What `replicas.get(name)` answers of the replica.
pub record Current : Type 0 where
  pub generation : Option ℕ
  pub conditions : List Condition

abbrev pub overwritten : Condition → Condition → Condition
overwritten existing new = record new {
  last_transition_time =
      if existing.status == new.status
      then existing.last_transition_time
      else new.last_transition_time;
}

-- The first condition of the type is overwritten, and where there is none it is pushed.
unfoldable pub set_condition : Condition → List Condition → List Condition
set_condition new [] = new ∷ []
set_condition new (c ∷ conditions) =
    let rest = set_condition new conditions in
    if c.type_ == new.type_ then overwritten c new ∷ conditions else c ∷ rest

abbrev patched : (List Condition → Result (Unit {0})) → List Condition → Result (List Condition)
patched patch_status conditions = elim (patch_status conditions) [
  | ok done ↦ ok conditions
  | err e ↦ err e
]

abbrev pub condition_at : String → String → String → String → Timestamp → Option ℕ → Condition
condition_at type_ status reason message now generation = record {
  type_ = type_;
  status = status;
  reason = reason;
  message = message;
  last_transition_time = now;
  observed_generation = generation;
}

unfoldable pub update_condition :
    Result Current
    → (List Condition → Result (Unit {0}))
    → Timestamp
    → String
    → String
    → String
    → String
    → Result (List Condition)
update_condition (err e) patch_status now type_ status reason message = err e
update_condition (ok current) patch_status now type_ status reason message = patched patch_status (
    set_condition (condition_at type_ status reason message now current.generation)
      current.conditions)
