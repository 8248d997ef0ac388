-- ===== src/Restore/Generations.antt =====
-- Which events of a replica count as changes of its spec: `GenerationGate` of src/controllers/restore.rs. The
-- map of the generations last seen is an association list.
use postgres_restore_operato.Prelude.{
  ℕ, ◌≡◌, refl, String, Bool, false, not, Option, none, some, List, [], ◌∷◌, ◌==◌, eqb,
  if◌then◌else◌, filter, arith, eq_iff,
}

-- A replica as it is watched: its `ObjectRef` as a text, whether it has a deletion timestamp, and its
-- generation, 0 where it has none.
pub record Event : Type 0 where
  pub key : String
  pub deleted : Bool
  pub generation : ℕ

abbrev pub Seen : Type 0
Seen = List (String × ℕ)

unfoldable pub generation_of : String → Seen → Option ℕ
generation_of key [] = none
generation_of key ((k, g) ∷ seen) =
    let rest = generation_of key seen in if k == key then some g else rest

abbrev forget : String → Seen → Seen
forget key seen = filter (λ entry. not (entry.0 == key)) seen

abbrev is_generation : ℕ → Option ℕ → Bool
is_generation g none = false
is_generation g (some h) = eqb h g

-- The map after an event, and whether the event is a change.
unfoldable pub changed : Seen → Event → Seen × Bool
changed seen e = if e.deleted then (forget e.key seen, false) else (
  (e.key, e.generation) ∷ forget e.key seen,
  not (is_generation e.generation (generation_of e.key seen)),
)

-- The answers of the gate to a list of events.
unfoldable pub answers : Seen → List Event → List Bool
answers seen [] = []
answers seen (e ∷ events) =
    let (seen', is_change) = changed seen e in is_change ∷ answers seen' events

-- The generation that a replica last had, if it has not been deleted since; the newest event comes first.
unfoldable pub last_generation : String → List Event → Option ℕ
last_generation key [] = none
last_generation key (e ∷ history) =
    let rest = last_generation key history in
    if e.key == key then (if e.deleted then none else some e.generation) else rest

-- An event is a change where the replica lives and did not last have this generation.
unfoldable pub spec_answers : List Event → List Event → List Bool
unfolding last_generation
spec_answers history [] = []
spec_answers history (e ∷ events) =
    (if e.deleted then false else not (is_generation e.generation (last_generation e.key history)))
    ∷ spec_answers (e ∷ history) events

generation_of-forget :
    (key k : String) (seen : Seen)
    → generation_of key (forget k seen) ≡ (if k == key then none else generation_of key seen)
unfolding generation_of
generation_of-forget key k [] = ground arith
generation_of-forget key k ((j, g) ∷ seen) =
    ground (arith, eq_iff j k, eq_iff j key, eq_iff k key, generation_of-forget key k seen)

abbrev Agrees : Seen → List Event → Type 0
Agrees seen history = (key : String) → generation_of key seen ≡ last_generation key history

changed-Agrees :
    (seen : Seen) (history : List Event) (e : Event)
    → Agrees seen history
    → Agrees (changed seen e).0 (e ∷ history)
unfolding changed generation_of last_generation
changed-Agrees seen history e h key = ground (arith, generation_of-forget key e.key seen, h key)

answers-spec :
    (events history : List Event) (seen : Seen)
    → Agrees seen history
    → answers seen events ≡ spec_answers history events
unfolding answers spec_answers changed
answers-spec [] history seen h = refl
answers-spec (e ∷ events) history seen h = ground (
  arith,
  h e.key,
  answers-spec events (e ∷ history) (changed seen e).0 (changed-Agrees seen history e h),
)

-- From its start on, the gate answers each event as the history of the events does: it is a change where the
-- replica is not being deleted, and is seen first, or for the first time since a deletion, or with
-- another generation than at its last event.
pub answers-spec_answers : (events : List Event) → answers [] events ≡ spec_answers [] events
unfolding generation_of last_generation
answers-spec_answers events = answers-spec events [] [] (λ key. refl)
