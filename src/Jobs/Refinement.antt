-- ===== src/Jobs/Refinement.antt =====
-- The `CallbackStore` of src/controllers/jobs.rs against what it promises: a map from keys to results.
use postgres_restore_operato.Prelude.{
  ℕ, ◌-◌, ◌≡◌, refl, ap, ◌∙◌, String, Bool, Option, none, some, List, [], ◌∷◌, arith, ltb, eq_iff,
  eq_refl, ◌==◌, if◌then◌else◌, filter, if_case,
}
use postgres_restore_operato.Jobs.{
  Entry, CallbackStore, store_key, get_entry, remove_entry, store, take, sweep,
}
use postgres_restore_operato.Jobs.Store.{
  payload_of, get_entry-remove_entry, get_entry-store, take-get_entry, get_entry-take,
}

-- What the callers do: a Job posts its result, a reconcile takes it, and the operator sweeps old results.
pub data Op : Type 0 where
  post : String → String → String → ℕ → Op
  collect : String → String → Op
  expire : ℕ → ℕ → Op

abbrev pub Contents : Type 0
Contents = String → Option Entry

abbrev young : ℕ → ℕ → Option Entry → Option Entry
young max_age now none = none
young max_age now (some e) = if ltb (now - e.stored_at) max_age then some e else none

-- What a map does with each operation.
abbrev spec_step : Op → Contents → Contents
spec_step (Op.post namespace name payload now) f key =
    if store_key namespace name == key
    then some (record { stored_at = now; payload = payload })
    else f key
spec_step (Op.collect namespace name) f key =
    if store_key namespace name == key then none else f key
spec_step (Op.expire max_age now) f key = young max_age now (f key)

abbrev step : Op → CallbackStore → CallbackStore
step (Op.post namespace name payload now) s = store s namespace name payload now
step (Op.collect namespace name) s = (take s namespace name).0
step (Op.expire max_age now) s = (sweep s max_age now).0

-- The results that the takes return, in their order.
abbrev pub taken : List Op → CallbackStore → List (Option String)
taken [] s = []
taken (Op.collect namespace name ∷ ops) s =
    (take s namespace name).1 ∷ taken ops (step (Op.collect namespace name) s)
taken (Op.post namespace name payload now ∷ ops) s =
    taken ops (step (Op.post namespace name payload now) s)
taken (Op.expire max_age now ∷ ops) s = taken ops (step (Op.expire max_age now) s)

abbrev pub spec_taken : List Op → Contents → List (Option String)
spec_taken [] f = []
spec_taken (Op.collect namespace name ∷ ops) f =
    payload_of (f (store_key namespace name))
    ∷ spec_taken ops (spec_step (Op.collect namespace name) f)
spec_taken (Op.post namespace name payload now ∷ ops) f =
    spec_taken ops (spec_step (Op.post namespace name payload now) f)
spec_taken (Op.expire max_age now ∷ ops) f = spec_taken ops (spec_step (Op.expire max_age now) f)

-- Each key stands once.
abbrev AllOnce : CallbackStore → Type 0
AllOnce [] = Unit
AllOnce ((k, e) ∷ s) = (get_entry k s ≡ none) × AllOnce s

absent-filter :
    (p : String × Entry → Bool) (k : String) (s : CallbackStore)
    → get_entry k s ≡ none
    → get_entry k (filter p s) ≡ none
unfolding get_entry
absent-filter p k [] h = refl
absent-filter p k ((j, e) ∷ s) h = ground (arith, h, absent-filter p k s)

AllOnce-filter : (p : String × Entry → Bool) (s : CallbackStore) → AllOnce s → AllOnce (filter p s)
AllOnce-filter p [] h = tt
AllOnce-filter p ((k, e) ∷ s) (h, rest) =
    let others = AllOnce-filter p s rest in
    if_case AllOnce (p (k, e)) _ _ (λ _. (absent-filter p k s h, others)) (λ _. others)

get_entry-young :
    (max_age now : ℕ) (key : String) (s : CallbackStore)
    → AllOnce s
    → get_entry key (filter (λ e. ltb (now - e.1.stored_at) max_age) s)
      ≡ young max_age now (get_entry key s)
unfolding get_entry
get_entry-young max_age now key [] h = refl
get_entry-young max_age now key ((k, e) ∷ s) (h, rest) =
    ground (arith, h, eq_iff k key, get_entry-young max_age now key s rest)

removed_absent : (k : String) (s : CallbackStore) → get_entry k (remove_entry k s) ≡ none
removed_absent k s = rw (get_entry-remove_entry k k s, eq_refl k) refl

abbrev Refines : CallbackStore → Contents → Type 0
Refines s f = AllOnce s × ((key : String) → get_entry key s ≡ f key)

step-Refines :
    (op : Op) (s : CallbackStore) (f : Contents)
    → Refines s f
    → Refines (step op s) (spec_step op f)
unfolding store take sweep remove_entry
step-Refines (Op.post namespace name payload now) s f (once, agree) = (
  (removed_absent (store_key namespace name) s, AllOnce-filter _ s once),
  λ key.
      get_entry-store s namespace name payload key now
      ∙ ap
          (λ rest.
            if store_key namespace name == key
            then some (record { stored_at = now; payload = payload })
            else rest)
          (agree key),
)
step-Refines (Op.collect namespace name) s f (once, agree) = (
  AllOnce-filter _ s once,
  λ key.
      get_entry-take s namespace name key
      ∙ ap (λ rest. if store_key namespace name == key then none else rest) (agree key),
)
step-Refines (Op.expire max_age now) s f (once, agree) = (
  AllOnce-filter _ s once,
  λ key. get_entry-young max_age now key s once ∙ ap (young max_age now) (agree key),
)

taken-spec_taken :
    (ops : List Op) (s : CallbackStore) (f : Contents)
    → Refines s f
    → taken ops s ≡ spec_taken ops f
taken-spec_taken [] s f h = refl
taken-spec_taken (Op.collect namespace name ∷ ops) s f h =
    rw
      (
        taken-spec_taken ops _ _ (step-Refines (Op.collect namespace name) s f h),
        take-get_entry s namespace name,
        h.1 (store_key namespace name),
      )
      refl
taken-spec_taken (Op.post namespace name payload now ∷ ops) s f h =
    taken-spec_taken ops _ _ (step-Refines (Op.post namespace name payload now) s f h)
taken-spec_taken (Op.expire max_age now ∷ ops) s f h =
    taken-spec_taken ops _ _ (step-Refines (Op.expire max_age now) s f h)

-- The store refines a map: whatever is posted, taken and swept, in whatever order, every take returns what
-- a map from keys would hold there, posted results replacing older ones, a take removing what it
-- returns, and a sweep dropping what is too old.
pub taken-refines : (ops : List Op) → taken ops [] ≡ spec_taken ops (λ key. none)
unfolding get_entry
taken-refines ops = taken-spec_taken ops [] (λ key. none) (tt, λ key. refl)
