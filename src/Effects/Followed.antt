-- ===== src/Effects/Followed.antt =====
-- Calls that must be followed by another: each call that `trigger` picks has, later in the same action,
-- one that `closing` picks. A rule for each way to build an action.
use postgres_restore_operato.Prelude.{
  ℕ, ◌≡◌, Bool, true, false, not, Option, none, some, [], ◌∷◌, ◌++◌, any, if◌then◌else◌, arith,
}
use postgres_restore_operato.Effects.{
  Result, ok, err, Call, Trace, outcome, M, ◌>>=◌, pure, answer, note, try, attempt, when, cases,
  if_ok, branch, requeue,
}

abbrev pub AllFollowed : (Call → Bool) → (Call → Bool) → Trace → Type 0
AllFollowed trigger closing [] = Unit
AllFollowed trigger closing (c ∷ t) =
    ((if trigger c then any closing t else true) ≡ true) × AllFollowed trigger closing t

pub record Followed {A : Type 0} (trigger closing : Call → Bool) (m : M A) : Type 0 where
  pub calls : AllFollowed trigger closing m.trace

any-append : (p : Call → Bool) (t u : Trace) → any p t ≡ true → any p (t ++ u) ≡ true
any-append p [] u h = ground arith
any-append p (c ∷ t) u h = ground (arith, any-append p t u)

module _ (trigger closing : Call → Bool) where
  append-Followed :
      (t u : Trace)
      → AllFollowed trigger closing t
      → AllFollowed trigger closing u
      → AllFollowed trigger closing (t ++ u)
  append-Followed [] u h k = k
  append-Followed (c ∷ t) u (p, h) k =
      (ground (arith, any-append closing t u), append-Followed t u h k)

module _ {trigger closing : Call → Bool} where
  then-Followed :
      {A B : Type 0} (t : Trace) (r : Result A) (f : A → M B)
      → AllFollowed trigger closing t
      → ((a : A) → Followed trigger closing (f a))
      → Followed trigger closing (record { trace = t; result = r } >>= f)
  unfolding ◌>>=◌
  then-Followed t (ok a) f h k = record {
    calls = append-Followed trigger closing t (f a).trace h (k a).calls;
  }
  then-Followed t (err e) f h k = record { calls = h }

  pub bind-Followed :
      {A B : Type 0} (m : M A) (f : A → M B)
      → Followed trigger closing m
      → ((a : A) → Followed trigger closing (f a))
      → Followed trigger closing (m >>= f)
  bind-Followed m f h k = then-Followed m.trace m.result f h.calls k

  written-Followed :
      {B : Type 0} (accepted : Bool) (c r : Call) (f : Unit {0} → M B)
      → (if accepted then true else not (trigger c)) ≡ true
      → closing r ≡ true
      → trigger r ≡ false
      → Followed trigger closing (f tt)
      → Followed trigger closing
          (record { trace = c ∷ []; result = outcome accepted } >>= λ _. note r >>= f)
  unfolding ◌>>=◌ note outcome
  written-Followed true c r f refused h k rest = record {
    calls = (ground arith, (ground arith, rest.calls));
  }
  written-Followed false c r f refused h k rest = record { calls = (ground arith, tt) }

  -- A triggering write, and then the call that closes it: where the write is refused nothing is owed.
  pub try-note-Followed :
      {B : Type 0} (accepts : Call → Bool) (c r : Call) (f : Unit {0} → M B)
      → (if accepts c then true else not (trigger c)) ≡ true
      → closing r ≡ true
      → trigger r ≡ false
      → Followed trigger closing (f tt)
      → Followed trigger closing (try accepts c >>= λ _. note r >>= f)
  unfolding try
  try-note-Followed accepts c r f = written-Followed (accepts c) c r f

  pub pure-Followed : {A : Type 0} (a : A) → Followed trigger closing (pure a)
  unfolding pure
  pure-Followed a = record { calls = tt }

  pub answer-Followed : {A : Type 0} (r : Result A) → Followed trigger closing (answer r)
  unfolding answer
  answer-Followed r = record { calls = tt }

  pub requeue-Followed : (n : ℕ) → Followed trigger closing (requeue n)
  unfolding requeue
  requeue-Followed n = record { calls = tt }

  pub note-Followed : (c : Call) → trigger c ≡ false → Followed trigger closing (note c)
  unfolding note
  note-Followed c h = record { calls = (ground arith, tt) }

  pub try-Followed :
      (accepts : Call → Bool) (c : Call)
      → trigger c ≡ false
      → Followed trigger closing (try accepts c)
  unfolding try
  try-Followed accepts c h = record { calls = (ground arith, tt) }

  pub attempt-Followed :
      (accepts : Call → Bool) (c : Call)
      → trigger c ≡ false
      → Followed trigger closing (attempt accepts c)
  unfolding attempt
  attempt-Followed accepts c h = record { calls = (ground arith, tt) }

  pub when-Followed :
      (b : Bool) {m : M (Unit {0})}
      → Followed trigger closing m
      → Followed trigger closing (when b m)
  unfolding when
  when-Followed true h = h
  when-Followed false h = record { calls = tt }

  pub cases-Followed :
      {A B : Type 0} (o : Option A) {m : M B} {f : A → M B}
      → Followed trigger closing m
      → ((a : A) → Followed trigger closing (f a))
      → Followed trigger closing (cases o m f)
  unfolding cases
  cases-Followed none h k = h
  cases-Followed (some a) h k = k a

  pub if_ok-Followed :
      {A : Type 0} (r : Result A) {f : A → M (Unit {0})}
      → ((a : A) → Followed trigger closing (f a))
      → Followed trigger closing (if_ok r f)
  unfolding if_ok
  if_ok-Followed (ok a) k = k a
  if_ok-Followed (err e) k = record { calls = tt }

  pub branch-Followed :
      {A : Type 0} (b : Bool) {m k : M A}
      → Followed trigger closing m
      → Followed trigger closing k
      → Followed trigger closing (branch b m k)
  unfolding branch
  branch-Followed true h k = h
  branch-Followed false h k = k

pub ruleset followed = (
  try-note-Followed, bind-Followed, pure-Followed, answer-Followed, requeue-Followed, note-Followed,
  try-Followed, attempt-Followed, when-Followed, if_ok-Followed, cases-Followed, branch-Followed,
)
