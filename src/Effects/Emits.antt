-- ===== src/Effects/Emits.antt =====
-- What holds of every call that an action attempts: a rule for each way to build an action.
use postgres_restore_operato.Prelude.{
  ◌≡◌, refl, ℕ, Bool, true, false, Option, none, some, List, [], ◌∷◌, ◌++◌, All,
}
use postgres_restore_operato.Effects.{
  Result, ok, err, Call, M, ◌>>=◌, pure, answer, note, try, attempt, when, cases, if_ok, branch,
  requeue, for_each, or_else, catch, Error,
}

pub record Emits {A : Type 0} (P : Call → Type 0) (m : M A) : Type 0 where
  pub calls : All P m.trace

pub All-append {ℓ κ} :
    {A : Type ℓ} (P : A → Type κ) (xs ys : List A) → All P xs → All P ys → All P (xs ++ ys)
All-append P [] ys h k = k
All-append P (x ∷ xs) ys (p, h) k = (p, All-append P xs ys h k)

module _ {P : Call → Type 0} where
  then-Emits :
      {A B : Type 0} (t : List Call) (r : Result A) (f : A → M B)
      → All P t
      → ((a : A) → Emits P (f a))
      → Emits P (record { trace = t; result = r } >>= f)
  unfolding ◌>>=◌
  then-Emits t (ok a) f h k = record { calls = All-append P t (f a).trace h (k a).calls }
  then-Emits t (err e) f h k = record { calls = h }

  pub bind-Emits :
      {A B : Type 0} (m : M A) (f : A → M B)
      → Emits P m
      → ((a : A) → Emits P (f a))
      → Emits P (m >>= f)
  bind-Emits m f h k = then-Emits m.trace m.result f h.calls k

  caught-Emits :
      {A B : Type 0} (t : List Call) (r : Result A) (f : A → M B) (g : Error → M B)
      → All P t
      → ((a : A) → Emits P (f a))
      → ((e : Error) → Emits P (g e))
      → Emits P (catch (record { trace = t; result = r }) f g)
  unfolding catch
  caught-Emits t (ok a) f g h k l = record { calls = All-append P t (f a).trace h (k a).calls }
  caught-Emits t (err e) f g h k l = record { calls = All-append P t (g e).trace h (l e).calls }

  pub catch-Emits :
      {A B : Type 0} (m : M A) {f : A → M B} {g : Error → M B}
      → Emits P m
      → ((a : A) → Emits P (f a))
      → ((e : Error) → Emits P (g e))
      → Emits P (catch m f g)
  catch-Emits m {f} {g} h k l = caught-Emits m.trace m.result f g h.calls k l

  pub pure-Emits : {A : Type 0} (a : A) → Emits P (pure a)
  unfolding pure
  pure-Emits a = record { calls = tt }

  pub answer-Emits : {A : Type 0} (r : Result A) → Emits P (answer r)
  unfolding answer
  answer-Emits r = record { calls = tt }

  pub requeue-Emits : (n : ℕ) → Emits P (requeue n)
  unfolding requeue
  requeue-Emits n = record { calls = tt }

  pub note-Emits : (c : Call) → P c → Emits P (note c)
  unfolding note
  note-Emits c h = record { calls = (h, tt) }

  pub try-Emits : (accepts : Call → Bool) (c : Call) → P c → Emits P (try accepts c)
  unfolding try
  try-Emits accepts c h = record { calls = (h, tt) }

  pub attempt-Emits : (accepts : Call → Bool) (c : Call) → P c → Emits P (attempt accepts c)
  unfolding attempt
  attempt-Emits accepts c h = record { calls = (h, tt) }

  pub when-Emits : (b : Bool) {m : M (Unit {0})} → Emits P m → Emits P (when b m)
  unfolding when
  when-Emits true h = h
  when-Emits false h = record { calls = tt }

  pub cases-Emits :
      {A B : Type 0} (o : Option A) {m : M B} {f : A → M B}
      → Emits P m
      → ((a : A) → Emits P (f a))
      → Emits P (cases o m f)
  unfolding cases
  cases-Emits none h k = h
  cases-Emits (some a) h k = k a

  pub if_ok-Emits :
      {A : Type 0} (r : Result A) {f : A → M (Unit {0})}
      → ((a : A) → Emits P (f a))
      → Emits P (if_ok r f)
  unfolding if_ok
  if_ok-Emits (ok a) k = k a
  if_ok-Emits (err e) k = record { calls = tt }

  pub branch-Emits :
      {A : Type 0} (b : Bool) {m k : M A} → Emits P m → Emits P k → Emits P (branch b m k)
  unfolding branch
  branch-Emits true h k = h
  branch-Emits false h k = k

  pub for_each-Emits :
      {A : Type 0} (f : A → M (Unit {0})) (xs : List A)
      → All (λ a. Emits P (f a)) xs
      → Emits P (for_each f xs)
  unfolding for_each
  for_each-Emits f [] h = pure-Emits tt
  for_each-Emits f (x ∷ xs) (h, k) =
      let rest = for_each-Emits f xs k in bind-Emits (f x) (λ _. for_each f xs) h λ _. rest

  -- Where what is tested matters.
  pub branch-Emits_if :
      {A : Type 0} (b : Bool) {m k : M A}
      → (b ≡ true → Emits P m)
      → (b ≡ false → Emits P k)
      → Emits P (branch b m k)
  unfolding branch
  branch-Emits_if true h k = h refl
  branch-Emits_if false h k = k refl

  pub when-Emits_if : (b : Bool) {m : M (Unit {0})} → (b ≡ true → Emits P m) → Emits P (when b m)
  unfolding when
  when-Emits_if true h = h refl
  when-Emits_if false h = record { calls = tt }

  pub cases-Emits_if :
      {A B : Type 0} (o : Option A) {m : M B} {f : A → M B}
      → (o ≡ none → Emits P m)
      → ((a : A) → o ≡ some a → Emits P (f a))
      → Emits P (cases o m f)
  unfolding cases
  cases-Emits_if none h k = h refl
  cases-Emits_if (some a) h k = k a refl

  pub answer-Emits_if :
      {A B : Type 0} (r : Result A) (f : A → M B)
      → ((a : A) → r ≡ ok a → Emits P (f a))
      → Emits P (answer r >>= f)
  unfolding answer ◌>>=◌
  answer-Emits_if (ok a) f k = record { calls = (k a refl).calls }
  answer-Emits_if (err e) f k = record { calls = tt }

  pub or_else-Emits :
      {A : Type 0} (m : M (Option A)) (rest : M A)
      → Emits P m
      → Emits P rest
      → Emits P (or_else m rest)
  unfolding or_else
  or_else-Emits m rest h k = bind-Emits m _ h λ early. cases-Emits early k pure-Emits

pub ruleset emits = (
  bind-Emits, pure-Emits, answer-Emits, requeue-Emits, note-Emits, try-Emits, attempt-Emits,
  when-Emits, if_ok-Emits, cases-Emits, branch-Emits, catch-Emits,
)
