-- ===== src/Effects/Opens.antt =====
-- When an action that answers a Bool answers `true`: a rule for each way to build an action.
use postgres_restore_operato.Prelude.{
  ◌≡◌, refl, Bool, true, false, not, ◌||◌, Option, none, some, List,
}
use postgres_restore_operato.Effects.{
  Error, Result, ok, err, Call, M, ◌>>=◌, pure, answer, cases, branch, catch,
}

abbrev pub passed : Result Bool → Bool
passed (ok done) = done
passed (err e) = false

-- Only under the condition.
pub record Opens (condition : Bool) (m : M Bool) : Type 0 where
  pub only : (not (passed m.result) || condition) ≡ true

module _ {condition : Bool} where
  then-Opens :
      {A : Type 0} (t : List Call) (r : Result A) (f : A → M Bool)
      → ((a : A) → Opens condition (f a))
      → Opens condition (record { trace = t; result = r } >>= f)
  unfolding ◌>>=◌
  then-Opens t (ok a) f h = record { only = (h a).only }
  then-Opens t (err e) f h = record { only = refl }

  pub bind-Opens :
      {A : Type 0} (m : M A) (f : A → M Bool)
      → ((a : A) → Opens condition (f a))
      → Opens condition (m >>= f)
  bind-Opens m f h = then-Opens m.trace m.result f h

  pub answer-Opens_if :
      {A : Type 0} (r : Result A) (f : A → M Bool)
      → ((a : A) → r ≡ ok a → Opens condition (f a))
      → Opens condition (answer r >>= f)
  unfolding answer ◌>>=◌
  answer-Opens_if (ok a) f h = record { only = (h a refl).only }
  answer-Opens_if (err e) f h = record { only = refl }

  caught-Opens :
      {A : Type 0} (t : List Call) (r : Result A) (f : A → M Bool) (g : Error → M Bool)
      → ((a : A) → r ≡ ok a → Opens condition (f a))
      → ((e : Error) → Opens condition (g e))
      → Opens condition (catch (record { trace = t; result = r }) f g)
  unfolding catch
  caught-Opens t (ok a) f g h k = record { only = (h a refl).only }
  caught-Opens t (err e) f g h k = record { only = (k e).only }

  pub catch-Opens_if :
      {A : Type 0} (m : M A) {f : A → M Bool} {g : Error → M Bool}
      → ((a : A) → m.result ≡ ok a → Opens condition (f a))
      → ((e : Error) → Opens condition (g e))
      → Opens condition (catch m f g)
  catch-Opens_if m {f} {g} h k = caught-Opens m.trace m.result f g h k

  pub catch-Opens :
      {A : Type 0} (m : M A) {f : A → M Bool} {g : Error → M Bool}
      → ((a : A) → Opens condition (f a))
      → ((e : Error) → Opens condition (g e))
      → Opens condition (catch m f g)
  catch-Opens m h k = catch-Opens_if m (λ a _. h a) k

  pub pure-Opens : (b : Bool) → (not b || condition) ≡ true → Opens condition (pure b)
  unfolding pure
  pure-Opens b h = record { only = h }

  pub err-Opens : (e : Error) → Opens condition (answer (err e))
  unfolding answer
  err-Opens e = record { only = refl }

  pub cases-Opens :
      {A : Type 0} (o : Option A) {m : M Bool} {f : A → M Bool}
      → Opens condition m
      → ((a : A) → Opens condition (f a))
      → Opens condition (cases o m f)
  unfolding cases
  cases-Opens none h k = h
  cases-Opens (some a) h k = k a

  pub cases-Opens_if :
      {A : Type 0} (o : Option A) {m : M Bool} {f : A → M Bool}
      → (o ≡ none → Opens condition m)
      → ((a : A) → o ≡ some a → Opens condition (f a))
      → Opens condition (cases o m f)
  unfolding cases
  cases-Opens_if none h k = h refl
  cases-Opens_if (some a) h k = k a refl

  pub branch-Opens :
      (b : Bool) {m k : M Bool}
      → Opens condition m
      → Opens condition k
      → Opens condition (branch b m k)
  unfolding branch
  branch-Opens true h k = h
  branch-Opens false h k = k

  pub branch-Opens_if :
      (b : Bool) {m k : M Bool}
      → (b ≡ true → Opens condition m)
      → (b ≡ false → Opens condition k)
      → Opens condition (branch b m k)
  unfolding branch
  branch-Opens_if true h k = h refl
  branch-Opens_if false h k = k refl

pub ruleset opening = (bind-Opens, catch-Opens, pure-Opens, err-Opens, cases-Opens, branch-Opens)
