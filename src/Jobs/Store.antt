-- ===== src/Jobs/Store.antt =====
-- What a poster of results and the reconcile that takes them can rely on: the `CallbackStore` of
-- src/controllers/jobs.rs.
use postgres_restore_operato.Prelude.{
  ℕ, ◌+◌, ◌-◌, ◌≡◌, refl, String, false, Option, none, some, [], ◌∷◌, arith, ltb, leb, Bool-cases,
  inl, inr, sym, eq_iff, eq_refl, NoSlash, slash_join, slash_join_injective, ◌==◌, if◌then◌else◌,
  filter, length,
}
use postgres_restore_operato.Jobs.{
  Entry, CallbackStore, store_key, get_entry, remove_entry, store, take, sweep,
}

pub get_entry-remove_entry :
    (k j : String) (s : CallbackStore)
    → get_entry j (remove_entry k s) ≡ (if k == j then none else get_entry j s)
unfolding get_entry remove_entry
get_entry-remove_entry k j [] = ground arith
get_entry-remove_entry k j ((i, e) ∷ s) =
    ground (arith, get_entry-remove_entry k j s, eq_iff i k, eq_iff i j, eq_iff k j)

pub get_entry-store :
    (s : CallbackStore) (namespace name payload key : String) (now : ℕ)
    → get_entry key (store s namespace name payload now) ≡ (
        if store_key namespace name == key
        then some (record { stored_at = now; payload = payload })
        else get_entry key s)
unfolding store get_entry
get_entry-store s namespace name payload key now = ground (
  arith,
  get_entry-remove_entry (store_key namespace name) key s,
  eq_iff (store_key namespace name) key,
)

-- The result that `take` returns.
abbrev pub payload_of : Option Entry → Option String
payload_of none = none
payload_of (some e) = some e.payload

pub take-get_entry :
    (s : CallbackStore) (namespace name : String)
    → (take s namespace name).1 ≡ payload_of (get_entry (store_key namespace name) s)
unfolding take
take-get_entry s namespace name = ground arith

pub get_entry-take :
    (s : CallbackStore) (namespace name key : String)
    → get_entry key (take s namespace name).0
      ≡ (if store_key namespace name == key then none else get_entry key s)
unfolding take
get_entry-take s namespace name key = get_entry-remove_entry (store_key namespace name) key s

-- A result that is posted is the one that is taken, whatever was posted before it, and it is taken once.
pub take-store :
    (s : CallbackStore) (namespace name payload : String) (now : ℕ)
    → let (s', taken) = take (store s namespace name payload now) namespace name in
      (taken ≡ some payload) × ((take s' namespace name).1 ≡ none)
take-store s namespace name payload now =
    let key = store_key namespace name in
    let s' = store s namespace name payload now in
    (
      rw
          (
            take-get_entry s' namespace name,
            get_entry-store s namespace name payload key now,
            eq_refl key,
          )
          refl,
      rw
          (
            take-get_entry (take s' namespace name).0 namespace name,
            get_entry-take s' namespace name key,
            eq_refl key,
          )
          refl,
    )

keys_differ :
    (a n b m : String)
    → NoSlash a
    → NoSlash b
    → ¬ ((a ≡ b) × (n ≡ m))
    → (store_key a n == store_key b m) ≡ false
unfolding store_key
keys_differ a n b m h k differ = elim (Bool-cases (slash_join a n == slash_join b m)) [
  | inl same ↦ absurd (differ (slash_join_injective a b n m h k ((eq_iff _ _).0 same)))
  | inr other ↦ other
]

-- Posting and taking for one replica leaves the results of every other replica alone; namespaces hold no
-- slash.
pub take-store_other :
    (s : CallbackStore) (namespace name other_namespace other payload : String) (now : ℕ)
    → NoSlash namespace
    → NoSlash other_namespace
    → ¬ ((namespace ≡ other_namespace) × (name ≡ other))
    → ((take (store s namespace name payload now) other_namespace other).1
        ≡ (take s other_namespace other).1)
      × ((take (take s namespace name).0 other_namespace other).1
          ≡ (take s other_namespace other).1)
take-store_other s namespace name other_namespace other payload now h k differ =
    let apart = keys_differ namespace name other_namespace other h k differ in
    let key = store_key other_namespace other in
    let s' = store s namespace name payload now in
    (
      rw
          (
            take-get_entry s' other_namespace other,
            get_entry-store s namespace name payload key now,
            apart,
          )
          (sym (take-get_entry s other_namespace other)),
      rw
          (
            take-get_entry (take s namespace name).0 other_namespace other,
            get_entry-take s namespace name key,
            apart,
          )
          (sym (take-get_entry s other_namespace other)),
    )

length-sweep :
    (s : CallbackStore) (max_age now : ℕ)
    → length (filter (λ e. ltb (now - e.1.stored_at) max_age) s)
        + length (filter (λ e. leb max_age (now - e.1.stored_at)) s)
      ≡ length s
length-sweep [] max_age now = omega arith
length-sweep (e ∷ s) max_age now = ground (arith, length-sweep s max_age now)

-- A sweep reports exactly how many entries were at least `max_age` old.
pub sweep_lem :
    (s : CallbackStore) (max_age now : ℕ)
    → (sweep s max_age now).1 ≡ length (filter (λ e. leb max_age (now - e.1.stored_at)) s)
unfolding sweep
sweep_lem s max_age now = omega (arith, length-sweep s max_age now)
