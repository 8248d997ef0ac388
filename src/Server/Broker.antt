-- ===== src/Server/Broker.antt =====
-- The credentials broker of the operator: `post_restore_creds` of src/bin/operator.rs, at which a proxy
-- refreshes its short-lived credentials. Times are nanoseconds; the body is what canopy gave, rendered.
use postgres_restore_operato.Prelude.{
  ℕ, ◌+◌, ◌-◌, ◌<◌, ◌≡◌, ◌⊎◌, refl, String, Bool, true, false, Option, none, some, List, [], ◌∷◌,
  ltb, leb, ◌==◌, if◌then◌else◌, if_case, All, arith, inl, inr,
}
use postgres_restore_operato.Types.{Timestamp}
use postgres_restore_operato.Scheduling.{secs}
use postgres_restore_operato.Effects.{Result, ok, err}

pub record Credentials : Type 0 where
  pub body : String
  pub expiration : Timestamp

pub record CachedCreds : Type 0 where
  pub credentials : Credentials
  pub expires_at : Timestamp

-- The cache, by the group, the type and the run of a request, rendered as one text.
abbrev pub Cache : Type 0
Cache = List (String × CachedCreds)

-- One request: its key, the time, and what canopy answers if it is asked.
pub record Asked : Type 0 where
  pub key : String
  pub now : Timestamp
  pub restore_credentials : Result Credentials

pub data Answer : Type 0 where
  served : Credentials → Answer
  bad_gateway service_unavailable : Answer

unfoldable pub get_cached : String → Cache → Option CachedCreds
get_cached key [] = none
get_cached key ((k, c) ∷ cache) =
    let rest = get_cached key cache in if k == key then some c else rest

-- 120 s before the credentials expire; `checked_sub` fails below the first instant.
unfoldable pub expires_at : Timestamp → Timestamp
expires_at expiration = if leb (secs 120) expiration then expiration - secs 120 else expiration

abbrev pub is_live : Timestamp → Option CachedCreds → Bool
is_live now none = false
is_live now (some cached) = ltb now cached.expires_at

unfoldable ask : Cache → Asked → Result Credentials → Cache × Answer
ask cache asked (err e) = (cache, Answer.bad_gateway)
ask cache asked (ok credentials) = (
  (asked.key, record { credentials = credentials; expires_at = expires_at credentials.expiration })
      ∷ cache,
  Answer.served credentials,
)

unfoldable from_cache : Cache → Asked → Option CachedCreds → Cache × Answer
unfolding ask
from_cache cache asked none = ask cache asked asked.restore_credentials
from_cache cache asked (some cached) =
    let fresh = ask cache asked asked.restore_credentials in
    if ltb asked.now cached.expires_at then (cache, Answer.served cached.credentials) else fresh

-- `has_canopy` says whether a canopy client is configured. An insert shadows the key's older entry.
unfoldable pub post_restore_creds : Bool → Cache → Asked → Cache × Answer
unfolding from_cache
post_restore_creds false cache asked = (cache, Answer.service_unavailable)
post_restore_creds true cache asked = from_cache cache asked (get_cached asked.key cache)

-- The answers to a list of requests, each with the request.
abbrev pub answers : Bool → Cache → List Asked → List (Asked × Answer)
answers has_canopy cache [] = []
answers has_canopy cache (asked ∷ requests) =
    let (cache', answer) = post_restore_creds has_canopy cache asked in
    (asked, answer) ∷ answers has_canopy cache' requests

-- How long credentials are kept out of use before they expire.
abbrev margin : Timestamp → ℕ
margin expiration = if leb (secs 120) expiration then secs 120 else 0

-- What canopy just gave, or what it gave before and is good for the margin.
abbrev pub Good : Asked × Answer → Type 0
Good (asked, Answer.served credentials) =
    (asked.restore_credentials ≡ ok credentials)
    ⊎ (asked.now + margin credentials.expiration < credentials.expiration)
Good (asked, _) = Unit

abbrev Kept : CachedCreds → Type 0
Kept cached = cached.expires_at ≡ expires_at cached.credentials.expiration

abbrev AllKept : Cache → Type 0
AllKept cache = All (λ entry. Kept entry.1) cache

abbrev KeptIf : Option CachedCreds → Type 0
KeptIf none = Unit
KeptIf (some cached) = Kept cached

get_cached-Kept : (key : String) (cache : Cache) → AllKept cache → KeptIf (get_cached key cache)
unfolding get_cached
get_cached-Kept key [] h = tt
get_cached-Kept key ((k, c) ∷ cache) (h, rest) =
    let others = get_cached-Kept key cache rest in
    if_case KeptIf (k == key) _ _ (λ _. h) (λ _. others)

margin_lem :
    (now expiration : ℕ) → now < expires_at expiration → now + margin expiration < expiration
unfolding expires_at
margin_lem now expiration h = ground (arith, h)

abbrev Sound : Asked → Cache × Answer → Type 0
Sound asked (cache, answer) = AllKept cache × Good (asked, answer)

ask-Sound :
    (cache : Cache) (asked : Asked) (given : Result Credentials)
    → asked.restore_credentials ≡ given
    → AllKept cache
    → Sound asked (ask cache asked given)
unfolding ask
ask-Sound cache asked (err e) h kept = (kept, tt)
ask-Sound cache asked (ok credentials) h kept = ((refl, kept), inl h)

from_cache-Sound :
    (cache : Cache) (asked : Asked) (cached : Option CachedCreds)
    → KeptIf cached
    → AllKept cache
    → Sound asked (from_cache cache asked cached)
unfolding from_cache
from_cache-Sound cache asked none h kept = ask-Sound cache asked _ refl kept
from_cache-Sound cache asked (some cached) h kept =
    if_case (Sound asked) (ltb asked.now cached.expires_at) _ _
      (λ live.
        (kept, inr (margin_lem asked.now cached.credentials.expiration (ground (arith, h, live)))))
      (λ _. ask-Sound cache asked _ refl kept)

post_restore_creds-Sound :
    (has_canopy : Bool) (cache : Cache) (asked : Asked)
    → AllKept cache
    → Sound asked (post_restore_creds has_canopy cache asked)
unfolding post_restore_creds
post_restore_creds-Sound false cache asked kept = (kept, tt)
post_restore_creds-Sound true cache asked kept =
    from_cache-Sound cache asked _ (get_cached-Kept asked.key cache kept) kept

answers-Kept :
    (has_canopy : Bool) (requests : List Asked) (cache : Cache)
    → AllKept cache
    → All Good (answers has_canopy cache requests)
answers-Kept has_canopy [] cache kept = tt
answers-Kept has_canopy (asked ∷ requests) cache kept =
    let sound = post_restore_creds-Sound has_canopy cache asked kept in
    (sound.1, answers-Kept has_canopy requests _ sound.0)

-- Whatever is asked of the broker from its start on, the credentials that it serves are those that canopy
-- gives for the request, or ones that do not expire within 120 s of it (where they expire less than
-- 120 s after the first instant, ones that have not expired).
pub answers-Good :
    (has_canopy : Bool) (requests : List Asked) → All Good (answers has_canopy [] requests)
answers-Good has_canopy requests = answers-Kept has_canopy requests [] tt
