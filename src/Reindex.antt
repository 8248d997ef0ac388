-- ===== src/Reindex.antt =====
-- The watch on a locale reindex that holds a restore's readiness:
-- src/controllers/restore/reindex_watch.rs. Every duration is compared with a positive bound, so a clock
-- that steps back reads as no time passed.
pub mod Progress
use postgres_restore_operato.Prelude.{
  ℕ, ◌-◌, String, Bool, true, false, not, Option, none, some, List, [], ◌∷◌, leb, ltb, ◌==◌,
  if◌then◌else◌, filter,
}
use postgres_restore_operato.Types.{Timestamp}
use postgres_restore_operato.Scheduling.{secs}

abbrev pub stall_timeout : ℕ
stall_timeout = secs 1800

abbrev pub observe_interval : ℕ
observe_interval = secs 60

abbrev pub abandoned_after : ℕ
abandoned_after = secs 600

pub record Watch : Type 0 where
  pub progress : Option String
  pub observed_at : Timestamp
  pub changed_at : Timestamp

pub data Verdict : Type 0 where
  wait not_reindexing stalled : Verdict

-- `Option<String>` equality.
abbrev pub same_progress : Option String → Option String → Bool
same_progress none none = true
same_progress (some a) (some b) = a == b
same_progress _ _ = false

unfoldable pub record_progress : Option Watch → Option String → Timestamp → Watch
record_progress none progress now = record {
  progress = progress;
  observed_at = now;
  changed_at = now;
}
record_progress (some prev) progress now = record {
  progress = progress;
  observed_at = now;
  changed_at = if same_progress prev.progress progress then prev.changed_at else now;
}

unfoldable pub unobserved : Watch → Timestamp → Watch
unobserved previous now = record previous { observed_at = now }

unfoldable pub needs_observation : Watch → Timestamp → Bool
needs_observation w now = leb observe_interval (now - w.observed_at)

unfoldable pub is_abandoned : Watch → Timestamp → Bool
is_abandoned w now = ltb abandoned_after (now - w.observed_at)

verdict_of : Option String → Bool → Verdict
verdict_of none late = Verdict.not_reindexing
verdict_of (some p) late = if late then Verdict.stalled else Verdict.wait

unfoldable pub verdict : Watch → Timestamp → Verdict
unfolding verdict_of
verdict w now = verdict_of w.progress (ltb stall_timeout (now - w.changed_at))

-- The failure message, with the seconds that it prints.
pub data Overdue : Type 0 where
  not_ready : ℕ → ℕ → Overdue
  reindex_stalled : ℕ → ℕ → ℕ → Overdue

unfoldable pub past_budget : ℕ → ℕ → Option Verdict → Option Overdue
past_budget elapsed budget (some Verdict.wait) = none
past_budget elapsed budget (some Verdict.stalled) =
    some (Overdue.reindex_stalled elapsed budget stall_timeout)
past_budget elapsed budget (some Verdict.not_reindexing) = some (Overdue.not_ready elapsed budget)
past_budget elapsed budget none = some (Overdue.not_ready elapsed budget)

-- The map of watches in the operator's memory, keyed by `{namespace}/{restore}`.
abbrev pub Watches : Type 0
Watches = List (String × Watch)

unfoldable pub get_watch : String → Watches → Option Watch
get_watch key [] = none
get_watch key ((k, w) ∷ ws) = let rest = get_watch key ws in if k == key then some w else rest

unfoldable pub forget_watch : String → Watches → Watches
forget_watch key = filter (λ e. not (e.0 == key))

unfoldable pub insert_watch : String → Watch → Watches → Watches
unfolding forget_watch
insert_watch key w ws = (key, w) ∷ forget_watch key ws

-- What a database query of the reindex answers: an error, or the progress if one is running.
pub data Observation : Type 0 where
  failed : Observation
  answered : Option String → Observation

-- The tail of `reindex_verdict`: the new watch, if one is recorded.
unfoldable pub observe : Option Watch → Observation → Timestamp → Option Watch
unfolding record_progress unobserved
observe previous (Observation.answered progress) now = some (record_progress previous progress now)
observe (some previous) Observation.failed now = some (unobserved previous now)
observe none Observation.failed now = none

unfoldable pub settle : String → Watches → Option Watch → Timestamp → Verdict × Watches
unfolding is_abandoned insert_watch verdict
settle key ws none now = (Verdict.not_reindexing, ws)
settle key ws (some w) now =
    (verdict w now, insert_watch key w (filter (λ e. not (is_abandoned e.1 now)) ws))

unfoldable pub ask : String → Watches → Option Watch → Observation → Timestamp → Verdict × Watches
unfolding needs_observation observe settle verdict
ask key ws (some previous) answer now =
    if not (needs_observation previous now)
    then (verdict previous now, ws)
    else settle key ws (observe (some previous) answer now) now
ask key ws none answer now = settle key ws (observe none answer now) now

-- `reindex_verdict` of src/controllers/restore.rs: the verdict and the map afterwards. `answer` is what the
-- database would answer; it is read only where an observation is due.
unfoldable pub reindex_verdict : String → Watches → Observation → Timestamp → Verdict × Watches
unfolding ask get_watch
reindex_verdict key ws answer now = ask key ws (get_watch key ws) answer now
