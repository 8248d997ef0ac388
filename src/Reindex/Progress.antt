-- ===== src/Reindex/Progress.antt =====
-- How long a reindex may hold a restore: `reindex_verdict` of src/controllers/restore.rs, polled over and over
-- for any restores.
use postgres_restore_operato.Prelude.{
  ◌+◌, ◌≡◌, refl, sym, ◌∙◌, String, Bool, true, false, not, ltb, leb, none, some, List, [], ◌∷◌,
  ◌==◌, arith, eq_iff, eq_refl, filter, if◌then◌else◌, Option, Bool-cases, inl, inr, ap, unwrap_or,
  subst,
}
use postgres_restore_operato.Types.{Timestamp}
use postgres_restore_operato.Scheduling.{secs}
use postgres_restore_operato.Reindex.{
  Watch, Watches, Verdict, Observation, record_progress, unobserved, verdict, get_watch,
  insert_watch, forget_watch, is_abandoned, needs_observation, observe, settle, ask,
  reindex_verdict,
}

-- The polls of any restores, one after the other: whose, when, and what the database answers.
abbrev pub Polls : Type 0
Polls = List (String × Timestamp × Observation)

unfoldable pub poll_all : Watches → Polls → Watches
poll_all ws [] = ws
poll_all ws ((key, now, answer) ∷ polls) = poll_all (reindex_verdict key ws answer now).1 polls

-- A poll that fails or finds that the progress is still `p`.
abbrev pub IsStill : String → Observation → Type 0
IsStill p Observation.failed = Unit
IsStill p (Observation.answered none) = ⊥
IsStill p (Observation.answered (some q)) = p ≡ q

-- A watch that was observed in the last ten minutes.
abbrev seen_lately : Option Watch → Timestamp → Bool
seen_lately none now = false
seen_lately (some w) now = leb now (w.observed_at + secs 600)

-- A poll of the restore itself, or of another one.
abbrev Polled : Bool → String → Option Watch → Timestamp → Observation → Type 0
Polled true p watch now answer = IsStill p answer
Polled false p watch now answer = seen_lately watch now ≡ true

-- Polls that find the restore's progress still, and that come, those of other restores, within ten minutes of
-- the last observation of it.
abbrev pub Steady : String → String → Watches → Polls → Type 0
Steady key p ws [] = Unit
Steady key p ws ((k, now, answer) ∷ polls) =
    Polled (k == key) p (get_watch key ws) now answer
    × Steady key p (reindex_verdict k ws answer now).1 polls

-- A restore has a watch, whose progress is `p` since a time.
abbrev pub Held : String → String → Timestamp → Watches → Type 0
Held key p since ws =
    (w : Watch) × (get_watch key ws ≡ some w) × (w.progress ≡ some p) × (w.changed_at ≡ since)

get_watch-filter :
    (key : String) (p : Watch → Bool) (w : Watch) (ws : Watches)
    → p w ≡ true
    → get_watch key ws ≡ some w
    → get_watch key (filter (λ e. p e.1) ws) ≡ some w
unfolding get_watch
get_watch-filter key p w [] h e = cc
get_watch-filter key p w (x ∷ ws) h e = elim (Bool-cases (x.0 == key)) [
  | inl here ↦
      let same : some x.1 ≡ some w = ground (arith, e, here) in
      let kept : p x.1 ≡ true = ap (λ o. p (unwrap_or o x.1)) same ∙ h in rw (kept, here) same
  | inr there ↦
      let later : get_watch key ws ≡ some w = ground (arith, e, there) in
      elim (Bool-cases (p x.1)) [
        | inl kept ↦ rw (kept, there) (get_watch-filter key p w ws h later)
        | inr dropped ↦ rw dropped (get_watch-filter key p w ws h later)
      ]
]

get_watch-forget :
    (key k : String) (ws : Watches)
    → (k == key) ≡ false
    → get_watch key (forget_watch k ws) ≡ get_watch key ws
unfolding get_watch forget_watch
get_watch-forget key k [] h = refl
get_watch-forget key k (x ∷ ws) h =
    ground (arith, h, get_watch-forget key k ws h, eq_iff x.0 k, eq_iff x.0 key, eq_iff k key)

record_progress_still :
    (w : Watch) (p q : String) (now : Timestamp)
    → w.progress ≡ some p
    → p ≡ q
    → ((record_progress (some w) (some q) now).progress ≡ some p)
      × ((record_progress (some w) (some q) now).changed_at ≡ w.changed_at)
unfolding record_progress
record_progress_still w p q now h e = ground (arith, eq_iff p q)

module _ (key p : String) (since : Timestamp) where
  -- What the restore's own poll comes to.
  abbrev Answered : Verdict × Watches → Timestamp → Type 0
  Answered done now =
      (done.0 ≡ (if ltb (since + secs 1800) now then Verdict.stalled else Verdict.wait))
      × Held key p since done.1

  verdict_still :
      (w : Watch) (now : Timestamp)
      → w.progress ≡ some p
      → w.changed_at ≡ since
      → verdict w now ≡ (if ltb (since + secs 1800) now then Verdict.stalled else Verdict.wait)
  unfolding verdict
  verdict_still w now h e = ground arith

  settle_own :
      (ws : Watches) (w : Watch) (now : Timestamp)
      → w.progress ≡ some p
      → w.changed_at ≡ since
      → Answered (settle key ws (some w) now) now
  unfolding settle insert_watch get_watch
  settle_own ws w now h e = (verdict_still w now h e, (w, rw (eq_refl key) refl, h, e))

  observed_own :
      (ws : Watches) (w : Watch) (answer : Observation) (now : Timestamp)
      → w.progress ≡ some p
      → w.changed_at ≡ since
      → IsStill p answer
      → Answered (settle key ws (observe (some w) answer now) now) now
  unfolding observe unobserved
  observed_own ws w Observation.failed now h e still =
      settle_own ws (record w { observed_at = now }) now h e
  observed_own ws w (Observation.answered none) now h e still = absurd still
  observed_own ws w (Observation.answered (some q)) now h e still =
      let (same, kept) = record_progress_still w p q now h still in
      settle_own ws (record_progress (some w) (some q) now) now same (kept ∙ e)

  own_poll :
      (ws : Watches) (answer : Observation) (now : Timestamp)
      → Held key p since ws
      → IsStill p answer
      → Answered (reindex_verdict key ws answer now) now
  unfolding reindex_verdict ask
  own_poll ws answer now (w, there, h, e) still =
      rw there (elim (Bool-cases (needs_observation w now)) [
        | inl due ↦ rw due (observed_own ws w answer now h e still)
        | inr early ↦ rw early (verdict_still w now h e, (w, there, h, e))
      ])

  -- A poll of another restore leaves a watch that was observed lately.
  recorded_other :
      (k : String) (ws : Watches) (new w : Watch) (now : Timestamp)
      → (k == key) ≡ false
      → get_watch key ws ≡ some w
      → seen_lately (some w) now ≡ true
      → get_watch key (settle k ws (some new) now).1 ≡ some w
  unfolding settle insert_watch get_watch
  recorded_other k ws new w now other there lately =
      let fresh : not (is_abandoned w now) ≡ true = unfold is_abandoned in ground (arith, lately) in
      rw other (
        get_watch-forget key k _ other
        ∙ get_watch-filter key (λ v. not (is_abandoned v now)) w ws fresh there)

  settled_other :
      (k : String) (ws : Watches) (new : Option Watch) (w : Watch) (now : Timestamp)
      → (k == key) ≡ false
      → get_watch key ws ≡ some w
      → seen_lately (some w) now ≡ true
      → get_watch key (settle k ws new now).1 ≡ some w
  settled_other k ws (some new) w now other there lately =
      recorded_other k ws new w now other there lately
  settled_other k ws none w now other there lately = unfold settle in there

  asked_other :
      (k : String) (ws : Watches) (previous : Option Watch) (answer : Observation) (w : Watch)
      (now : Timestamp)
      → (k == key) ≡ false
      → get_watch key ws ≡ some w
      → seen_lately (some w) now ≡ true
      → get_watch key (ask k ws previous answer now).1 ≡ some w
  unfolding ask
  asked_other k ws none answer w now other there lately =
      settled_other k ws _ w now other there lately
  asked_other k ws (some previous) answer w now other there lately =
      elim (Bool-cases (needs_observation previous now)) [
        | inl due ↦ rw due (settled_other k ws _ w now other there lately)
        | inr early ↦ rw early there
      ]

  other_poll :
      (k : String) (ws : Watches) (answer : Observation) (now : Timestamp)
      → (k == key) ≡ false
      → Held key p since ws
      → seen_lately (get_watch key ws) now ≡ true
      → Held key p since (reindex_verdict k ws answer now).1
  unfolding reindex_verdict
  other_poll k ws answer now other (w, there, h, e) lately = (
    w,
    asked_other k ws (get_watch k ws) answer w now other there
        (subst (λ o. seen_lately o now ≡ true) there lately),
    h,
    e,
  )

  step_Held :
      (k : String) (ws : Watches) (answer : Observation) (now : Timestamp) (own : Bool)
      → (k == key) ≡ own
      → Held key p since ws
      → Polled own p (get_watch key ws) now answer
      → Held key p since (reindex_verdict k ws answer now).1
  step_Held k ws answer now true same held still =
      let mine : k ≡ key = ground (arith, same, eq_iff k key) in
      subst (λ j. Held key p since (reindex_verdict j ws answer now).1) (sym mine)
        (own_poll ws answer now held still).1
  step_Held k ws answer now false other held lately = other_poll k ws answer now other held lately

  poll_all-Held :
      (polls : Polls) (ws : Watches)
      → Held key p since ws
      → Steady key p ws polls
      → Held key p since (poll_all ws polls)
  unfolding poll_all
  poll_all-Held [] ws held h = held
  poll_all-Held ((k, now, answer) ∷ polls) ws held (h, rest) =
      poll_all-Held polls (reindex_verdict k ws answer now).1
        (step_Held k ws answer now (k == key) refl held h) rest

  -- Where a restore has a watch whose progress is `p` since some time, then however often it and other restores
  -- are polled, while its own polls fail or still find `p`, and those of the others come within ten minutes of its
  -- last observation: its next poll, if that fails or still finds `p`, says to wait until 30 minutes after
  -- that time, and that the reindex is stalled after that.
  pub reindex_verdict-poll_all :
      (ws : Watches) (polls : Polls) (answer : Observation) (now : Timestamp)
      → Held key p since ws
      → Steady key p ws polls
      → IsStill p answer
      → (reindex_verdict key (poll_all ws polls) answer now).0
        ≡ (if ltb (since + secs 1800) now then Verdict.stalled else Verdict.wait)
  reindex_verdict-poll_all ws polls answer now held steady still =
      (own_poll (poll_all ws polls) answer now (poll_all-Held polls ws held steady) still).0
