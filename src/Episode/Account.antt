-- ===== src/Episode/Account.antt =====
-- base/src/logger/episode.rs: every failure of a run is reported once.
use pigs.Prelude.{
  ℕ, ◌+◌, ◌-◌, ◌^◌, ◌≤◌, ◌<◌, none, some, List, [], ◌∷◌, leb, if_intro, length, ◌≡◌, refl, arith,
  ◌∙◌, sym, ap, ap₂, subst,
}
use pigs.Episode.{
  EpisodeDecision, started, suppressed, summary, recovered, healthy, FailureEpisode, saturating_suc,
  elapsed, unwrap_or, new, first_failure, next_failure, failure_at, record_failure, reset,
  success_at, record_success,
}

-- The calls `record_failure` at the given times, with the decisions in order.
unfoldable pub failures : FailureEpisode → List ℕ → List EpisodeDecision × FailureEpisode
failures e [] = ([], e)
failures e (now ∷ times) =
    let r = record_failure e now in let rest = failures r.1 times in (r.0 ∷ rest.0, rest.1)

-- How many failures a decision tells the log of: the first one, or those since the last summary.
abbrev pub reported : EpisodeDecision → ℕ
reported started = 1
reported suppressed = 0
reported (summary total since held duration) = since
reported (recovered total held duration) = 0
reported healthy = 0

abbrev pub silent : EpisodeDecision → ℕ
silent started = 0
silent suppressed = 1
silent (summary total since held duration) = 0
silent (recovered total held duration) = 0
silent healthy = 0

abbrev pub sum : (EpisodeDecision → ℕ) → List EpisodeDecision → ℕ
sum f [] = 0
sum f (d ∷ ds) = f d + sum f ds

abbrev pub u64_max : ℕ
u64_max = 2 ^ 64 - 1

-- No failure has been recorded since the start, or since the last recovery.
pub record IsIdle (e : FailureEpisode) : Type 0 where
  pub not_started : e.started_at ≡ none
  pub no_total : e.total ≡ 0
  pub no_suppressed : e.suppressed_total ≡ 0
  pub none_since : e.suppressed_since_summary ≡ 0

-- The effect of one more failure on a run that has begun.
record Counted (e : FailureEpisode) (at : ℕ) (r : EpisodeDecision × FailureEpisode) : Type 0 where
  begun : r.1.started_at ≡ some at
  one_more : r.1.total ≡ e.total + 1
  told : reported r.0 + r.1.suppressed_since_summary ≡ e.suppressed_since_summary + 1
  untold : silent r.0 + e.suppressed_total ≡ r.1.suppressed_total
  within : r.1.suppressed_since_summary ≤ r.1.suppressed_total
  below : r.1.suppressed_total ≤ r.1.total

next_failure-Counted :
    (e : FailureEpisode) (at now : ℕ)
    → e.started_at ≡ some at
    → e.total < u64_max
    → e.suppressed_since_summary ≤ e.suppressed_total
    → e.suppressed_total ≤ e.total
    → Counted e at (next_failure e at now)
unfolding next_failure saturating_suc
next_failure-Counted e at now begun small within below =
    let total = saturating_suc e.total in
    if_intro (leb e.summary_interval (elapsed now (unwrap_or e.last_summary_at at))) (Counted e at)
      (record {
        begun = begun;
        one_more = ground arith;
        told = ground arith;
        untold = ground arith;
        within = ground arith;
        below = ground arith;
      })
      (record {
        begun = begun;
        one_more = ground arith;
        told = ground arith;
        untold = ground arith;
        within = ground arith;
        below = ground arith;
      })

record_failure-Counted :
    (e : FailureEpisode) (at now : ℕ)
    → e.started_at ≡ some at
    → e.total < u64_max
    → e.suppressed_since_summary ≤ e.suppressed_total
    → e.suppressed_total ≤ e.total
    → Counted e at (record_failure e now)
unfolding record_failure failure_at
record_failure-Counted e at now begun small within below =
    subst (λ o. Counted e at (failure_at o e now)) (sym begun)
      (next_failure-Counted e at now begun small within below)

-- The effect of a run of failures on one that has begun.
record Run (e : FailureEpisode) (at n : ℕ) (r : List EpisodeDecision × FailureEpisode)
    : Type 0 where
  begun : r.1.started_at ≡ some at
  counted : r.1.total ≡ e.total + n
  told : sum reported r.0 + r.1.suppressed_since_summary ≡ e.suppressed_since_summary + n
  untold : sum silent r.0 + e.suppressed_total ≡ r.1.suppressed_total

failures-Run :
    (e : FailureEpisode) (at : ℕ) (times : List ℕ)
    → e.started_at ≡ some at
    → e.total + length times ≤ u64_max
    → e.suppressed_since_summary ≤ e.suppressed_total
    → e.suppressed_total ≤ e.total
    → Run e at (length times) (failures e times)
unfolding failures
failures-Run e at [] begun small within below = record {
  begun = begun;
  counted = omega arith;
  told = omega arith;
  untold = omega arith;
}
failures-Run e at (now ∷ times) begun small within below =
    let r = record_failure e now in
    let c = record_failure-Counted e at now begun (omega arith) within below in
    let rest = failures-Run r.1 at times c.begun (omega arith) c.within c.below in
    record {
      begun = rest.begun;
      counted = ground arith;
      told = ground arith;
      untold = ground arith;
    }

-- The account of a run of failures and the success that ends it: the first failure is told of when
-- it comes; the decisions of the run tell of each failure once, but for those since the last summary;
-- the success gives the number of failures and how many of them were suppressed, and the next run
-- starts from nothing.
unfoldable pub Settled :
    ℕ → ℕ → ℕ → List EpisodeDecision × FailureEpisode → EpisodeDecision × FailureEpisode → Type 0
Settled n first now run end =
    (sum reported run.0 + run.1.suppressed_since_summary ≡ n)
    × (sum silent run.0 ≡ run.1.suppressed_total)
    × (end.0 ≡ recovered n (sum silent run.0) (elapsed now first))
    × IsIdle end.1

success-begun :
    (e : FailureEpisode) (at now : ℕ)
    → e.started_at ≡ some at
    → record_success e now ≡ (recovered e.total e.suppressed_total (elapsed now at), reset e)
unfolding record_success success_at
success-begun e at now begun = ap (λ o. success_at o e now) begun

reset-IsIdle : (e : FailureEpisode) → IsIdle (reset e)
unfolding reset
reset-IsIdle e = record {
  not_started = refl;
  no_total = refl;
  no_suppressed = refl;
  none_since = refl;
}

abbrev begun_at : FailureEpisode → ℕ → FailureEpisode
begun_at e now = record e { started_at = some now; last_summary_at = some now; total = 1 }

record_failure-idle :
    (e : FailureEpisode) (now : ℕ) → IsIdle e → record_failure e now ≡ (started, begun_at e now)
unfolding record_failure failure_at first_failure
record_failure-idle e now idle = ap (λ o. failure_at o e now) idle.not_started

after_first-Settled :
    (e : FailureEpisode) (first : ℕ) (times : List ℕ) (now : ℕ)
    → IsIdle e
    → length (first ∷ times) ≤ u64_max
    → let rest = failures (begun_at e first) times in
      Settled
        (length (first ∷ times))
        first
        now
        (started ∷ rest.0, rest.1)
        (record_success rest.1 now)
unfolding Settled
after_first-Settled e first times now idle small =
    let run =
      failures-Run (begun_at e first) first times refl (omega arith) (ground arith)
        (ground arith) in
    let rest = failures (begun_at e first) times in
    let end = success-begun rest.1 first now run.begun in
    let total : rest.1.total ≡ length (first ∷ times) = ground arith in
    let held : rest.1.suppressed_total ≡ sum silent (started ∷ rest.0) = ground arith in
    (
      ground arith,
      ground arith,
      ap (λ p. p.0) end ∙ ap₂ (λ a b. recovered a b (elapsed now first)) total held,
      subst (λ p. IsIdle p.1) (sym end) (reset-IsIdle rest.1),
    )

-- From an idle state, after 1 to 2^64 - 1 failures at any times and a success, every failure was
-- told of once, by the start or by a summary, or came after the last summary; the recovery tells
-- their number, how many of their decisions were `Suppressed` and the time since the first one; the state is idle again.
pub failures-Settled :
    (e : FailureEpisode) (first : ℕ) (times : List ℕ) (now : ℕ)
    → IsIdle e
    → length (first ∷ times) ≤ u64_max
    → Settled
        (length (first ∷ times))
        first
        now
        (failures e (first ∷ times))
        (record_success (failures e (first ∷ times)).1 now)
unfolding failures
failures-Settled e first times now idle small =
    subst
      (λ (r : EpisodeDecision × FailureEpisode).
        let rest = failures r.1 times in
        Settled (length (first ∷ times)) first now (r.0 ∷ rest.0, rest.1)
          (record_success rest.1 now))
      (sym (record_failure-idle e first idle)) (after_first-Settled e first times now idle small)

-- A new episode, whose interval has to be positive, is idle.
pub new-IsIdle :
    (interval : ℕ) → 0 < interval → (e : FailureEpisode) × (new interval ≡ some e) × IsIdle e
unfolding new
new-IsIdle interval positive =
    let e : FailureEpisode = record {
      summary_interval = interval;
      started_at = none;
      last_summary_at = none;
      total = 0;
      suppressed_total = 0;
      suppressed_since_summary = 0;
    } in
    (
      e,
      ground arith,
      record { not_started = refl; no_total = refl; no_suppressed = refl; none_since = refl },
    )
