-- ===== src/Episode.antt =====
-- base/src/logger/episode.rs: the accounting of one run of failures, for the log.
use pigs.Prelude.{ℕ, ◌+◌, ◌-◌, ◌^◌, Bool, true, false, Option, none, some, leb, min, if◌then◌else◌}
pub mod Account
mod Tests

pub data EpisodeDecision : Type 0 where
  started : EpisodeDecision
  suppressed : EpisodeDecision
  summary : (total since_last_summary suppressed duration : ℕ) → EpisodeDecision
  recovered : (total suppressed duration : ℕ) → EpisodeDecision
  healthy : EpisodeDecision

pub record FailureEpisode : Type 0 where
  pub summary_interval : ℕ
  pub started_at : Option ℕ
  pub last_summary_at : Option ℕ
  pub total : ℕ
  pub suppressed_total : ℕ
  pub suppressed_since_summary : ℕ

-- `u64::saturating_add(1)`.
unfoldable pub saturating_suc : ℕ → ℕ
saturating_suc n = min (n + 1) (2 ^ 64 - 1)

-- Instants and durations count one unit from a common start; the subtraction stops at zero, as
-- `checked_duration_since(..).unwrap_or_default()` does.
unfoldable pub elapsed : ℕ → ℕ → ℕ
elapsed now earlier = now - earlier

unfoldable pub unwrap_or : Option ℕ → ℕ → ℕ
unwrap_or none d = d
unwrap_or (some x) d = x

-- `none` is the panic of the assertion.
unfoldable pub new : ℕ → Option FailureEpisode
new summary_interval =
    if leb summary_interval 0
    then none
    else (some (record {
      summary_interval = summary_interval;
      started_at = none;
      last_summary_at = none;
      total = 0;
      suppressed_total = 0;
      suppressed_since_summary = 0;
    }))

unfoldable pub first_failure : FailureEpisode → ℕ → EpisodeDecision × FailureEpisode
first_failure e now =
    (started, record e { started_at = some now; last_summary_at = some now; total = 1 })

unfoldable pub next_failure : FailureEpisode → ℕ → ℕ → EpisodeDecision × FailureEpisode
next_failure e started_at now =
    let total = saturating_suc e.total in
    if leb e.summary_interval (elapsed now (unwrap_or e.last_summary_at started_at))
    then (
      summary total (saturating_suc e.suppressed_since_summary) e.suppressed_since_summary
          (elapsed now started_at),
      record e { total = total; suppressed_since_summary = 0; last_summary_at = some now },
    )
    else (
      suppressed,
      record e {
        total = total;
        suppressed_total = saturating_suc e.suppressed_total;
        suppressed_since_summary = saturating_suc e.suppressed_since_summary;
      },
    )

-- `record_failure` once `self.started_at` is read.
unfoldable pub failure_at : Option ℕ → FailureEpisode → ℕ → EpisodeDecision × FailureEpisode
failure_at none e now = first_failure e now
failure_at (some started_at) e now = next_failure e started_at now

unfoldable pub record_failure : FailureEpisode → ℕ → EpisodeDecision × FailureEpisode
record_failure e now = failure_at e.started_at e now

unfoldable pub reset : FailureEpisode → FailureEpisode
reset e = record e {
  started_at = none;
  last_summary_at = none;
  total = 0;
  suppressed_total = 0;
  suppressed_since_summary = 0;
}

unfoldable pub success_at : Option ℕ → FailureEpisode → ℕ → EpisodeDecision × FailureEpisode
success_at none e now = (healthy, e)
success_at (some started_at) e now =
    (recovered e.total e.suppressed_total (elapsed now started_at), reset e)

unfoldable pub record_success : FailureEpisode → ℕ → EpisodeDecision × FailureEpisode
record_success e now = success_at e.started_at e now

unfoldable pub is_active : FailureEpisode → Bool
is_active e = elim e.started_at [ none ↦ false | some at ↦ true ]
