-- ===== src/Episode/Tests.antt =====
-- base/src/logger/episode.rs: a run on small inputs.
use pigs.Prelude.{[], ◌∷◌, none, ◌≡◌, refl, arith}
use pigs.Episode.{
  started, suppressed, summary, FailureEpisode, record_failure, failure_at, first_failure,
  next_failure, record_success, elapsed, unwrap_or, saturating_suc,
}
use pigs.Episode.Account.{failures, Settled, failures-Settled}

abbrev fresh : FailureEpisode
fresh = record {
  summary_interval = 60;
  started_at = none;
  last_summary_at = none;
  total = 0;
  suppressed_total = 0;
  suppressed_since_summary = 0;
}

-- The example of the source's tests.
episode :
    (failures fresh (0 ∷ 3 ∷ 59 ∷ 60 ∷ 120 ∷ [])).0
    ≡ started ∷ suppressed ∷ suppressed ∷ summary 4 3 2 60 ∷ summary 5 1 0 120 ∷ []
unfolding failures record_failure failure_at first_failure next_failure elapsed unwrap_or
    saturating_suc
episode = refl

failures-Settled_example :
    Settled 3 0 80
      (failures fresh (0 ∷ 3 ∷ 70 ∷ []))
      (record_success (failures fresh (0 ∷ 3 ∷ 70 ∷ [])).1 80)
failures-Settled_example =
    failures-Settled fresh 0 (3 ∷ 70 ∷ []) 80
      (record { not_started = refl; no_total = refl; no_suppressed = refl; none_since = refl })
      (omega arith)
