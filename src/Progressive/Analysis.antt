-- ===== src/Progressive/Analysis.antt =====
-- analysisFailure and failedMetricMessage: the message of the latest failed analysis.
use steadystate.Prelude.{
  Bytes, bytes, Option, none, some, List, [], ◌∷◌, ◌++◌, ltb, if◌then◌else◌, Result, ok, err,
}
use steadystate.Prelude.Text.{trim_space}
use steadystate.Status.Observe.{AnalysisPhase, AnalysisRunStatus, Rollout, is_empty_text}
use steadystate.Reconcile.Cluster.{ApiError}
use steadystate.Progressive.Server.{
  Fetched, not_found, no_match, failed, found, Metric, AnalysisRun, Server,
}

-- The phases that end an analysis badly, with their text.
abbrev pub bad_phase : AnalysisPhase → Option Bytes
bad_phase AnalysisPhase.failed = some (bytes "Failed")
bad_phase AnalysisPhase.error = some (bytes "Error")
bad_phase AnalysisPhase.inconclusive = some (bytes "Inconclusive")
bad_phase (AnalysisPhase.other p) = none

abbrev pub metric_text : Bytes → Bytes → Bytes → Bytes
metric_text name phase message =
    bytes "metric " ++ name ++ bytes " is " ++ phase ++ bytes ": " ++ message

abbrev pub or_else : Bytes → Bytes → Bytes
or_else [] other = other
or_else (c ∷ s) other = c ∷ s

-- The loop of failedMetricMessage, for the message of the run.
unfoldable pub failed_metric : Bytes → List Metric → Bytes
failed_metric message [] = []
failed_metric message (m ∷ ms) = elim (bad_phase m.phase) [
  | some phase ↦ metric_text m.name phase (or_else (trim_space m.message) (trim_space message))
  | none ↦ failed_metric message ms
]

-- failedMetricMessage.
unfoldable pub failed_metric_message : AnalysisRun → Bytes
unfolding failed_metric
failed_metric_message run = failed_metric run.message run.metrics

-- `sort.Slice` on the runs, newest first. Runs of the same instant stay in their order here; Go leaves
-- theirs open.
unfoldable pub insert_newest : AnalysisRun → List AnalysisRun → List AnalysisRun
insert_newest r [] = r ∷ []
insert_newest r (q ∷ qs) =
    let rest = insert_newest r qs in if ltb r.created q.created then q ∷ rest else r ∷ q ∷ qs

unfoldable pub newest_first : List AnalysisRun → List AnalysisRun
unfolding insert_newest
newest_first [] = []
newest_first (r ∷ rs) = insert_newest r (newest_first rs)

-- The last loop of analysisFailure: the first message that is not empty, or `last`.
unfoldable pub first_failure : Bytes → List AnalysisRun → Bytes
first_failure last [] = last
first_failure last (r ∷ rs) = or_else (failed_metric_message r) (first_failure last rs)

module _ (server : Server) (rollout : Rollout) where
  -- The runs of the Application.
  unfoldable pub latest_failure : Result ApiError Bytes
  latest_failure = elim server.analysis_runs [
    | err e ↦ err e
    | ok runs ↦ ok (first_failure rollout.message (newest_first runs))
  ]

  -- The message of a Bytes, or what follows.
  abbrev pub or_latest : Bytes → Result ApiError Bytes → Result ApiError Bytes
  or_latest [] rest = rest
  or_latest (c ∷ s) rest = ok (c ∷ s)

  -- The analysis of the current step.
  unfoldable pub step_failure : AnalysisRunStatus → Fetched AnalysisRun → Result ApiError Bytes
  step_failure current not_found = or_latest current.message latest_failure
  step_failure current (no_match e) = err e
  step_failure current (failed e) = err e
  step_failure current (found run) =
      or_latest (failed_metric_message run) (or_latest current.message latest_failure)

  -- analysisFailure.
  unfoldable pub analysis_failure : Result ApiError Bytes
  unfolding step_failure
  analysis_failure = elim rollout.analysis [
    | none ↦ latest_failure
    | some current ↦
        if is_empty_text current.name
        then latest_failure
        else step_failure current (server.analysis_run current.name)
  ]
