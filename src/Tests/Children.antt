-- ===== src/Tests/Children.antt =====
-- The reconciliation of the children of an Application.
use steadystate.Prelude.{bytes, true, false, ◌≡◌, refl, some, [], ◌∷◌, ok, arith}
use steadystate.Control.Rules.{Logs, Returns}
use steadystate.Status.Observe.{Route, RolloutPhase}
use steadystate.Progressive.Drain.{Clock, route_drain_remaining, with_stamp}
use steadystate.Progressive.Server.{Fetched, found, deleted, Server}
use steadystate.Progressive.Rolling.{
  cutover_started_at, cleanup_started_at, cutover_delay, wait_for_route_drain,
  reconcile_rolling_children,
}
use steadystate.Progressive.Canary.{reconcile_canary_children}
use steadystate.Progressive.Runtime.{reconcile_runtime_children}
use steadystate.Progressive.Laws.Drain.{drain_remaining-with_stamp, wait-drains}
use steadystate.Progressive.Laws.Rolling.{IsSafe, rolling-IsSafe}
use steadystate.Progressive.Laws.Pass.{IsDue, runtime_canary-IsDue}
use steadystate.Progressive.Laws.Migration.{
  IsExplained, runtime-IsExplained, IsSettled, canary-IsSettled,
}
use steadystate.Tests.Data.{canary_application, rolling_application}
use steadystate.Tests.Statuses.{available, accepted, rollout_in}
use steadystate.Tests.Reconciliation.{library}

abbrev clock : Clock
clock = record { format = λ n. bytes "t"; parse = λ s. some 5 }

-- Both drains of this route began at the instant 5.
abbrev stamped_route : Route
stamped_route = record accepted {
  annotations = (cutover_started_at, bytes "1,t") ∷ (cleanup_started_at, bytes "1,t") ∷ [];
}

-- A server on which every call succeeds, long after the drains.
abbrev server : Server
server = record {
  progressive_delivery = true;
  first_rollout = found (rollout_in RolloutPhase.healthy);
  second_rollout = found (rollout_in RolloutPhase.healthy);
  route = found stamped_route;
  config_map = ok false;
  deployment = λ app manage identity. ok (record { object = available; changed = true });
  service = λ identity. ok false;
  child = λ c. ok true;
  bootstrap = λ hold. ok true;
  controls = found (record { paused = false; never_scaled_down = false });
  freeze = ok true;
  service_uid = λ name. ok (bytes "u");
  write_route = λ i f. ok (record { object = f stamped_route; changed = true });
  retry = λ f. f 0;
  cutover_now = 90000000000;
  cleanup_now = 90000000000;
  patch_route = λ r. ok r;
  get = λ c. found tt;
  remove = λ c. deleted;
  analysis_run = λ name. Fetched.not_found;
  analysis_runs = ok [];
}

rolling-IsSafe_example :
    Logs
      (IsSafe library clock server rolling_application)
      (reconcile_rolling_children library clock server rolling_application)
rolling-IsSafe_example = rolling-IsSafe library clock server rolling_application

runtime_canary-IsDue_example :
    Logs
      (IsDue library server canary_application)
      (reconcile_runtime_children library clock server canary_application)
runtime_canary-IsDue_example = runtime_canary-IsDue library server canary_application clock refl

runtime-IsExplained_example :
    Returns IsExplained (reconcile_runtime_children library clock server canary_application)
runtime-IsExplained_example = runtime-IsExplained library clock server canary_application

canary-IsSettled_example :
    Returns
      (IsSettled library server canary_application)
      (reconcile_canary_children library server canary_application)
canary-IsSettled_example = canary-IsSettled library server canary_application

-- Seven seconds after the stamp, eight of the fifteen are left.
drain_remaining-with_stamp_example :
    route_drain_remaining clock
      (with_stamp clock accepted cutover_started_at 5)
      cutover_started_at
      cutover_delay
      7000000005
    ≡ some 8000000000
drain_remaining-with_stamp_example =
    drain_remaining-with_stamp clock accepted cutover_started_at cutover_delay 5 7000000005
      (omega arith) (omega arith) refl

-- At the sixteenth second, the drain of fifteen is over.
wait-drains_example :
    wait_for_route_drain server clock
      (with_stamp clock accepted cutover_started_at 5)
      cutover_started_at
      cutover_delay
      16000000000
    ≡ (
      [],
      ok (record {
        drained = true;
        marked = false;
        remaining = 0;
        route = with_stamp clock accepted cutover_started_at 5;
      }),
    )
wait-drains_example =
    wait-drains server clock accepted cutover_started_at cutover_delay 5 16000000000 (omega arith)
      refl (omega arith)
