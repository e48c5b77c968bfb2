-- ===== src/Platform/Laws/Accepted.antt =====
-- What holds of the requests that ChangeRequest.Validate accepts.
use steadystate.Prelude.{Bool, true, false, Option, none, ◌≡◌, refl, if◌then◌else◌, arith}
use steadystate.Provenance.Digest.{is_object_id}
use steadystate.Platform.Laws.Posts.{checked_first, checked_rest}
use steadystate.Platform.Errors.{Error, ◌<|◌}
use steadystate.Platform.Catalog.Patterns.{valid_name}
use steadystate.Platform.Laws.Desired.{Desired, desired-Desired}
use steadystate.Platform.Request.{Operation, ChangeParameters, ChangeRequest}
use steadystate.Platform.Change.{
  check_supported, of_service, ChangeOps, bool_eq, finalizes, of_team, check_envelope, check_names,
  check_finalization, validate_request,
}

module _ (ops : ChangeOps) where
  pub record IsAccepted (r : ChangeRequest) : Type 0 where
    pub name : valid_name r.parameters.name 63 ≡ true
    pub team : of_team r.operation ≡ false → valid_name r.parameters.team 58 ≡ true
    pub request : ops.is_uuid r.request_id ≡ true
    pub base : is_object_id r.base_sha ≡ true
    pub deletion : finalizes r.operation ≡ true → ops.is_uuid r.parameters.deletion_request ≡ true
    pub approval : finalizes r.operation ≡ true → is_object_id r.parameters.approval_revision ≡ true
    pub acknowledged : r.parameters.force ≡ r.parameters.acknowledge_data_loss
    pub service : of_service r.operation ≡ true → valid_name r.parameters.name 48 ≡ true
    pub desired : Desired ops r.operation r.parameters

  names-valid :
      (operation : Operation) (p : ChangeParameters)
      → check_names ops operation p ≡ none
      → (valid_name p.name 63 ≡ true) × (of_team operation ≡ false → valid_name p.team 58 ≡ true)
  unfolding check_names
  names-valid operation p h = (ground arith, λ o. ground arith)

  finalization-valid :
      (p : ChangeParameters)
      → check_finalization ops p ≡ none
      → (ops.is_uuid p.deletion_request ≡ true) × (is_object_id p.approval_revision ≡ true)
  unfolding check_finalization
  finalization-valid p h = (ground arith, ground arith)

  envelope-valid :
      (r : ChangeRequest)
      → check_envelope ops r ≡ none
      → (ops.is_uuid r.request_id ≡ true)
        × (is_object_id r.base_sha ≡ true)
        × (check_supported ops r.operation ≡ none)
  unfolding check_envelope
  envelope-valid r h = (ground arith, ground arith, ground arith)

  services_of :
      (b : Bool) (c d : Option Error)
      → (if b then c <| d else none) ≡ none
      → b ≡ true
      → (c ≡ none) × (d ≡ none)
  services_of true c d h e = (checked_first c d h, checked_rest c d h)
  services_of false c d h e = cc

  finalization_of :
      (b : Bool) (p : ChangeParameters)
      → (if b then check_finalization ops p else none) ≡ none
      → b ≡ true
      → check_finalization ops p ≡ none
  finalization_of true p h e = h
  finalization_of false p h e = cc

  acknowledged_eq : (a b : Bool) → bool_eq a b ≡ true → a ≡ b
  acknowledged_eq true true h = refl
  acknowledged_eq false false h = refl
  acknowledged_eq true false h = cc
  acknowledged_eq false true h = cc

  -- A request that Validate accepts has a known operation, valid names, a UUID and a full base revision;
  -- a finalization names a deletion request and an approval; and force and the acknowledgement of data
  -- loss come together. The Team, Application or Database that an operation on one creates, updates or
  -- restores, with the recovery that was asked for, is one that the controller's own validation
  -- accepts. A service has a name of at most 48 bytes; a new one a known template and the first version,
  -- and one that is activated a version. The resources that a service operation adds are not checked.
  pub validate_request-IsAccepted :
      (r : ChangeRequest) → validate_request ops r ≡ none → IsAccepted r
  unfolding validate_request
  validate_request-IsAccepted r h =
      let rest = checked_rest (check_envelope ops r) _ h in
      let later = checked_rest (check_names ops r.operation r.parameters) _ rest in
      let after =
        checked_rest (if finalizes r.operation then check_finalization ops r.parameters else none) _
          later in
      let names = names-valid r.operation r.parameters (checked_first _ _ rest) in
      let envelope = envelope-valid r (checked_first _ _ h) in
      let final = λ (f : finalizes r.operation ≡ true).
        finalization-valid r.parameters
          (finalization_of (finalizes r.operation) r.parameters (checked_first _ _ later) f) in
      let services =
        services_of (of_service r.operation) _ _ (checked_first _ _ (checked_rest _ _ after)) in
      record {
        name = names.0;
        team = names.1;
        request = envelope.0;
        base = envelope.1;
        deletion = λ f. (final f).0;
        approval = λ f. (final f).1;
        acknowledged =
            acknowledged_eq r.parameters.force r.parameters.acknowledge_data_loss (ground arith);
        service = λ f. let named = (services f).0 in ground arith;
        desired =
            desired-Desired ops r.operation r.parameters envelope.2 (λ f. (services f).1)
              (checked_rest _ _ (checked_rest _ _ after));
      }
