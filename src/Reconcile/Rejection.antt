-- ===== src/Reconcile/Rejection.antt =====
-- The texts of rejected workloads: isSecurityAdmissionRejection, sanitizedAdmissionMessage and
-- securityAdmissionFailure.
use steadystate.Prelude.{
  Bytes, bytes, has_prefix, lower, join, Bool, false, not, ◌||◌, Option, none, some, List, [], ◌∷◌,
  ◌++◌, map, ltb, length, take, str_eq, if◌then◌else◌, Result, ok, err,
}
use steadystate.Prelude.Text.{fields}
use steadystate.Api.Conditions.{Message, status_is_true}
use steadystate.Reconcile.Cluster.{ApiError, ReplicaSetCondition, Cluster}

-- `strings.Contains`, for a text to find that is not empty.
unfoldable pub contains_text : Bytes → Bytes → Bool
contains_text [] part = false
contains_text (c ∷ s) part = has_prefix (c ∷ s) part || contains_text s part

-- `strings.Join(strings.Fields(s), " ")`.
unfoldable pub one_line : Bytes → Bytes
unfolding fields
one_line s = join (bytes " ") (fields s)

-- A slice `s[:512]` of a longer text.
abbrev cut_512 : Bytes → Bytes
cut_512 s = if ltb 512 (length s) then take 512 s else s

-- `strings.ToLower`: the case of ASCII letters.
unfoldable pub is_security_admission_rejection : ApiError → Bool
unfolding contains_text
is_security_admission_rejection e =
    let message = map lower e in
    contains_text message (bytes "denied the request")
    || contains_text message (bytes "imagevalidatingpolicy")
    || contains_text message (bytes "validatingpolicy")
    || contains_text message (bytes "kyverno")

abbrev rejected : Bytes → Message
rejected text = record {
  format = "workload admission was rejected by platform security policy: %s";
  args = text ∷ [];
}

unfoldable pub sanitized_admission_message : ApiError → Message
unfolding one_line
sanitized_admission_message e = rejected (cut_512 (one_line e))

-- The test on one condition of a ReplicaSet, and its text on one line.
unfoldable pub condition_rejection : ReplicaSetCondition → Option Message
unfolding one_line contains_text
condition_rejection c =
    let combined = one_line (c.reason ++ bytes " " ++ c.message) in
    let text = map lower combined in
    if not (str_eq c.kind "ReplicaFailure") || not (status_is_true c.status)
    then none
    else if contains_text text (bytes "denied")
        || contains_text text (bytes "kyverno")
        || contains_text text (bytes "validatingpolicy")
        || contains_text text (bytes "signature")
        || contains_text text (bytes "attestation")
    then some (rejected (cut_512 combined))
    else none

-- The two loops, over the ReplicaSets and their conditions.
unfoldable pub first_in : List ReplicaSetCondition → Option Message
first_in [] = none
first_in (c ∷ cs) = elim (condition_rejection c) [ some m ↦ some m | none ↦ first_in cs ]

unfoldable pub first_rejection : List (List ReplicaSetCondition) → Option Message
unfolding first_in
first_rejection [] = none
first_rejection (r ∷ rs) = elim (first_in r) [ some m ↦ some m | none ↦ first_rejection rs ]

-- securityAdmissionFailure; the empty text is `none`.
unfoldable pub security_admission_failure : Cluster → Result ApiError (Option Message)
unfolding first_rejection
security_admission_failure cluster = elim cluster.replica_sets [
  | err e ↦ err e
  | ok sets ↦ ok (first_rejection sets)
]
