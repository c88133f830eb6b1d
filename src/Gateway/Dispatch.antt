-- ===== src/Gateway/Dispatch.antt =====
-- Dispatch of internal/gateway/endpoint.go: `dispatch` up to the slot, `dispatch_held` with the slot
-- held, and `finish` once the backend has answered. The slot is given back on every way out of
-- `dispatch_held`, which is what the deferred call of the source does. Panics are left out.
pub mod View
pub mod Finish
pub mod Effect
pub mod Release
pub mod Rows
pub mod Safety
use gatte.Base.{
  ℕ, Bool, true, false, ◌&&◌, ◌||◌, not, Text, if◌then◌else◌, List, [], ◌∷◌, ◌++◌, Option, none,
  some, Result, ok, err,
}
use gatte.Quota.Gate.{Admission, admitted, refused_exhausted, refused_unavailable}
use gatte.Quota.Gate
use gatte.Access.Policy.{authorize}
use gatte.Gateway.{target_of}
use gatte.Gateway.Trail.{
  allowed, Reason, unexplained, unknown_tool, forbidden, quarantined, registry_unavailable,
  quota_exhausted, quota_unavailable, subject_blocked, blocklist_unavailable, concurrency_limited,
  Caller, record_row, audit_refusal, Failure, audit_failure,
}
use gatte.Gateway.Trail
use gatte.Gateway.Slots.{acquire, release}
use gatte.Gateway.Admit.{
  BlockError, context_ended, blocked_subject, unreadable_blocklist, check_block, RoutedTool, lookup,
  AdmitError, tool_quarantined, sensitive_not_granted, quarantine_unavailable, admit,
}
use gatte.Gateway.World.{
  World, State, Payload, Answer, answered, refused_block, registry_down, no_such_tool, not_allowed,
  quarantine_down, backend_not_live, too_many_calls, over_quota, quota_down, not_audited,
  backend_gone, call_timed_out, call_ended, backend_failed, result_over_limit, result_off_schema,
  scrub_failed, conn_of, gateway_notice, availability, state_reason, mark_gone, check_result,
  no_sentinel,
}

unfoldable pub refuse : World → Caller → Text → Text → Reason → State → State
unfolding audit_refusal
refuse w c tool target reason s = record s {
  trail = audit_refusal w.ledger c tool target reason s.trail;
}

unfoldable pub fail : World → Caller → Text → Text → Failure → State → State
unfolding audit_failure
fail w c tool target cause s = record s {
  trail = audit_failure w.ledger c tool target cause s.trail;
}

-- refuseBlocked, which writes nothing where the caller is gone.
unfoldable pub refuse_blocked : World → Caller → Text → Text → BlockError → State → State
unfolding refuse
refuse_blocked w c tool target blocked_subject s = refuse w c tool target subject_blocked s
refuse_blocked w c tool target context_ended s = s
refuse_blocked w c tool target unreadable_blocklist s =
    refuse w c tool target blocklist_unavailable s

-- The error that the caller is given for a failed call.
unfoldable pub failure_answer : World → Failure → Answer
failure_answer w f =
    if f.is_gone
    then backend_gone
    else if f.is_deadline && not w.caller_ended
    then call_timed_out
    else if f.is_cancelled || (f.is_deadline || f.is_internal)
    then call_ended
    else backend_failed

-- What follows the backend's answer.
unfoldable pub finish :
    World → Caller → Text → RoutedTool → Option ℕ → Result Failure Payload → State → State × Answer
unfolding mark_gone fail failure_answer check_result gateway_notice
finish w c tool rt conn (err f) s =
    let s' = if f.is_gone then mark_gone w rt.route.upstream conn s else s in
    (fail w c tool rt.route.upstream f s', failure_answer w f)
finish w c tool rt conn (ok res) s = elim (check_result w rt res) [
  | some f ↦ (
    fail w c tool rt.route.upstream f s,
    if f.is_too_large then result_over_limit w.max_result_bytes else result_off_schema,
  )
  | none ↦ elim (w.scrub rt.route.upstream res) [
    | none ↦ (fail w c tool rt.route.upstream no_sentinel s, scrub_failed)
    | some scrubbed ↦ (s, answered scrubbed (gateway_notice w))
  ]
]

-- The call itself.
unfoldable pub send : World → Caller → Text → Text → RoutedTool → Option ℕ → State → State × Answer
unfolding finish
send w c tool args rt conn s =
    finish w c tool rt conn (w.backend conn rt.route.original_name args)
      (record s { sent = s.sent ++ (rt.route.upstream, rt.route.original_name, args) ∷ [] })

-- From the quota on, with the slot held.
unfoldable pub dispatch_held :
    World → Caller → Text → Text → RoutedTool → Option ℕ → State → State × Answer
unfolding Gate.admit record_row refuse send
dispatch_held w c tool args rt conn s =
    let (counters, admission) =
      Gate.admit w.plan w.faults c.identity.subject tool w.quota_now s.counters in
    let s' = record s { counters = counters } in
    elim admission [
      | refused_exhausted charge ↦
          (refuse w c tool rt.route.upstream quota_exhausted s', over_quota charge)
      | refused_unavailable ↦ (refuse w c tool rt.route.upstream quota_unavailable s', quota_down)
      | admitted ↦
          let (trail, written) =
            record_row w.ledger c tool rt.route.upstream allowed unexplained s'.trail in
          let s'' = record s' { trail = trail } in
          if not written then (s'', not_audited) else send w c tool args rt conn s''
    ]

abbrev pub admit_refusal : AdmitError → Reason
admit_refusal tool_quarantined = quarantined
admit_refusal sensitive_not_granted = Trail.sensitive_not_granted
admit_refusal quarantine_unavailable = Trail.quarantine_unavailable

-- A quarantined tool is answered like one that does not exist.
abbrev pub admit_answer : AdmitError → Answer
admit_answer tool_quarantined = no_such_tool
admit_answer sensitive_not_granted = not_allowed
admit_answer quarantine_unavailable = quarantine_down

unfoldable pub with_slot : World → Text → (State → State × Answer) → State → Option (State × Answer)
unfolding acquire release
with_slot w subject body s = elim (acquire w.max_calls s.slots subject) [
  | none ↦ none
  | some slots ↦
      let (s', a) = body (record s { slots = slots }) in
      some (record s' { slots = release s'.slots subject }, a)
]

-- A routed tool that the caller may call: availability, and the slot.
unfoldable pub dispatch_granted :
    World → Caller → Text → Text → RoutedTool → Option ℕ → State → State × Answer
unfolding availability with_slot dispatch_held refuse state_reason
dispatch_granted w c tool args rt conn s = elim (availability w s.gone rt.route.upstream conn) [
  | some st ↦ (refuse w c tool rt.route.upstream (state_reason st) s, backend_not_live st)
  | none ↦ elim (with_slot w c.identity.subject (dispatch_held w c tool args rt conn) s) [
    | none ↦ (refuse w c tool rt.route.upstream concurrency_limited s, too_many_calls w.max_calls)
    | some r ↦ r
  ]
]

unfoldable pub dispatch : World → Caller → Text → Text → State → State × Answer
unfolding check_block lookup conn_of authorize admit dispatch_granted refuse refuse_blocked
    target_of
dispatch w c tool args s = elim (check_block w.admitted_subject c.identity.subject w.block) [
  | some e ↦ (refuse_blocked w c tool (target_of tool) e s, refused_block e)
  | none ↦
      if w.suspended
      then (refuse w c tool (target_of tool) registry_unavailable s, registry_down)
      else elim (lookup w.routes tool) [
        | none ↦ (refuse w c tool (target_of tool) unknown_tool s, no_such_tool)
        | some rt ↦
            if not (authorize w.policy c.identity tool)
            then (refuse w c tool rt.route.upstream forbidden s, not_allowed)
            else elim (admit w.quarantine w.policy c.identity tool rt) [
              | some e ↦ (refuse w c tool rt.route.upstream (admit_refusal e) s, admit_answer e)
              | none ↦ dispatch_granted w c tool args rt (conn_of w.conns rt.route.upstream) s
            ]
      ]
]
