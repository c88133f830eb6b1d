-- ===== src/Gateway/World.antt =====
-- What one call of Dispatch is told and what it changes, with the availability of
-- internal/gateway/health.go, markGone of endpoint.go and checkResult of response.go. `World` holds the
-- answers of the stores, the backend and the parts that are not modelled: the state of a backend that
-- health.go keeps (`public_state`, `observed_dead`), the schema library (`conforms`) and the scrub of
-- credentials of redact.go (`scrub`). Dates and log lines are left out.
use gatte.Base.{
  ℕ, ◌+◌, Bool, true, false, ◌&&◌, not, Text, text_eq, contains, codes, if◌then◌else◌, List, [],
  ◌∷◌, ◌==◌, length, Option, none, some, Result, ℤ, le_limit,
}
use gatte.Quota.{Time, Charge}
use gatte.Quota.Plan.{Plan}
use gatte.Quota.Store.{Counters, Faults}
use gatte.Access.Policy.{Policy}
use gatte.Gateway.Trail.{
  Outcome, Reason, backend_reconnecting, backend_down, backend_maintenance, Trail, Ledger, Failure,
  audit_gateway_row,
}
use gatte.Gateway.Slots.{InUse}
use gatte.Gateway.Admit.{BlockError, BlockRead, RoutedTool, Routes, Quarantine}

pub data BackendState : Type 0 where
  up reconnecting down maintenance : BackendState

abbrev pub Connections : Type 0
Connections = List (Text × ℕ)

pub record Payload : Type 0 where
  pub content : Text
  pub structured : Text
  pub is_error : Bool

pub record World : Type 0 where
  pub admitted_subject : Option Text
  pub block : BlockRead
  pub suspended : Bool
  pub routes : Routes
  pub conns : Connections
  pub unlisted : Connections
  pub policy : Policy
  pub plan : Plan
  pub quarantine : Quarantine
  pub in_maintenance : Option (List Text)
  pub public_state : Text → Option BackendState
  pub servable : Text → Bool
  pub observed_dead : Option (Outcome × Reason)
  pub ledger : Ledger
  pub max_calls : ℤ
  pub quota_now : Time
  pub faults : Faults
  pub backend : Option ℕ → Text → Text → Result Failure Payload
  pub caller_ended : Bool
  pub max_result_bytes : ℤ
  pub conforms : RoutedTool → Payload → Bool
  pub scrub : Text → Payload → Option Payload

-- What a call changes. `sent` holds the calls that left the process, as the backend sees them.
pub record State : Type 0 where
  pub trail : Trail
  pub slots : InUse
  pub counters : Counters
  pub gone : Connections
  pub sent : List (Text × Text × Text)

pub data Answer : Type 0 where
  answered : Payload → Bool → Answer
  refused_block : BlockError → Answer
  registry_down : Answer
  no_such_tool : Answer
  not_allowed : Answer
  quarantine_down : Answer
  backend_not_live : BackendState → Answer
  too_many_calls : ℤ → Answer
  over_quota : Charge → Answer
  quota_down : Answer
  not_audited : Answer
  backend_gone : Answer
  call_timed_out : Answer
  call_ended : Answer
  backend_failed : Answer
  result_over_limit : ℤ → Answer
  result_off_schema : Answer
  scrub_failed : Answer

unfoldable pub conn_of : Connections → Text → Option ℕ
unfolding text_eq
conn_of [] name = none
conn_of ((n, c) ∷ m) name = if text_eq n name then some c else conn_of m name

-- `m[name] == c`, for a connection that is not nil.
unfoldable pub holds_conn : Connections → Text → ℕ → Bool
unfolding conn_of
holds_conn m name c = elim (conn_of m name) [ none ↦ false | some d ↦ d == c ]

-- readMaintenance: a table that cannot be read counts as empty.
abbrev pub targets : World → List Text
targets w = elim w.in_maintenance [ none ↦ [] | some names ↦ names ]

abbrev pub gateway_target : Text
gateway_target = codes "(gateway)"

unfoldable pub gateway_notice : World → Bool
unfolding contains
gateway_notice w = contains (targets w) gateway_target

abbrev pub settled : Option BackendState → BackendState
settled none = reconnecting
settled (some up) = reconnecting
settled (some st) = st

-- `none` where the backend can be called.
unfoldable pub availability : World → Connections → Text → Option ℕ → Option BackendState
unfolding contains holds_conn
availability w gone name conn = if contains (targets w) name then some maintenance else elim conn [
  | none ↦ some (settled (w.public_state name))
  | some c ↦
      if not (holds_conn gone name c) && not (holds_conn w.unlisted name c)
      then none
      else some (settled (w.public_state name))
]

unfoldable pub state_reason : BackendState → Reason
state_reason maintenance = backend_maintenance
state_reason down = backend_down
state_reason up = backend_reconnecting
state_reason reconnecting = backend_reconnecting

abbrev pub backend_health_tool : Text
backend_health_tool = codes "(backend health)"

-- markGone and the rows that follow it; `gone[name] = conn` puts a newer entry in front.
unfoldable pub mark_gone : World → Text → Option ℕ → State → State
unfolding holds_conn audit_gateway_row
mark_gone w name conn s = elim conn [
  | none ↦ s
  | some c ↦ if not (holds_conn w.conns name c) then s else record s {
    gone = (name, c) ∷ s.gone;
    trail = if not (w.servable name) then s.trail else elim w.observed_dead [
      | none ↦ s.trail
      | some (outcome, reason) ↦
          audit_gateway_row w.ledger backend_health_tool name outcome reason s.trail
    ];
  }
]

-- resultSize and checkResult.
unfoldable pub result_size : Payload → ℕ
result_size res = length res.content + length res.structured

abbrev pub too_large : Failure
too_large = record {
  is_deadline = false;
  is_cancelled = false;
  is_too_large = true;
  is_schema_violation = false;
  is_gone = false;
  is_internal = false;
}

abbrev pub off_schema : Failure
off_schema = record too_large { is_too_large = false; is_schema_violation = true }

abbrev pub no_sentinel : Failure
no_sentinel = record too_large { is_too_large = false }

unfoldable pub check_result : World → RoutedTool → Payload → Option Failure
unfolding result_size
check_result w rt res =
    if not (le_limit (result_size res) w.max_result_bytes)
    then some too_large
    else if w.conforms rt res
    then none
    else some off_schema
