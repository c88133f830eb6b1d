-- ===== src/Gateway/Trail.antt =====
-- The audit rows that internal/gateway writes: record, auditRefusal, auditFailure, auditGatewayRow and
-- classifyFailure of endpoint.go. The reasons are the constants of endpoint.go, health.go,
-- resilience.go and response.go, and the texts that health.go composes. A row is written under a
-- context of its own, so a caller who hangs up does not stop it; the store may fail, which `Ledger`
-- says write by write. The display name of the analyst and the log lines are left out.
use gatte.Base.{
  ℕ, suc, ◌+◌, Bool, true, false, Text, is_blank, codes, if◌then◌else◌, List, [], ◌∷◌, ◌++◌,
}
use gatte.Quota.{Time}
use gatte.Access.Policy.{Identity}

pub data Outcome : Type 0 where
  allowed denied failed : Outcome

pub data Reason : Type 0 where
  unexplained auth_failed auth_flood upstream_timeout call_cancelled upstream_failed : Reason
  upstream_gone unknown_tool forbidden quarantined sensitive_not_granted : Reason
  quarantine_unavailable registry_unavailable quota_exhausted quota_unavailable : Reason
  subject_blocked blocklist_unavailable backend_reconnecting backend_down : Reason
  backend_maintenance internal_error concurrency_limited result_too_large : Reason
  result_schema_violation : Reason
  health_event : Text → Reason

pub record Caller : Type 0 where
  pub identity : Identity
  pub source_address : Text

pub record Row : Type 0 where
  pub analyst : Text
  pub tool : Text
  pub target : Text
  pub timestamp : Time
  pub outcome : Outcome
  pub reason : Reason
  pub source_address : Text

-- The rows in the order of their writing, the number of writes tried, and the three counters.
pub record Trail : Type 0 where
  pub rows : List Row
  pub writes : ℕ
  pub allowed_count : ℕ
  pub denied_count : ℕ
  pub failed_count : ℕ

-- What the store and the clock say at each write.
pub record Ledger : Type 0 where
  pub fails : ℕ → Bool
  pub clock : ℕ → Time

abbrev pub one_if_allowed : Outcome → ℕ
one_if_allowed allowed = 1
one_if_allowed _ = 0

abbrev pub one_if_denied : Outcome → ℕ
one_if_denied denied = 1
one_if_denied _ = 0

abbrev pub one_if_failed : Outcome → ℕ
one_if_failed failed = 1
one_if_failed _ = 0

abbrev pub row_of : Ledger → ℕ → Caller → Text → Text → Outcome → Reason → Row
row_of l n c tool target outcome reason = record {
  analyst = c.identity.subject;
  tool = tool;
  target = target;
  timestamp = l.clock n;
  outcome = outcome;
  reason = reason;
  source_address = c.source_address;
}

-- The trail after the write, and whether the row was written.
unfoldable pub record_row : Ledger → Caller → Text → Text → Outcome → Reason → Trail → Trail × Bool
record_row l c tool target outcome reason t =
    if l.fails t.writes then (record t { writes = suc t.writes }, false) else (
      record {
        rows = t.rows ++ row_of l t.writes c tool target outcome reason ∷ [];
        writes = suc t.writes;
        allowed_count = t.allowed_count + one_if_allowed outcome;
        denied_count = t.denied_count + one_if_denied outcome;
        failed_count = t.failed_count + one_if_failed outcome;
      },
      true,
    )

abbrev pub unnamed_tool : Text
unnamed_tool = codes "(unnamed)"

unfoldable pub audit_refusal : Ledger → Caller → Text → Text → Reason → Trail → Trail
unfolding is_blank record_row
audit_refusal l c tool target reason t =
    (record_row l c (if is_blank tool then unnamed_tool else tool) target denied reason t).0

-- What `errors.Is` answers about the error of a call.
pub record Failure : Type 0 where
  pub is_deadline : Bool
  pub is_cancelled : Bool
  pub is_too_large : Bool
  pub is_schema_violation : Bool
  pub is_gone : Bool
  pub is_internal : Bool

unfoldable pub classify_failure : Failure → Reason
classify_failure f =
    if f.is_deadline
    then upstream_timeout
    else if f.is_cancelled
    then call_cancelled
    else if f.is_too_large
    then result_too_large
    else if f.is_schema_violation
    then result_schema_violation
    else if f.is_gone
    then upstream_gone
    else if f.is_internal
    then internal_error
    else upstream_failed

unfoldable pub audit_failure : Ledger → Caller → Text → Text → Failure → Trail → Trail
unfolding record_row classify_failure
audit_failure l c tool target cause t =
    (record_row l c tool target failed (classify_failure cause) t).0

abbrev pub gateway_actor : Text
gateway_actor = codes "(gateway)"

abbrev pub gateway_caller : Caller
gateway_caller = record {
  identity = record { subject = gateway_actor; name = []; groups = [] };
  source_address = [];
}

unfoldable pub audit_gateway_row : Ledger → Text → Text → Outcome → Reason → Trail → Trail
unfolding record_row
audit_gateway_row l tool target outcome reason t =
    (record_row l gateway_caller tool target outcome reason t).0
