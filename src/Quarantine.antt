-- ===== src/Quarantine.antt =====
-- internal/quarantine/quarantine.go: the approval state of one tool of one upstream, the gate
-- `usable`, and the transitions. `Status` and `Class` are strings in the source: here they are data
-- types whose last constructor stands for every string that the source does not define. A time is a
-- number of nanoseconds; error texts, which only wrap the sentinels, are left out.
pub mod Transitions
pub mod History
pub mod Identity
pub mod Review
pub mod Store
use gatte.Base.{ℕ, Bool, true, false, ◌&&◌, not, Text, text_eq, if◌then◌else◌, [], Result, ok, err}

pub data Status : Type 0 where
  pending approved changed : Status
  undefined_status : Text → Status

unfoldable pub status_valid : Status → Bool
status_valid pending = true
status_valid approved = true
status_valid changed = true
status_valid (undefined_status s) = false

-- `t.Status == StatusApproved` and its like.
abbrev pub is_approved : Status → Bool
is_approved approved = true
is_approved _ = false

abbrev pub is_changed : Status → Bool
is_changed changed = true
is_changed _ = false

pub data Class : Type 0 where
  safe sensitive : Class
  undefined_class : Text → Class

unfoldable pub class_valid : Class → Bool
class_valid safe = true
class_valid sensitive = true
class_valid (undefined_class s) = false

abbrev pub is_safe : Class → Bool
is_safe safe = true
is_safe _ = false

pub data QuarantineError : Type 0 where
  not_found invalid_status invalid_class not_approved not_sensitive : QuarantineError
  changed_is_not_revocable fingerprint_moved : QuarantineError
  definition_not_kept definition_mismatch review_set_moved review_set_empty : QuarantineError
  storage_failed : QuarantineError

pub record Tool : Type 0 where
  pub server_name : Text
  pub tool_name : Text
  pub status : Status
  pub approved_hash : Text
  pub observed_hash : Text
  pub class : Class
  pub sensitive_cleared_hash : Text
  pub first_seen_at : ℕ
  pub updated_at : ℕ

unfoldable pub approved_as_advertised : Tool → Bool
approved_as_advertised t =
    is_approved t.status
    && not (text_eq t.approved_hash [])
    && text_eq t.observed_hash t.approved_hash

-- The gate: what the gateway lists and serves.
unfoldable pub usable : Tool → Bool
unfolding approved_as_advertised
usable t =
    if not (approved_as_advertised t)
    then false
    else if not (is_safe t.class)
    then not (text_eq t.sensitive_cleared_hash [])
      && text_eq t.sensitive_cleared_hash t.approved_hash
    else true

unfoldable pub new_tool : Text → Text → Text → Class → ℕ → Tool
new_tool server tool observed class now = record {
  server_name = server;
  tool_name = tool;
  status = pending;
  approved_hash = [];
  observed_hash = observed;
  class = class;
  sensitive_cleared_hash = [];
  first_seen_at = now;
  updated_at = now;
}

unfoldable pub observed : Tool → Text → Class → ℕ → Result QuarantineError Tool
unfolding status_valid class_valid
observed t hash class now =
    if not (status_valid t.status)
    then err invalid_status
    else if not (class_valid class)
    then err invalid_class
    else ok (record t {
      observed_hash = hash;
      class = class;
      updated_at = now;
      status =
          if is_approved t.status && not (text_eq hash t.approved_hash) then changed else t.status;
    })

pub data Event : Type 0 where
  event_none event_first_seen event_changed : Event

unfoldable pub event_of : Tool → Tool → Event
event_of before after =
    if is_approved before.status && is_changed after.status then event_changed else event_none

pub record Observation : Type 0 where
  pub tool : Tool
  pub event : Event

-- The source's `Tool.Approved`.
unfoldable pub approve : Tool → ℕ → Tool
approve t now = record t {
  status = approved;
  approved_hash = t.observed_hash;
  sensitive_cleared_hash =
      if not (text_eq t.observed_hash t.approved_hash) then [] else t.sensitive_cleared_hash;
  updated_at = now;
}

unfoldable pub cleared : Tool → ℕ → Result QuarantineError Tool
unfolding class_valid
cleared t now =
    if not (class_valid t.class)
    then err invalid_class
    else if is_safe t.class
    then err not_sensitive
    else if not (is_approved t.status && not (text_eq t.approved_hash []))
    then err not_approved
    else ok (record t { sensitive_cleared_hash = t.approved_hash; updated_at = now })

unfoldable pub approved_fingerprint : Tool → Text → ℕ → Result QuarantineError Tool
unfolding approve
approved_fingerprint t reviewed now =
    if not (text_eq t.observed_hash reviewed) then err fingerprint_moved else ok (approve t now)

unfoldable pub revoked : Tool → ℕ → Result QuarantineError Tool
unfolding status_valid
revoked t now =
    if not (status_valid t.status)
    then err invalid_status
    else if is_changed t.status
    then err changed_is_not_revocable
    else ok (record t {
      status = pending;
      approved_hash = [];
      sensitive_cleared_hash = [];
      updated_at = now;
    })

unfoldable pub needs_review : Tool → Bool
needs_review t = not (is_approved t.status)
