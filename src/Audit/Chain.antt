-- ===== src/Audit/Chain.antt =====
-- Canonical, ChainHash and appendField of internal/audit/audit.go. `sha256` is the digest from bytes
-- to its hexadecimal text, `format` is `time.Time.Format` with RFC3339Nano.
pub mod Covered
use mathlib.Core.List.{append_assoc, append-nil}
use gatte.Base.{
  ◌≡◌, ◌≢◌, refl, sym, ap, ◌∙◌, Bool, true, false, List, [], ◌∷◌, ◌++◌, Text, codes, length, ℕ,
  if◌then◌else◌, put_uint64, framed, framed-injective, IsSized, arith,
}
use gatte.Quota.{Time}
use gatte.Audit.{Record}

abbrev pub chain_tag : Text
chain_tag = codes "mcp-gateway/audit/chain/v1"

abbrev pub chain_tag_named : Text
chain_tag_named = codes "mcp-gateway/audit/chain/v2"

abbrev pub genesis_hash : Text
genesis_hash = []

abbrev pub is_named : Text → Bool
is_named [] = false
is_named (x ∷ name) = true

unfoldable pub append_field : Text → Text → Text
unfolding put_uint64
append_field buf v = (buf ++ put_uint64 (length v)) ++ v

unfoldable pub canonical : (Time → Text) → Record → Text
unfolding append_field
canonical format r =
    let buf = append_field [] (if is_named r.analyst_name then chain_tag_named else chain_tag) in
    let buf = append_field buf r.analyst_identity in
    let buf = append_field buf r.tool in
    let buf = append_field buf r.target_upstream in
    let buf = append_field buf (format r.timestamp) in
    let buf = append_field buf r.outcome in
    let buf = append_field buf r.reason in
    let buf = append_field buf r.source_address in
    if is_named r.analyst_name then append_field buf r.analyst_name else buf

unfoldable pub chain_hash : (Text → Text) → (Time → Text) → Text → Record → Text
unfolding canonical append_field
chain_hash sha256 format prev r = sha256 (append_field (canonical format r) prev)

-- What a record reads as, its timestamp as the text that is hashed.
pub record Shown : Type 0 where
  pub analyst_identity : Text
  pub tool : Text
  pub target_upstream : Text
  pub timestamp : Text
  pub outcome : Text
  pub reason : Text
  pub source_address : Text
  pub analyst_name : Text

abbrev pub shown : (Time → Text) → Record → Shown
shown format r = record {
  analyst_identity = r.analyst_identity;
  tool = r.tool;
  target_upstream = r.target_upstream;
  timestamp = format r.timestamp;
  outcome = r.outcome;
  reason = r.reason;
  source_address = r.source_address;
  analyst_name = r.analyst_name;
}

-- Every field that is hashed has a length that a Go string can have.
pub record IsSizedRecord (s : Shown) : Type 0 where
  pub identity_sized : IsSized s.analyst_identity
  pub tool_sized : IsSized s.tool
  pub upstream_sized : IsSized s.target_upstream
  pub timestamp_sized : IsSized s.timestamp
  pub outcome_sized : IsSized s.outcome
  pub reason_sized : IsSized s.reason
  pub address_sized : IsSized s.source_address
  pub name_sized : IsSized s.analyst_name
