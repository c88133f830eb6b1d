-- ===== src/Quarantine/Review.antt =====
-- ReviewSet, Manifest and ApprovedSet of internal/quarantine/quarantine.go: the approval of all that
-- waits for review on one upstream, bound to a digest of what the operator was shown.
pub mod Reviewed
use gatte.Base.{
  ℕ, ◌≡◌, refl, ap, List, [], ◌∷◌, ◌++◌, map, Text, codes, Bool, true, false, if◌then◌else◌, length,
  arith, select, sort, text_le, text_eq, not, Result, ok, err, ◌>>=◌,
}
use gatte.Quarantine.{
  Status, pending, approved, changed, undefined_status, Tool, needs_review, status_valid,
  approved_fingerprint, approve, QuarantineError, invalid_status, review_set_empty,
  review_set_moved,
}
use gatte.Quarantine.Identity.{write_field, is_empty}
use gatte.Base.{put_uint64}

abbrev is_nil : List Tool → Bool
is_nil [] = true
is_nil (t ∷ ts) = false

abbrev by_name : Tool → Tool → Bool
by_name a b = text_le a.tool_name b.tool_name

unfoldable pub review_set : List Tool → List Tool
unfolding needs_review text_le
review_set tools = sort by_name (select needs_review tools)

abbrev pub manifest_domain_tag : Text
manifest_domain_tag = codes "mcp-gateway/quarantine/review-set/v1"

abbrev pub status_text : Status → Text
status_text pending = codes "pending"
status_text approved = codes "approved"
status_text changed = codes "changed"
status_text (undefined_status s) = s

unfoldable pub manifest_entries : List Tool → Text
unfolding write_field
manifest_entries [] = []
manifest_entries (t ∷ ts) =
    write_field t.tool_name
    ++ (write_field (status_text t.status)
        ++ (write_field t.observed_hash ++ (write_field t.approved_hash ++ manifest_entries ts)))

unfoldable pub manifest_input : Text → List Tool → Text
unfolding manifest_entries text_le
manifest_input server set =
    let sorted = sort by_name set in
    write_field manifest_domain_tag
    ++ (write_field server ++ (write_field (put_uint64 (length sorted)) ++ manifest_entries sorted))

unfoldable pub manifest : (Text → Text) → Text → List Tool → Text
unfolding manifest_input
manifest sha256 server set = sha256 (manifest_input server set)

pub record Approval : Type 0 where
  pub before : Tool
  pub after : Tool

-- The entries of one server; an undefined status anywhere refuses the call.
unfoldable pub mine : Text → List Tool → Result QuarantineError (List Tool)
unfolding status_valid text_eq
mine server [] = ok []
mine server (t ∷ ts) =
    if not (status_valid t.status)
    then err invalid_status
    else do rest ← mine server ts; ok (if text_eq t.server_name server then t ∷ rest else rest)

unfoldable pub approve_all : List Tool → ℕ → Result QuarantineError (List Approval)
unfolding approved_fingerprint
approve_all [] now = ok []
approve_all (t ∷ ts) now = do
  after ← approved_fingerprint t t.observed_hash now
  rest ← approve_all ts now
  ok (record { before = t; after = after } ∷ rest)

unfoldable pub approved_set :
    (Text → Text) → Text → List Tool → Text → ℕ → Result QuarantineError (List Approval)
unfolding mine review_set manifest approve_all
approved_set sha256 server tools shown now = do
  own ← mine server tools
  let set = review_set own
  if is_nil set
      then err review_set_empty
      else if not (text_eq (manifest sha256 server set) shown)
      then err review_set_moved
      else approve_all set now
