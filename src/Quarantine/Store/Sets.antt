-- ===== src/Quarantine/Store/Sets.antt =====
-- List and ApproveReviewSet of internal/quarantine/sqlite/sqlite.go.
use gatte.Base.{
  ℕ, Bool, ◌||◌, List, [], ◌∷◌, Text, text_eq, text_le, select, sort, if◌then◌else◌, Result, ok,
  err, ◌>>=◌,
}
use gatte.Quarantine.{Tool, QuarantineError, storage_failed}
use gatte.Quarantine.Review.{Approval, approved_set}
use gatte.Quarantine.Store.{Shelf, Faults, scan_tool, updated, is_empty, prune, prune_both, commit}

-- `ORDER BY server_name, tool_name`.
unfoldable pub by_key : Tool → Tool → Bool
unfolding text_eq text_le
by_key a b =
    if text_eq a.server_name b.server_name
    then text_le a.tool_name b.tool_name
    else text_le a.server_name b.server_name

unfoldable pub scan_all : List Tool → Result QuarantineError (List Tool)
unfolding scan_tool
scan_all [] = ok []
scan_all (t ∷ ts) = do first ← scan_tool t; rest ← scan_all ts; ok (first ∷ rest)

unfoldable pub list_tools : Text → List Tool → Result QuarantineError (List Tool)
unfolding by_key scan_all text_eq
list_tools server ts =
    scan_all (sort by_key (select (λ t. is_empty server || text_eq t.server_name server) ts))

-- The loop of ApproveReviewSet: an update and a pruning for each approval.
unfoldable pub apply_approvals : List Approval → Shelf → Result QuarantineError Shelf
unfolding updated prune
apply_approvals [] s = ok s
apply_approvals (a ∷ rest) s = do
  ts ← updated a.after s.tools
  apply_approvals rest
      (prune_both a.before.approved_hash a.before.observed_hash (record s { tools = ts }))

-- The approvals, and the shelf after them.
pub record Approvals : Type 0 where
  pub approvals : List Approval
  pub shelf : Shelf

unfoldable pub approvals_of :
    (Text → Text) → Text → Text → ℕ → Shelf → Result QuarantineError Approvals
unfolding list_tools approved_set apply_approvals
approvals_of sha256 server shown now s = do
  tools ← list_tools server s.tools
  approvals ← approved_set sha256 server tools shown now
  shelf ← apply_approvals approvals s
  ok (record { approvals = approvals; shelf = shelf })

unfoldable pub approve_review_set :
    (Text → Text)
    → Faults
    → Text
    → Text
    → ℕ
    → Shelf
    → Shelf × Result QuarantineError (List Approval)
unfolding approvals_of
approve_review_set sha256 f server shown now s =
    if f.read_fails
    then (s, err storage_failed)
    else elim (approvals_of sha256 server shown now s) [
      | err e ↦ (s, err e)
      | ok a ↦ commit f s a.shelf a.approvals
    ]
