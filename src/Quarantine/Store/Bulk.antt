-- ===== src/Quarantine/Store/Bulk.antt =====
-- Histories of the store with ApproveReviewSet among the transactions: a bulk approval leaves the shelf
-- that an approval of each tool that it answers, one after the other, would leave.
pub mod Keys
pub mod Ready
pub mod Told
pub mod Histories
use gatte.Base.{ℕ, false, List, [], ◌∷◌, Text, Result, ok, err}
use gatte.Quarantine.{QuarantineError}
use gatte.Quarantine.Review.{Approval}
use gatte.Quarantine.Store.{Shelf, Faults}
use gatte.Quarantine.Store.Sets.{approve_review_set}
use gatte.Quarantine.Store.Evidence.{
  StoreAct, store_approves_reviewed, StoreEvent, transact, empty_shelf,
}

pub data BulkAct : Type 0 where
  single : StoreAct → BulkAct
  store_approves_set : Text → Text → BulkAct

pub record BulkEvent : Type 0 where
  pub now : ℕ
  pub faults : Faults
  pub act : BulkAct

unfoldable pub bulk_transact : (Text → Text) → ℕ → Faults → BulkAct → Shelf → Shelf
unfolding transact approve_review_set
bulk_transact sha256 now f (single act) s = transact sha256 now f act s
bulk_transact sha256 now f (store_approves_set server shown) s =
    (approve_review_set sha256 f server shown now s).0

-- The latest event stands first.
unfoldable pub shelf_of : (Text → Text) → List BulkEvent → Shelf
unfolding bulk_transact
shelf_of sha256 [] = empty_shelf
shelf_of sha256 (ev ∷ earlier) =
    bulk_transact sha256 ev.now ev.faults ev.act (shelf_of sha256 earlier)

abbrev pub no_faults : Faults
no_faults = record { read_fails = false; write_fails = false }

-- The approval of one tool with the definition that it was last seen with.
abbrev pub told_approval : ℕ → Approval → StoreEvent
told_approval now a = record {
  now = now;
  faults = no_faults;
  act = store_approves_reviewed a.before.server_name a.before.tool_name a.before.observed_hash;
}

unfoldable pub told_approvals : ℕ → List Approval → List StoreEvent → List StoreEvent
told_approvals now [] earlier = earlier
told_approvals now (a ∷ rest) earlier = told_approvals now rest (told_approval now a ∷ earlier)

abbrev pub told_answer :
    ℕ → Result QuarantineError (List Approval) → List StoreEvent → List StoreEvent
told_answer now (err e) earlier = earlier
told_answer now (ok approvals) earlier = told_approvals now approvals earlier

unfoldable pub told_act :
    (Text → Text) → ℕ → Faults → BulkAct → Shelf → List StoreEvent → List StoreEvent
unfolding told_approvals approve_review_set
told_act sha256 now f (single act) s earlier = record { now = now; faults = f; act = act } ∷ earlier
told_act sha256 now f (store_approves_set server shown) s earlier =
    told_answer now (approve_review_set sha256 f server shown now s).1 earlier

-- A history in which each bulk approval is told as the approvals that it answers.
unfoldable pub told : (Text → Text) → List BulkEvent → List StoreEvent
unfolding shelf_of told_act
told sha256 [] = []
told sha256 (ev ∷ earlier) =
    told_act sha256 ev.now ev.faults ev.act (shelf_of sha256 earlier) (told sha256 earlier)
