-- ===== src/Quarantine/Store/Bulk/Histories.antt =====
-- The store after any history of its transactions, bulk approvals among them.
use gatte.Base.{◌≡◌, ◌≢◌, ap, sym, subst, ◌∙◌, List, [], Text, some, ◌⊎◌}
use gatte.Quarantine.{Tool}
use gatte.Quarantine.Store.{Shelf, find_row}
use gatte.Quarantine.Store.Kept.{IsShelf}
use gatte.Quarantine.Store.Evidence.{shelf_after-IsShelf, IsShown, definition-shelf_after}
use gatte.Quarantine.Store.Life.{life_after}
use gatte.Quarantine.Store.Served.{gate, served_life, usable-shelf_after}
use gatte.Quarantine.Store.Bulk.{BulkEvent, shelf_of, told}
use gatte.Quarantine.Store.Bulk.Told.{shelf_after-told}

-- Where no digest is empty: after any history of the store's transactions, bulk approvals among them and
-- whatever failed, rows have distinct keys, every definition that a row names is kept and hashes to its
-- key, and every definition kept is named by some row.
pub shelf_of-IsShelf :
    (sha256 : Text → Text)
    → ((t : Text) → sha256 t ≢ [])
    → (evs : List BulkEvent) → IsShelf sha256 (shelf_of sha256 evs)
shelf_of-IsShelf sha256 digest evs =
    subst (IsShelf sha256) (shelf_after-told sha256 digest evs)
      (shelf_after-IsShelf sha256 digest (told sha256 evs))

-- Where no digest is empty: after any such history, the definition that a row was last seen with is
-- shown on demand and hashes to the fingerprint in the row, and so is the one that was approved.
pub definition-shelf_of :
    (sha256 : Text → Text)
    → ((t : Text) → sha256 t ≢ [])
    → (evs : List BulkEvent) (server tool : Text) (row : Tool)
    → find_row server tool (shelf_of sha256 evs).tools ≡ some row
    → IsShown sha256 (shelf_of sha256 evs) row.observed_hash
      × ((row.approved_hash ≡ []) ⊎ IsShown sha256 (shelf_of sha256 evs) row.approved_hash)
definition-shelf_of sha256 digest evs server tool row found =
    let same = shelf_after-told sha256 digest evs in
    subst
      (λ s.
        IsShown sha256 s row.observed_hash
        × ((row.approved_hash ≡ []) ⊎ IsShown sha256 s row.approved_hash))
      same
      (definition-shelf_after sha256 digest (told sha256 evs) server tool row
        (ap (λ (s : Shelf). find_row server tool s.tools) same ∙ found))

-- Where no digest is empty: after any such history, a tool has a row exactly if it has a life: it was
-- seen and its upstream not forgotten since. The gate then serves the row exactly if the acts of this
-- life, read on their own, vouch for it, where a bulk approval stands for an approval of each tool that
-- it answers, with the definition that it answers. What was done to other tools and what failed plays no
-- part.
pub usable-shelf_of :
    (sha256 : Text → Text)
    → ((t : Text) → sha256 t ≢ [])
    → (evs : List BulkEvent) (server tool : Text)
    → gate (find_row server tool (shelf_of sha256 evs).tools)
      ≡ served_life server tool (life_after sha256 (told sha256 evs) server tool)
usable-shelf_of sha256 digest evs server tool =
    ap (λ (s : Shelf). gate (find_row server tool s.tools))
      (sym (shelf_after-told sha256 digest evs))
    ∙ usable-shelf_after sha256 (told sha256 evs) server tool
