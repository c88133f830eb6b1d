-- ===== src/Quarantine/Store.antt =====
-- internal/quarantine/sqlite/sqlite.go: the rows of the quarantined tools and the definitions kept for
-- them. Every operation is one transaction, so where a call of the database fails nothing changes; the
-- calls up to the last read fail together, and so do those from the first write on. A time is a number
-- of nanoseconds, and rows whose times do not parse are left out.
pub mod Sets
pub mod Rows
pub mod Lookup
pub mod Lives
pub mod Seen
pub mod Life
pub mod Failed
pub mod Served
pub mod Kept
pub mod Transactions
pub mod Sightings
pub mod Departures
pub mod Evidence
pub mod Bulk
use gatte.Base.{
  ℕ, suc, ◌+◌, Bool, true, false, not, ◌&&◌, ◌||◌, List, [], ◌∷◌, ◌++◌, Text, text_eq, text_le, any,
  select, sort, if◌then◌else◌, Option, none, some, Result, ok, err, ◌>>=◌, length,
}
use gatte.Quarantine.{
  Tool, Class, Observation, event_of, event_first_seen, new_tool, observed, approve,
  approved_fingerprint, cleared, revoked, QuarantineError, not_found, invalid_status, invalid_class,
  storage_failed, definition_not_kept, definition_mismatch, status_valid, class_valid,
}
use gatte.Quarantine.Identity.{ToolIdentity, hash}
use gatte.Quarantine.Review.{Approval, approved_set}

pub record Definition : Type 0 where
  pub key : Text
  pub identity : ToolIdentity
  pub first_seen_at : ℕ

pub record Shelf : Type 0 where
  pub tools : List Tool
  pub definitions : List Definition

pub record Faults : Type 0 where
  pub read_fails : Bool
  pub write_fails : Bool

unfoldable pub is_named : Text → Text → Tool → Bool
unfolding text_eq
is_named server tool t = text_eq t.server_name server && text_eq t.tool_name tool

-- `scanTool`: a row whose status or class the domain does not define is an error.
unfoldable pub scan_tool : Tool → Result QuarantineError Tool
unfolding status_valid class_valid
scan_tool t =
    if not (status_valid t.status)
    then err invalid_status
    else if not (class_valid t.class)
    then err invalid_class
    else ok t

unfoldable pub find_row : Text → Text → List Tool → Option Tool
unfolding is_named
find_row server tool [] = none
find_row server tool (t ∷ ts) = if is_named server tool t then some t else find_row server tool ts

unfoldable scanned : Option Tool → Result QuarantineError Tool
unfolding scan_tool
scanned none = err not_found
scanned (some t) = scan_tool t

unfoldable pub get : Text → Text → List Tool → Result QuarantineError Tool
unfolding find_row scanned
get server tool ts = scanned (find_row server tool ts)

-- `UPDATE ... SET` of every column but the key and first_seen_at.
abbrev pub set_columns : Tool → Tool → Tool
set_columns next row = record row {
  status = next.status;
  approved_hash = next.approved_hash;
  observed_hash = next.observed_hash;
  class = next.class;
  sensitive_cleared_hash = next.sensitive_cleared_hash;
  updated_at = next.updated_at;
}

unfoldable pub update : Tool → List Tool → List Tool
unfolding is_named
update next [] = []
update next (t ∷ ts) =
    (if is_named next.server_name next.tool_name t then set_columns next t else t) ∷ update next ts

-- The update with its test that some row was there.
unfoldable pub updated : Tool → List Tool → Result QuarantineError (List Tool)
unfolding update is_named
updated next ts =
    if any (is_named next.server_name next.tool_name) ts then ok (update next ts) else err not_found

unfoldable pub names_hash : Text → Tool → Bool
unfolding text_eq
names_hash h t = text_eq t.approved_hash h || text_eq t.observed_hash h

unfoldable pub is_referenced : Text → List Tool → Bool
unfolding names_hash
is_referenced h ts = any (names_hash h) ts

abbrev pub is_empty : Text → Bool
is_empty [] = true
is_empty (x ∷ h) = false

unfoldable pub prune : Text → Shelf → Shelf
unfolding is_referenced text_eq
prune h s =
    if is_empty h || is_referenced h s.tools
    then s
    else record s { definitions = select (λ d. not (text_eq d.key h)) s.definitions }

unfoldable pub keep_definition : Text → ToolIdentity → ℕ → List Definition → List Definition
unfolding text_eq
keep_definition h t now ds =
    if any (λ d. text_eq d.key h) ds
    then ds
    else ds ++ record { key = h; identity = t; first_seen_at = now } ∷ []

-- The deferred `tx.Rollback()`: SQLite discards what the transaction has written, `work`, and the shelf is
-- the one that it found.
abbrev pub rollback : Shelf → Shelf → Shelf
rollback found work = found

-- The end of a transaction whose writes make `work`: some write or the commit fails and the deferred
-- rollback runs, or the writes are there.
abbrev pub commit {ℓ} : {A : Type ℓ} → Faults → Shelf → Shelf → A → Shelf × Result QuarantineError A
commit f found work a =
    if f.write_fails then (rollback found work, err storage_failed) else (work, ok a)

-- What a transition makes of a row, and of the rows.
pub record Moved : Type 0 where
  pub next : Tool
  pub tools : List Tool

unfoldable pub moved : Result QuarantineError Tool → List Tool → Result QuarantineError Moved
unfolding updated
moved r ts = do next ← r; ts' ← updated next ts; ok (record { next = next; tools = ts' })

-- The candidates of pruneDefinitions, in its order.
abbrev pub prune_both : Text → Text → Shelf → Shelf
prune_both first second s = prune second (prune first s)

unfoldable pub observe_known :
    Faults → Text → Class → ℕ → Shelf → Shelf → Tool → Shelf × Result QuarantineError Observation
unfolding observed moved prune event_of
observe_known f h class now s kept prev = elim (moved (observed prev h class now) kept.tools) [
  | err e ↦ (rollback s kept, err e)
  | ok m ↦
      commit f s
        (prune_both prev.observed_hash prev.approved_hash (record kept { tools = m.tools }))
        (record { tool = m.next; event = event_of prev m.next })
]

unfoldable pub observe_first :
    Faults
    → Text
    → Text
    → Text
    → Class
    → ℕ
    → Shelf
    → Shelf
    → Shelf × Result QuarantineError Observation
unfolding new_tool
observe_first f server tool h class now s kept =
    let next = new_tool server tool h class now in
    commit f s (record kept { tools = kept.tools ++ next ∷ [] })
      (record { tool = next; event = event_first_seen })

unfoldable pub observe :
    (Text → Text)
    → Faults
    → Text
    → ToolIdentity
    → Class
    → ℕ
    → Shelf
    → Shelf × Result QuarantineError Observation
unfolding class_valid hash keep_definition find_row scan_tool observe_known observe_first
observe sha256 f server t class now s =
    let h = hash sha256 t in
    let kept : Shelf = record {
      tools = s.tools;
      definitions = keep_definition h t now s.definitions;
    } in
    if not (class_valid class)
    then (s, err invalid_class)
    else if f.read_fails
    then (s, err storage_failed)
    else elim (find_row server t.name s.tools) [
      | none ↦ observe_first f server t.name h class now s kept
      | some row ↦ elim (scan_tool row) [
        | err e ↦ (rollback s kept, err e)
        | ok prev ↦ observe_known f h class now s kept prev
      ]
    ]

-- A transition of one row in one transaction: what `approve` and Revoke share.
unfoldable pub change :
    Faults
    → (Tool → Result QuarantineError Tool)
    → Text
    → Text
    → Shelf
    → Shelf × Result QuarantineError Tool
unfolding get moved prune
change f transition server tool s =
    if f.read_fails then (s, err storage_failed) else elim (get server tool s.tools) [
      | err e ↦ (s, err e)
      | ok prev ↦ elim (moved (transition prev) s.tools) [
        | err e ↦ (s, err e)
        | ok m ↦
            commit f s
              (prune_both prev.approved_hash prev.observed_hash (record s { tools = m.tools }))
              m.next
      ]
    ]

unfoldable pub approve_tool : Faults → Text → Text → ℕ → Shelf → Shelf × Result QuarantineError Tool
unfolding change approve
approve_tool f server tool now s = change f (λ prev. ok (approve prev now)) server tool s

unfoldable pub approve_fingerprint :
    Faults → Text → Text → Text → ℕ → Shelf → Shelf × Result QuarantineError Tool
unfolding change approved_fingerprint
approve_fingerprint f server tool reviewed now s =
    change f (λ prev. approved_fingerprint prev reviewed now) server tool s

unfoldable pub revoke_tool : Faults → Text → Text → ℕ → Shelf → Shelf × Result QuarantineError Tool
unfolding change revoked
revoke_tool f server tool now s = change f (λ prev. revoked prev now) server tool s

unfoldable pub clear_tool : Faults → Text → Text → ℕ → Shelf → Shelf × Result QuarantineError Tool
unfolding get moved cleared
clear_tool f server tool now s =
    if f.read_fails then (s, err storage_failed) else elim (get server tool s.tools) [
      | err e ↦ (s, err e)
      | ok prev ↦ elim (moved (cleared prev now) s.tools) [
        | err e ↦ (s, err e)
        | ok m ↦ commit f s (record s { tools = m.tools }) m.next
      ]
    ]

unfoldable pub forget : Faults → Text → Shelf → Shelf × Result QuarantineError ℕ
unfolding text_eq is_referenced
forget f server s =
    let left = select (λ t. not (text_eq t.server_name server)) s.tools in
    let gone = select (λ t. text_eq t.server_name server) s.tools in
    if f.read_fails
    then (s, err storage_failed)
    else commit f s
        (record {
          tools = left;
          definitions = select (λ d. is_referenced d.key left) s.definitions;
        })
        (length gone)

unfoldable pub find_definition : Text → List Definition → Option ToolIdentity
unfolding text_eq
find_definition h [] = none
find_definition h (d ∷ ds) = if text_eq d.key h then some d.identity else find_definition h ds

-- A definition, hashed again on the way out.
unfoldable pub definition :
    (Text → Text) → Bool → Text → Shelf → Result QuarantineError ToolIdentity
unfolding find_definition hash text_eq
definition sha256 read_fails h s =
    if read_fails then err storage_failed else elim (find_definition h s.definitions) [
      | none ↦ err definition_not_kept
      | some t ↦ if text_eq (hash sha256 t) h then ok t else err definition_mismatch
    ]
