-- ===== src/Quarantine/Store/Seen.antt =====
-- Observations and clearances, seen from one row.
use gatte.Base.{
  ◌≡◌, sym, ap, ◌∙◌, ℕ, true, false, ◌&&◌, List, [], ◌∷◌, ◌++◌, Text, text_eq, text_eq_refl,
  if_true, Option, none, some, inl, inr, arith, Option-cases, Result-cases, ok, err,
}
use gatte.Quarantine.{Tool, Class, QuarantineError, class_valid, cleared, observed, new_tool}
use gatte.Quarantine.Identity.{ToolIdentity, hash}
use gatte.Quarantine.History.{or_unchanged}
use gatte.Quarantine.Store.{
  Shelf, Faults, moved, update, find_row, get, scan_tool, change, clear_tool, is_named, observe,
  observe_known, observe_first, keep_definition,
}
use gatte.Quarantine.Store.Lookup.{
  find_row-append, find_row-append_other, find_row-update, find_row-update_other,
}
use gatte.Quarantine.Store.Rows.{found_names}
use gatte.Quarantine.Store.Lives.{observed-IsWrite, prune_both_tools, moved_found}

-- A clearance writes the rows as a transition with a pruning would.
pub clear_tool-change :
    (f : Faults) (server tool : Text) (now : ℕ) (s : Shelf)
    → (clear_tool f server tool now s).0.tools
      ≡ (change f (λ prev. cleared prev now) server tool s).0.tools
unfolding clear_tool change
clear_tool-change f server tool now s = elim (Result-cases (get server tool s.tools)) [
  | inl (e, missing) ↦ ground (arith, missing)
  | inr (prev, found) ↦ elim (Result-cases (moved (cleared prev now) s.tools)) [
    | inl (e, refused) ↦ ground (arith, found, refused)
    | inr (m, done) ↦ ground (
      arith,
      found,
      done,
      prune_both_tools prev.approved_hash prev.observed_hash (record s { tools = m.tools }),
    )
  ]
]

module _ (sha256 : Text → Text) (f : Faults) (reads : f.read_fails ≡ false)
    (writes : f.write_fails ≡ false) (server : Text) (t : ToolIdentity) (class : Class)
    (valid : class_valid class ≡ true) (now : ℕ) (s : Shelf)
    (scans : (row : Tool)
      → find_row server t.name s.tools ≡ some row
      → scan_tool row ≡ ok row) where
  abbrev h : Text
  h = hash sha256 t

  abbrev first : Tool
  first = new_tool server t.name h class now

  abbrev after : List Tool
  after = (observe sha256 f server t class now s).0.tools

  data Sights : Type 0 where
    born : find_row server t.name s.tools ≡ none → after ≡ s.tools ++ first ∷ [] → Sights
    rejected :
        (row : Tool) (e : QuarantineError)
        → find_row server t.name s.tools ≡ some row
        → observed row h class now ≡ err e
        → after ≡ s.tools
        → Sights
    seen_again :
        (row next : Tool)
        → find_row server t.name s.tools ≡ some row
        → observed row h class now ≡ ok next
        → after ≡ update next s.tools
        → Sights

  sights : Sights
  unfolding observe observe_known observe_first moved
  sights = elim (Option-cases (find_row server t.name s.tools)) [
    | inl missing ↦ born missing (ground (arith, valid, reads, writes, missing))
    | inr (row, found) ↦ elim (Result-cases (observed row h class now)) [
      | inl (e, refused) ↦
          rejected row e found refused
            (ground (arith, valid, reads, found, scans row found, refused))
      | inr (next, allowed) ↦
          let done =
            ap (λ r. moved r s.tools) allowed
            ∙ moved_found server t.name s.tools row next found
                (observed-IsWrite h class now row next allowed) in
          seen_again row next found allowed (
            ground (
              arith,
              valid,
              reads,
              found,
              scans row found,
              done,
              writes,
              prune_both_tools row.observed_hash row.approved_hash (record {
                tools = update next s.tools;
                definitions = keep_definition h t now s.definitions;
              }),
            ))
    ]
  ]

  -- The row after an observation: born of the first, or through the transition.
  abbrev pub sighted : Option Tool → Option Tool
  sighted none = some first
  sighted (some row) = some (or_unchanged row (observed row h class now))

  first_named : is_named server t.name first ≡ true
  unfolding is_named new_tool
  first_named = ground (arith, text_eq_refl server, text_eq_refl t.name)

  pub observe-own : find_row server t.name after ≡ sighted (find_row server t.name s.tools)
  observe-own = elim sights [
    | born missing e ↦
        ap (find_row server t.name) e
        ∙ find_row-append server t.name s.tools first missing
        ∙ if_true _ _ _ first_named
        ∙ ap sighted (sym missing)
    | rejected row x found refused e ↦
        ap (find_row server t.name) e
        ∙ found
        ∙ ap (λ r. some (or_unchanged row r)) (sym refused)
        ∙ ap sighted (sym found)
    | seen_again row next found allowed e ↦
        let w = observed-IsWrite h class now row next allowed in
        let names = found_names server t.name s.tools row found in
        ap (find_row server t.name) e
        ∙ find_row-update server t.name next s.tools row found (w.server_same ∙ names.0)
            (w.tool_same ∙ names.1)
        ∙ ap (λ r. some r) w.written
        ∙ ap (λ r. some (or_unchanged row r)) (sym allowed)
        ∙ ap sighted (sym found)
  ]

  pub observe_other :
      (q u : Text)
      → (text_eq server q && text_eq t.name u) ≡ false
      → find_row q u after ≡ find_row q u s.tools
  unfolding new_tool is_named
  observe_other q u differ = elim sights [
    | born missing e ↦ ap (find_row q u) e ∙ find_row-append_other q u s.tools first differ
    | rejected row x found refused e ↦ ap (find_row q u) e
    | seen_again row next found allowed e ↦
        let w = observed-IsWrite h class now row next allowed in
        let names = found_names server t.name s.tools row found in
        ap (find_row q u) e
        ∙ find_row-update_other q u next s.tools (
            ap (λ a. text_eq a q && text_eq next.tool_name u) (w.server_same ∙ names.0)
            ∙ ap (λ a. text_eq server q && text_eq a u) (w.tool_same ∙ names.1)
            ∙ differ)
  ]
