-- ===== src/Quarantine/Store/Lives.antt =====
-- One transaction of the store, seen from one row: the row goes through one act of the domain.
use gatte.Base.{
  ◌≡◌, refl, sym, ap, ◌∙◌, subst, ℕ, true, false, ◌&&◌, List, Text, text_eq, Option, none, some,
  inl, inr, any, arith, Bool-cases, Option-cases, Result-cases, Result, ok, err,
}
use gatte.Quarantine.{
  Tool, Class, QuarantineError, not_found, approve, approved_fingerprint, cleared, revoked,
  observed,
}
use gatte.Quarantine.Transitions.{IsValid}
use gatte.Quarantine.History.{or_unchanged}
use gatte.Quarantine.Store.{
  Shelf, Faults, moved, updated, update, find_row, get, scan_tool, set_columns, prune, prune_both,
  change, is_named,
}
use gatte.Quarantine.Store.Kept.{prune_tools}
use gatte.Quarantine.Store.Lookup.{find_row-update, find_row-update_other, any_found}
use gatte.Quarantine.Store.Rows.{found_names}

-- The columns that an update sets are all that a transition changes.
pub record IsWrite (prev next : Tool) : Type 0 where
  pub written : set_columns next prev ≡ next
  pub server_same : next.server_name ≡ prev.server_name
  pub tool_same : next.tool_name ≡ prev.tool_name

approve-IsWrite : (t : Tool) (now : ℕ) → IsWrite t (approve t now)
unfolding approve
approve-IsWrite t now = record { written = refl; server_same = refl; tool_same = refl }

pub approve_ok-IsWrite :
    (now : ℕ) (t next : Tool)
    → ◌≡◌ {A = Result QuarantineError Tool} (ok (approve t now)) (ok next)
    → IsWrite t next
approve_ok-IsWrite now t next e =
    let made : approve t now ≡ next = cc in subst (IsWrite t) made (approve-IsWrite t now)

pub approved_fingerprint-IsWrite :
    (reviewed : Text) (now : ℕ) (t next : Tool)
    → approved_fingerprint t reviewed now ≡ ok next
    → IsWrite t next
unfolding approved_fingerprint
approved_fingerprint-IsWrite reviewed now t next e =
    elim (Bool-cases (text_eq t.observed_hash reviewed)) [
      | inl same ↦
          let made : approve t now ≡ next = ground (arith, same, e) in
          subst (IsWrite t) made (approve-IsWrite t now)
      | inr moved_on ↦ absurd (ground (arith, moved_on, e))
    ]

pub revoked-IsWrite : (now : ℕ) (t next : Tool) → revoked t now ≡ ok next → IsWrite t next
unfolding revoked
revoked-IsWrite now t next e = record {
  written = ground (arith, e);
  server_same = ground (arith, e);
  tool_same = ground (arith, e);
}

pub cleared-IsWrite : (now : ℕ) (t next : Tool) → cleared t now ≡ ok next → IsWrite t next
unfolding cleared
cleared-IsWrite now t next e = record {
  written = ground (arith, e);
  server_same = ground (arith, e);
  tool_same = ground (arith, e);
}

pub observed-IsWrite :
    (h : Text) (class : Class) (now : ℕ) (t next : Tool)
    → observed t h class now ≡ ok next
    → IsWrite t next
unfolding observed
observed-IsWrite h class now t next e = record {
  written = ground (arith, e);
  server_same = ground (arith, e);
  tool_same = ground (arith, e);
}

pub valid-scan_tool : (t : Tool) → IsValid t → scan_tool t ≡ ok t
unfolding scan_tool
valid-scan_tool t v = ground (arith, v.status_defined, v.class_defined)

abbrev pub map_row : (Tool → Tool) → Option Tool → Option Tool
map_row f none = none
map_row f (some t) = some (f t)

pub prune_both_tools : (a b : Text) (s : Shelf) → (prune_both a b s).tools ≡ s.tools
prune_both_tools a b s = prune_tools b (prune a s) ∙ prune_tools a s

pub moved_found :
    (server tool : Text) (ts : List Tool) (prev next : Tool)
    → find_row server tool ts ≡ some prev
    → IsWrite prev next
    → moved (ok next) ts ≡ ok (record { next = next; tools = update next ts })
unfolding moved updated
moved_found server tool ts prev next found w =
    let names = found_names server tool ts prev found in
    let there : any (is_named next.server_name next.tool_name) ts ≡ true =
      ap (λ q. any (is_named q next.tool_name) ts) (w.server_same ∙ names.0)
      ∙ ap (λ q. any (is_named server q) ts) (w.tool_same ∙ names.1)
      ∙ any_found server tool ts prev found in
    ground (arith, there)

module _ (f : Faults) (reads : f.read_fails ≡ false) (writes : f.write_fails ≡ false)
    (transition : Tool → Result QuarantineError Tool)
    (sound : (prev next : Tool) → transition prev ≡ ok next → IsWrite prev next)
    (server tool : Text) (s : Shelf)
    (scans : (row : Tool) → find_row server tool s.tools ≡ some row → scan_tool row ≡ ok row) where
  abbrev after : List Tool
  after = (change f transition server tool s).0.tools

  get_found :
      (row : Tool) → find_row server tool s.tools ≡ some row → get server tool s.tools ≡ ok row
  unfolding get
  get_found row found = ground (arith, found, scans row found)

  get_missing : find_row server tool s.tools ≡ none → get server tool s.tools ≡ err not_found
  unfolding get
  get_missing missing = ground (arith, missing)

  -- The rows after the transaction: an update where the row is there and its transition is allowed.
  data Ways : Type 0 where
    stays : find_row server tool s.tools ≡ none → after ≡ s.tools → Ways
    refuses :
        (row : Tool) (e : QuarantineError)
        → find_row server tool s.tools ≡ some row
        → transition row ≡ err e
        → after ≡ s.tools
        → Ways
    writes_row :
        (row next : Tool)
        → find_row server tool s.tools ≡ some row
        → transition row ≡ ok next
        → after ≡ update next s.tools
        → Ways

  ways : Ways
  unfolding change moved
  ways = elim (Option-cases (find_row server tool s.tools)) [
    | inl missing ↦ stays missing (ground (arith, reads, get_missing missing))
    | inr (row, found) ↦ elim (Result-cases (transition row)) [
      | inl (e, refused) ↦
          refuses row e found refused (ground (arith, reads, get_found row found, refused))
      | inr (next, allowed) ↦
          let done =
            ap (λ r. moved r s.tools) allowed
            ∙ moved_found server tool s.tools row next found (sound row next allowed) in
          writes_row row next found allowed (
            ground (
              arith,
              reads,
              get_found row found,
              done,
              writes,
              prune_both_tools row.approved_hash row.observed_hash
                  (record s { tools = update next s.tools }),
            ))
    ]
  ]

  abbrev row_after : Option Tool
  row_after = map_row (λ r. or_unchanged r (transition r)) (find_row server tool s.tools)

  -- The row goes through the transition, or stays where that is refused.
  pub change-own : find_row server tool after ≡ row_after
  change-own = elim ways [
    | stays missing e ↦ ap (find_row server tool) e ∙ missing ∙ ap (map_row _) (sym missing)
    | refuses row x found refused e ↦
        ap (find_row server tool) e
        ∙ found
        ∙ ap (λ r. some (or_unchanged row r)) (sym refused)
        ∙ ap (map_row (λ r. or_unchanged r (transition r))) (sym found)
    | writes_row row next found allowed e ↦
        let w = sound row next allowed in
        let names = found_names server tool s.tools row found in
        ap (find_row server tool) e
        ∙ find_row-update server tool next s.tools row found (w.server_same ∙ names.0)
            (w.tool_same ∙ names.1)
        ∙ ap (λ r. some r) w.written
        ∙ ap (λ r. some (or_unchanged row r)) (sym allowed)
        ∙ ap (map_row (λ r. or_unchanged r (transition r))) (sym found)
  ]

  -- Every other row stays as it is.
  pub change_other :
      (q u : Text)
      → (text_eq server q && text_eq tool u) ≡ false
      → find_row q u after ≡ find_row q u s.tools
  change_other q u differ = elim ways [
    | stays missing e ↦ ap (find_row q u) e
    | refuses row x found refused e ↦ ap (find_row q u) e
    | writes_row row next found allowed e ↦
        let w = sound row next allowed in
        let names = found_names server tool s.tools row found in
        ap (find_row q u) e
        ∙ find_row-update_other q u next s.tools (
            ap (λ a. text_eq a q && text_eq next.tool_name u) (w.server_same ∙ names.0)
            ∙ ap (λ a. text_eq server q && text_eq a u) (w.tool_same ∙ names.1)
            ∙ differ)
  ]
