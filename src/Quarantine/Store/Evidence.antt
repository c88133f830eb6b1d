-- ===== src/Quarantine/Store/Evidence.antt =====
-- After any history of the store's transactions but bulk approvals, every definition that a row names
-- can be shown.
use gatte.Base.{
  ◌≡◌, ◌≢◌, ◌∙◌, ℕ, true, false, List, [], ◌∷◌, Text, text_eq, text_eq_iff, text_eq→eq, some, inl,
  inr, ◌⊎◌, All, arith, Bool-cases, ok,
}
use gatte.Quarantine.{Tool, Class}
use gatte.Quarantine.Identity.{ToolIdentity, hash}
use gatte.Quarantine.Store.{
  Definition, Shelf, Faults, find_row, observe, approve_tool, approve_fingerprint, revoke_tool,
  clear_tool, forget, definition, find_definition,
}
use gatte.Quarantine.Store.Rows.{find_row-All}
use gatte.Quarantine.Store.Kept.{IsShelf, IsKeptTool, IsTrueDefinition, has_definition}
use gatte.Quarantine.Store.Transactions.{
  approve_tool-IsShelf, approve_fingerprint-IsShelf, revoke_tool-IsShelf,
}
use gatte.Quarantine.Store.Sightings.{observe-IsShelf}
use gatte.Quarantine.Store.Departures.{clear_tool-IsShelf, forget-IsShelf}

pub data StoreAct : Type 0 where
  store_observes : Text → ToolIdentity → Class → StoreAct
  store_approves store_clears store_revokes : Text → Text → StoreAct
  store_approves_reviewed : Text → Text → Text → StoreAct
  store_forgets : Text → StoreAct

pub record StoreEvent : Type 0 where
  pub now : ℕ
  pub faults : Faults
  pub act : StoreAct

unfoldable pub transact : (Text → Text) → ℕ → Faults → StoreAct → Shelf → Shelf
unfolding observe approve_tool approve_fingerprint revoke_tool clear_tool forget
transact sha256 now f (store_observes server t class) s = (observe sha256 f server t class now s).0
transact sha256 now f (store_approves server tool) s = (approve_tool f server tool now s).0
transact sha256 now f (store_approves_reviewed server tool h) s =
    (approve_fingerprint f server tool h now s).0
transact sha256 now f (store_clears server tool) s = (clear_tool f server tool now s).0
transact sha256 now f (store_revokes server tool) s = (revoke_tool f server tool now s).0
transact sha256 now f (store_forgets server) s = (forget f server s).0

abbrev pub empty_shelf : Shelf
empty_shelf = record { tools = []; definitions = [] }

-- The latest event stands first.
unfoldable pub shelf_after : (Text → Text) → List StoreEvent → Shelf
unfolding transact
shelf_after sha256 [] = empty_shelf
shelf_after sha256 (ev ∷ earlier) =
    transact sha256 ev.now ev.faults ev.act (shelf_after sha256 earlier)

find_definition_there :
    (h : Text) (ds : List Definition) (sha256 : Text → Text)
    → All (IsTrueDefinition sha256) ds
    → has_definition h ds ≡ true
    → (t : ToolIdentity) × (find_definition h ds ≡ some t) × (hash sha256 t ≡ h)
unfolding find_definition
find_definition_there h [] sha256 g e = absurd cc
find_definition_there h (d ∷ ds) sha256 g e = elim (Bool-cases (text_eq d.key h)) [
  | inl same ↦ (d.identity, ground (arith, same), g.0 ∙ text_eq→eq d.key h same)
  | inr other ↦
      let rest = find_definition_there h ds sha256 g.1 (ground (arith, other, e)) in
      (rest.0, ground (arith, other, rest.1), rest.2)
]

-- A definition is shown, and it is the one that the hash is of.
abbrev pub IsShown : (Text → Text) → Shelf → Text → Type 0
IsShown sha256 s h = (t : ToolIdentity) × (definition sha256 false h s ≡ ok t) × (hash sha256 t ≡ h)

kept-IsShown :
    (sha256 : Text → Text) (s : Shelf) (h : Text)
    → IsShelf sha256 s
    → has_definition h s.definitions ≡ true
    → IsShown sha256 s h
unfolding definition
kept-IsShown sha256 s h shelf e =
    let there = find_definition_there h s.definitions sha256 shelf.genuine e in
    (there.0, ground (arith, there.1, there.2, text_eq_iff (hash sha256 there.0) h), there.2)

module _ (sha256 : Text → Text) (digest : (t : Text) → sha256 t ≢ []) where
  transact-IsShelf :
      (now : ℕ) (f : Faults) (act : StoreAct) (s : Shelf)
      → IsShelf sha256 s
      → IsShelf sha256 (transact sha256 now f act s)
  unfolding transact
  transact-IsShelf now f (store_observes server t class) s =
      observe-IsShelf sha256 digest f server t class now s
  transact-IsShelf now f (store_approves server tool) s =
      approve_tool-IsShelf sha256 digest f server tool now s
  transact-IsShelf now f (store_approves_reviewed server tool h) s =
      approve_fingerprint-IsShelf sha256 digest f server tool h now s
  transact-IsShelf now f (store_clears server tool) s =
      clear_tool-IsShelf sha256 digest f server tool now s
  transact-IsShelf now f (store_revokes server tool) s =
      revoke_tool-IsShelf sha256 digest f server tool now s
  transact-IsShelf now f (store_forgets server) s = forget-IsShelf sha256 digest f server s

  -- Where no digest is empty: after any history of observations, approvals, clearances, revocations
  -- and forgotten upstreams, whatever failed, rows have distinct keys, every definition that a row
  -- names is kept and hashes to its key, and every definition kept is named by some row.
  pub shelf_after-IsShelf : (evs : List StoreEvent) → IsShelf sha256 (shelf_after sha256 evs)
  unfolding shelf_after
  shelf_after-IsShelf [] = record { keyed = tt; kept = tt; genuine = tt; needed = tt }
  shelf_after-IsShelf (ev ∷ earlier) =
      transact-IsShelf ev.now ev.faults ev.act (shelf_after sha256 earlier)
        (shelf_after-IsShelf earlier)

  -- Where no digest is empty: after any such history, the definition that a row was last seen with
  -- is shown on demand and hashes to the fingerprint in the row, and so is the one that was approved.
  pub definition-shelf_after :
      (evs : List StoreEvent) (server tool : Text) (row : Tool)
      → find_row server tool (shelf_after sha256 evs).tools ≡ some row
      → IsShown sha256 (shelf_after sha256 evs) row.observed_hash
        × ((row.approved_hash ≡ []) ⊎ IsShown sha256 (shelf_after sha256 evs) row.approved_hash)
  definition-shelf_after evs server tool row found =
      let s = shelf_after sha256 evs in
      let shelf = shelf_after-IsShelf evs in
      let kept = find_row-All (IsKeptTool s.definitions) server tool s.tools row shelf.kept found in
      (
        kept-IsShown sha256 s row.observed_hash shelf kept.0,
        elim kept.1 [
          | inl none_approved ↦ inl none_approved
          | inr there ↦ inr (kept-IsShown sha256 s row.approved_hash shelf there)
        ],
      )
