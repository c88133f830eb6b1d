-- ===== src/Quarantine/Store/Life.antt =====
-- The history of one row among the transactions of the store.
use gatte.Base.{
  ◌≡◌, refl, sym, ap, ◌∙◌, subst, ℕ, true, false, ◌&&◌, ◌||◌, List, [], ◌∷◌, Text, text_eq,
  text_eq→eq, if◌then◌else◌, Option, none, some, inl, inr, arith, Bool-cases, Result, ok,
}
use gatte.Quarantine.{Tool, Class, QuarantineError, class_valid, new_tool}
use gatte.Quarantine.Transitions.{IsValid, new_tool-IsValid}
use gatte.Quarantine.History.{
  Act, act, observes, approves, approves_reviewed, clears, revokes, run, or_unchanged, run-IsValid,
}
use gatte.Quarantine.Identity.{hash}
use gatte.Quarantine.Store.{Shelf, Faults, find_row, scan_tool, change}
use gatte.Quarantine.Store.Lives.{change-own, change_other, map_row, valid-scan_tool, IsWrite}
use gatte.Quarantine.Store.Evidence.{
  StoreAct, store_observes, store_approves, store_approves_reviewed, store_clears, store_revokes,
  store_forgets, StoreEvent,
}

-- The history of one tool: when and with what it was first seen, and the acts on it since then, the
-- latest first.
pub record Life : Type 0 where
  pub hash : Text
  pub class : Class
  pub born : ℕ
  pub acts : List (ℕ × Act)

abbrev pub lived : ℕ → Act → Option Life → Option Life
lived now a none = none
lived now a (some l) = some (record l { acts = (now, a) ∷ l.acts })

abbrev pub first_or_lived : Text → Class → ℕ → Option Life → Option Life
first_or_lived h class now none = some (record { hash = h; class = class; born = now; acts = [] })
first_or_lived h class now (some l) = lived now (observes h class) (some l)

-- What one transaction adds to the history of a tool, told from the transaction alone.
unfoldable pub live : (Text → Text) → ℕ → StoreAct → Text → Text → Option Life → Option Life
unfolding text_eq hash class_valid
live sha256 now (store_observes server t class) q u o =
    if class_valid class && (text_eq server q && text_eq t.name u)
    then first_or_lived (hash sha256 t) class now o
    else o
live sha256 now (store_approves server tool) q u o =
    if text_eq server q && text_eq tool u then lived now approves o else o
live sha256 now (store_approves_reviewed server tool h) q u o =
    if text_eq server q && text_eq tool u then lived now (approves_reviewed h) o else o
live sha256 now (store_clears server tool) q u o =
    if text_eq server q && text_eq tool u then lived now clears o else o
live sha256 now (store_revokes server tool) q u o =
    if text_eq server q && text_eq tool u then lived now revokes o else o
live sha256 now (store_forgets server) q u o = if text_eq server q then none else o

unfoldable pub life_after : (Text → Text) → List StoreEvent → Text → Text → Option Life
unfolding live
life_after sha256 [] q u = none
life_after sha256 (ev ∷ earlier) q u =
    let before = life_after sha256 earlier q u in
    let after = live sha256 ev.now ev.act q u before in
    if ev.faults.read_fails || ev.faults.write_fails then before else after

-- The row that a history leaves.
abbrev pub row_of_life : Text → Text → Option Life → Option Tool
row_of_life q u none = none
row_of_life q u (some l) = some (run (new_tool q u l.hash l.class l.born) l.acts)

abbrev pub IsLife : Option Life → Type 0
IsLife none = Unit
IsLife (some l) = class_valid l.class ≡ true

module _ (q u : Text) where
  abbrev pub turned : ℕ → Act → Option Tool → Option Tool
  turned now a = map_row (λ r. act now r a)

  pub row-lived :
      (now : ℕ) (a : Act) (o : Option Life)
      → row_of_life q u (lived now a o) ≡ turned now a (row_of_life q u o)
  unfolding run act
  row-lived now a none = refl
  row-lived now a (some l) = refl

  pub lived-IsLife : (now : ℕ) (a : Act) (o : Option Life) → IsLife o → IsLife (lived now a o)
  lived-IsLife now a none h = tt
  lived-IsLife now a (some l) h = h

  -- Every row of a history can be read.
  pub row-scans :
      (o : Option Life) (row : Tool)
      → IsLife o
      → row_of_life q u o ≡ some row
      → scan_tool row ≡ ok row
  row-scans none row h e = absurd cc
  row-scans (some l) row h e =
      let made : run (new_tool q u l.hash l.class l.born) l.acts ≡ row = cc in
      valid-scan_tool row
        (subst IsValid made (run-IsValid _ l.acts (new_tool-IsValid q u l.hash l.class l.born h)))

  -- The row stands for the history.
  abbrev pub IsRow : Option Life → Shelf → Type 0
  IsRow o s = (find_row q u s.tools ≡ row_of_life q u o) × IsLife o

  module _ (f : Faults) (reads : f.read_fails ≡ false) (writes : f.write_fails ≡ false) (s : Shelf)
      (o : Option Life) (h : IsRow o s) where
    -- A transition of the row, and of any other.
    pub change-IsRow :
        (now : ℕ) (a : Act) (transition : Tool → Result QuarantineError Tool)
        → ((prev next : Tool) → transition prev ≡ ok next → IsWrite prev next)
        → ((row : Tool) → or_unchanged row (transition row) ≡ act now row a)
        → (server tool : Text)
        → ((row : Tool) → find_row server tool s.tools ≡ some row → scan_tool row ≡ ok row)
        → IsRow
            (if text_eq server q && text_eq tool u then lived now a o else o)
            (change f transition server tool s).0
    change-IsRow now a transition sound acts server tool scans =
        elim (Bool-cases (text_eq server q && text_eq tool u)) [
          | inr other ↦ rw other (
            change_other f reads writes transition sound server tool s scans q u other ∙ h.0,
            h.1,
          )
          | inl mine ↦
              let sq : server ≡ q = text_eq→eq server q (ground (arith, mine)) in
              let tu : tool ≡ u = text_eq→eq tool u (ground (arith, mine)) in
              rw mine (
                ap (λ k. find_row k u (change f transition server tool s).0.tools) (sym sq)
                    ∙ ap (λ k. find_row server k (change f transition server tool s).0.tools)
                        (sym tu)
                    ∙ change-own f reads writes transition sound server tool s scans
                    ∙ ap
                        (λ k.
                          map_row (λ r. or_unchanged r (transition r)) (find_row k tool s.tools))
                        sq
                    ∙ ap (λ k. map_row (λ r. or_unchanged r (transition r)) (find_row q k s.tools))
                        tu
                    ∙ ap (λ g. map_row g (find_row q u s.tools)) (λ i r. acts r i)
                    ∙ ap (turned now a) h.0
                    ∙ sym (row-lived now a o),
                lived-IsLife now a o h.1,
              )
        ]
