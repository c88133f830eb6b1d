-- ===== src/Quarantine/Store/Served.antt =====
-- After any history of the store's transactions but bulk approvals, each row is what its own history makes of it.
use gatte.Base.{
  ◌≡◌, refl, sym, ap, ◌∙◌, subst, ℕ, Bool, true, false, not, ◌&&◌, ◌||◌, List, [], ◌∷◌, Text,
  text_eq, text_eq→eq, if◌then◌else◌, if_true, if_false, Option, none, some, inl, inr, arith,
  Bool-cases, select, ok,
}
use gatte.Quarantine.{Tool, Class, usable, class_valid, new_tool, cleared}
use gatte.Quarantine.History.{act, approves, approves_reviewed, clears, revokes, run}
use gatte.Quarantine.History.Served.{served, usable-run}
use gatte.Quarantine.Identity.{ToolIdentity, hash}
use gatte.Quarantine.Store.{
  Shelf, Faults, find_row, scan_tool, observe, approve_tool, approve_fingerprint, revoke_tool,
  forget,
}
use gatte.Quarantine.Store.Lookup.{find_row-forgotten}
use gatte.Quarantine.Store.Lives.{
  approve_ok-IsWrite, approved_fingerprint-IsWrite, revoked-IsWrite, cleared-IsWrite,
}
use gatte.Quarantine.Store.Seen.{clear_tool-change, sighted, observe-own, observe_other}
use gatte.Quarantine.Store.Life.{
  Life, first_or_lived, live, life_after, row_of_life, IsLife, IsRow, row-scans, change-IsRow,
}
use gatte.Quarantine.Store.Failed.{failed_transaction}
use gatte.Quarantine.Store.Evidence.{
  StoreAct, store_observes, store_approves, store_approves_reviewed, store_clears, store_revokes,
  store_forgets, StoreEvent, transact, shelf_after,
}

-- What the gate answers about a row, if there is one.
abbrev pub gate : Option Tool → Option Bool
gate none = none
gate (some row) = some (usable row)

abbrev pub served_life : Text → Text → Option Life → Option Bool
served_life server tool none = none
served_life server tool (some l) = some (served (new_tool server tool l.hash l.class l.born) l.acts)

served_lives :
    (server tool : Text) (o : Option Life)
    → IsLife o
    → gate (row_of_life server tool o) ≡ served_life server tool o
served_lives server tool none h = refl
served_lives server tool (some l) h =
    ap (λ b. some b) (usable-run server tool l.hash l.class l.born l.acts h)

first_or_lived-IsLife :
    (k : Text) (class : Class) (now : ℕ) (o : Option Life)
    → class_valid class ≡ true
    → IsLife o
    → IsLife (first_or_lived k class now o)
first_or_lived-IsLife k class now none valid h = valid
first_or_lived-IsLife k class now (some l) valid h = h

unknown_class :
    (sha256 : Text → Text) (f : Faults) (server : Text) (t : ToolIdentity) (class : Class) (now : ℕ)
    (s : Shelf)
    → class_valid class ≡ false
    → (observe sha256 f server t class now s).0 ≡ s
unfolding observe
unknown_class sha256 f server t class now s e = rw e refl

forgotten_rows :
    (f : Faults) (server : Text) (s : Shelf)
    → f.read_fails ≡ false
    → f.write_fails ≡ false
    → (forget f server s).0.tools ≡ select (λ t. not (text_eq t.server_name server)) s.tools
unfolding forget
forgotten_rows f server s reads writes = ground (arith, reads, writes)

-- Every row of the shelf stands for its history.
abbrev StandsFor : Shelf → (Text → Text → Option Life) → Type 0
StandsFor s lives = (q u : Text) → IsRow q u (lives q u) s

module _ (sha256 : Text → Text) (f : Faults) (s : Shelf) (lives : Text → Text → Option Life)
    (h : StandsFor s lives) where
  scans :
      (server tool : Text) (row : Tool)
      → find_row server tool s.tools ≡ some row
      → scan_tool row ≡ ok row
  scans server tool row found =
      row-scans server tool (lives server tool) row (h server tool).1
        (sym (h server tool).0 ∙ found)

  module _ (reads : f.read_fails ≡ false) (writes : f.write_fails ≡ false) (now : ℕ) where
    sighted_row :
        (server : Text) (t : ToolIdentity) (class : Class) (valid : class_valid class ≡ true)
        (o : Option Life)
        → sighted sha256 f reads writes server t class valid now s
            (scans server t.name)
            (row_of_life server t.name o)
          ≡ row_of_life server t.name (first_or_lived (hash sha256 t) class now o)
    unfolding run act
    sighted_row server t class valid none = refl
    sighted_row server t class valid (some l) = refl

    observes-own :
        (server : Text) (t : ToolIdentity) (class : Class)
        → class_valid class ≡ true
        → IsRow server t.name
            (first_or_lived (hash sha256 t) class now (lives server t.name))
            (observe sha256 f server t class now s).0
    observes-own server t class valid =
        let there = h server t.name in
        (
          observe-own sha256 f reads writes server t class valid now s (scans server t.name)
              ∙ ap (sighted sha256 f reads writes server t class valid now s (scans server t.name))
                  there.0
              ∙ sighted_row server t class valid (lives server t.name),
          first_or_lived-IsLife (hash sha256 t) class now (lives server t.name) valid there.1,
        )

    observes-IsRow :
        (server : Text) (t : ToolIdentity) (class : Class) (q u : Text)
        → class_valid class ≡ true
        → IsRow q u
            (if text_eq server q && text_eq t.name u
              then first_or_lived (hash sha256 t) class now (lives q u)
              else lives q u)
            (observe sha256 f server t class now s).0
    observes-IsRow server t class q u valid =
        elim (Bool-cases (text_eq server q && text_eq t.name u)) [
          | inr other ↦ rw other (
            observe_other sha256 f reads writes server t class valid now s (scans server t.name) q u
                  other
                ∙ (h q u).0,
            (h q u).1,
          )
          | inl mine ↦
              let after = (observe sha256 f server t class now s).0 in
              let fate : Text → Text → Option Life =
                λ k n. first_or_lived (hash sha256 t) class now (lives k n) in
              rw mine (
                subst (λ k. IsRow k u (fate k u) after) (text_eq→eq server q (ground (arith, mine)))
                  (subst (λ n. IsRow server n (fate server n) after)
                    (text_eq→eq t.name u (ground (arith, mine)))
                    (observes-own server t class valid)))
        ]

    transact-StandsFor :
        (a : StoreAct)
        → StandsFor (transact sha256 now f a s) (λ q u. live sha256 now a q u (lives q u))
    unfolding transact live approve_tool approve_fingerprint revoke_tool act
    transact-StandsFor (store_observes server t class) q u = elim (Bool-cases (class_valid class)) [
      | inl valid ↦ rw valid (observes-IsRow server t class q u valid)
      | inr unknown ↦ rw unknown (
        ap (λ (z : Shelf). find_row q u z.tools)
              (unknown_class sha256 f server t class now s unknown)
            ∙ (h q u).0,
        (h q u).1,
      )
    ]
    transact-StandsFor (store_approves server tool) q u =
        change-IsRow q u f reads writes s (lives q u) (h q u) now approves _
          (approve_ok-IsWrite now) (λ row. refl) server tool (scans server tool)
    transact-StandsFor (store_approves_reviewed server tool r) q u =
        change-IsRow q u f reads writes s (lives q u) (h q u) now (approves_reviewed r) _
          (approved_fingerprint-IsWrite r now) (λ row. refl) server tool (scans server tool)
    transact-StandsFor (store_clears server tool) q u =
        let done =
          change-IsRow q u f reads writes s (lives q u) (h q u) now clears
            (λ prev. cleared prev now) (cleared-IsWrite now) (λ row. refl) server tool
            (scans server tool) in
        (ap (find_row q u) (clear_tool-change f server tool now s) ∙ done.0, done.1)
    transact-StandsFor (store_revokes server tool) q u =
        change-IsRow q u f reads writes s (lives q u) (h q u) now revokes _ (revoked-IsWrite now)
          (λ row. refl) server tool (scans server tool)
    transact-StandsFor (store_forgets server) q u =
        let found =
          ap (find_row q u) (forgotten_rows f server s reads writes)
          ∙ find_row-forgotten q u server s.tools in
        elim (Bool-cases (text_eq server q)) [
          | inl gone ↦ rw gone (found ∙ if_true _ _ _ gone, tt)
          | inr stays ↦ rw stays (found ∙ if_false _ _ _ stays ∙ (h q u).0, (h q u).1)
        ]

shelf_after-StandsFor :
    (sha256 : Text → Text) (evs : List StoreEvent)
    → StandsFor (shelf_after sha256 evs) (life_after sha256 evs)
unfolding shelf_after life_after find_row
shelf_after-StandsFor sha256 [] q u = (refl, tt)
shelf_after-StandsFor sha256 (ev ∷ earlier) q u =
    let before = shelf_after-StandsFor sha256 earlier in
    let s = shelf_after sha256 earlier in
    elim (Bool-cases (ev.faults.read_fails || ev.faults.write_fails)) [
      | inl fails ↦
          subst (λ o. IsRow q u o (transact sha256 ev.now ev.faults ev.act s))
            (sym (if_true _ _ _ fails))
            (subst (IsRow q u (life_after sha256 earlier q u))
              (sym (failed_transaction ev.faults fails s sha256 ev.now ev.act)) (before q u))
      | inr works ↦
          subst (λ o. IsRow q u o (transact sha256 ev.now ev.faults ev.act s))
            (sym (if_false _ _ _ works))
            (transact-StandsFor sha256 ev.faults s (life_after sha256 earlier) before
              (ground (arith, works)) (ground (arith, works)) ev.now ev.act q u)
    ]

-- After any history of observations, approvals, clearances, revocations and forgotten upstreams in the
-- store, whatever calls failed, a tool has a row exactly if it has a life: it was seen and its upstream
-- not forgotten since. The gate then serves the row exactly if the acts of this life, read on their own,
-- vouch for it; what was done to other tools and what failed plays no part.
pub usable-shelf_after :
    (sha256 : Text → Text) (evs : List StoreEvent) (server tool : Text)
    → gate (find_row server tool (shelf_after sha256 evs).tools)
      ≡ served_life server tool (life_after sha256 evs server tool)
usable-shelf_after sha256 evs server tool =
    let h = shelf_after-StandsFor sha256 evs server tool in
    ap gate h.0 ∙ served_lives server tool (life_after sha256 evs server tool) h.1
