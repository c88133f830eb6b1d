-- ===== src/Audit/Table/Linked.antt =====
-- A verification that answers intact is one of a table whose rows are linked.
use gatte.Base.{
  ◌≡◌, ◌≢◌, ◌↔◌, refl, ap, ◌∙◌, subst, ℕ, Bool, true, false, not, ◌||◌, List, [], ◌∷◌, Text,
  text_eq, text_eq→eq, text_eq_iff, if◌then◌else◌, Option, none, some, ok, err, Result-cases,
  Bool-cases, inl, inr, length, arith,
}
use gatte.Quota.{Time}
use gatte.Audit.Chain.{chain_hash}
use gatte.Audit.Table.{
  Platform, StoredRow, Table, record_of, newest_hash, VerifyFaults, Walk, going, returned,
  ChainCheck, ChainBreak, after_walk, boundary_of, verify_row, verify_rows, verify_chain,
  verify_readable, verify_unreadable,
}

-- Each row is readable, names the hash of the row before it, and carries its own.
pub record IsLink (p : Platform) (prev : Text) (row : StoredRow) : Type 0 where
  pub time : Time
  pub reads : p.parse row.timestamp ≡ ok time
  pub behind : row.prev_hash ≡ prev
  pub covers : row.hash ≡ chain_hash p.sha256 p.format row.prev_hash (record_of row time)

abbrev pub IsLinked : Platform → List StoredRow → Type 0
IsLinked p [] = Unit
IsLinked p (row ∷ older) = IsLink p (newest_hash older) row × IsLinked p older

abbrev IsFollowed : Platform → VerifyFaults → List StoredRow → Walk → Type 0
IsFollowed p f rows (going prev check) =
    (prev ≡ newest_hash rows)
    × (check.count ≡ length rows)
    × ((check.first_break ≡ none) ↔ IsLinked p rows)
IsFollowed p f rows (returned (ok check)) = (check.first_break ≢ none) × (IsLinked p rows → ⊥)
IsFollowed p f rows (returned (err e)) = (n : ℕ) × (f.scan_fails n ≡ true)

no_break :
    (a b : Bool) (o : Option ChainBreak) (x : ChainBreak)
    → (if not a || not b then some x else o) ≡ none
    → (a ≡ true) × (b ≡ true) × (o ≡ none)
no_break true true o x e = (refl, refl, e)
no_break true false o x e = absurd cc
no_break false b o x e = absurd cc

module _ (p : Platform) (f : VerifyFaults) (boundary : ℕ) where
  module _ (row : StoredRow) (older : List StoredRow) (time : Time) (prev : Text)
      (check : ChainCheck) (reads : p.parse row.timestamp ≡ ok time)
      (h : IsFollowed p f older (going prev check)) where
    abbrev next : ChainCheck
    next = verify_readable p boundary row time prev check

    readable-IsLinked : next.first_break ≡ none → IsLinked p (row ∷ older)
    unfolding verify_readable
    readable-IsLinked e =
        let want = chain_hash p.sha256 p.format row.prev_hash (record_of row time) in
        let parts =
          no_break (text_eq row.prev_hash prev) (text_eq row.hash want) check.first_break _ e in
        (
          record {
            time = time;
            reads = reads;
            behind = text_eq→eq row.prev_hash prev parts.0 ∙ h.0;
            covers = text_eq→eq row.hash want parts.1;
          },
          h.2.0 parts.2,
        )

    linked_readable : IsLinked p (row ∷ older) → next.first_break ≡ none
    unfolding verify_readable
    linked_readable l =
        let want = chain_hash p.sha256 p.format row.prev_hash (record_of row time) in
        let same_time : l.0.time ≡ time = ground (arith, l.0.reads, reads) in
        let covers : row.hash ≡ want =
          l.0.covers
          ∙ ap (λ t. chain_hash p.sha256 p.format row.prev_hash (record_of row t)) same_time in
        ground (
          arith,
          text_eq_iff row.prev_hash prev,
          text_eq_iff row.hash want,
          covers,
          l.0.behind,
          h.0,
          h.2.1 l.1,
        )

    readable-IsFollowed : IsFollowed p f (row ∷ older) (going row.hash next)
    unfolding verify_readable
    readable-IsFollowed = (refl, omega (arith, h.1), (readable-IsLinked, linked_readable))

  unreadable-IsFollowed :
      (row : StoredRow) (older : List StoredRow) (why prev : Text) (check : ChainCheck)
      → p.parse row.timestamp ≡ err why
      → IsFollowed p f (row ∷ older) (returned (ok (verify_unreadable row why check)))
  unreadable-IsFollowed row older why prev check e =
      ((λ f. absurd cc), λ l. absurd (ground (arith, l.0.reads, e)))

  row-IsFollowed :
      (row : StoredRow) (older : List StoredRow) (w : Walk)
      → IsFollowed p f older w
      → IsFollowed p f (row ∷ older) (verify_row p f boundary row w)
  unfolding verify_row
  row-IsFollowed row older (returned (ok check)) h = (h.0, λ l. h.1 l.1)
  row-IsFollowed row older (returned (err e)) h = h
  row-IsFollowed row older (going prev check) h = elim (Bool-cases (f.scan_fails row.id)) [
    | inl fails ↦ rw (verify_row, fails) (row.id, fails)
    | inr scanned ↦ elim (Result-cases (p.parse row.timestamp)) [
      | inl (why, e) ↦
          rw (verify_row, scanned, e) (unreadable-IsFollowed row older why prev check e)
      | inr (time, e) ↦
          rw (verify_row, scanned, e) (readable-IsFollowed row older time prev check e h)
    ]
  ]

  pub rows-IsFollowed :
      (rows : List StoredRow) → IsFollowed p f rows (verify_rows p f boundary rows)
  unfolding verify_rows
  rows-IsFollowed [] = (refl, refl, ((λ e. tt), λ l. refl))
  rows-IsFollowed (row ∷ older) = row-IsFollowed row older _ (rows-IsFollowed older)

-- What an answer says of the rows.
pub record IsAnswer (p : Platform) (rows : List StoredRow) (check : ChainCheck) : Type 0 where
  pub intact_linked : check.first_break ≡ none → IsLinked p rows
  pub linked_intact : IsLinked p rows → check.first_break ≡ none
  pub newest : check.first_break ≡ none → check.head ≡ newest_hash rows
  pub counts : check.first_break ≡ none → check.count ≡ length rows

after_walk-IsAnswer :
    (p : Platform) (f : VerifyFaults) (rows : List StoredRow) (fail : Bool) (w : Walk)
    (check : ChainCheck)
    → IsFollowed p f rows w
    → after_walk fail w ≡ ok check
    → IsAnswer p rows check
after_walk-IsAnswer p f rows fail (returned (err x)) check h e = absurd cc
after_walk-IsAnswer p f rows fail (returned (ok c)) check h e =
    let same : c ≡ check = cc in
    subst (IsAnswer p rows) same (record {
      intact_linked = λ b. absurd (h.0 b);
      linked_intact = λ l. absurd (h.1 l);
      newest = λ b. absurd (h.0 b);
      counts = λ b. absurd (h.0 b);
    })
after_walk-IsAnswer p f rows true (going prev c) check h e = absurd cc
after_walk-IsAnswer p f rows false (going prev c) check h e =
    let same : record c { head = prev } ≡ check = cc in
    subst (IsAnswer p rows) same (record {
      intact_linked = h.2.0;
      linked_intact = h.2.1;
      newest = λ b. h.0;
      counts = λ b. h.1;
    })

-- Where a verification answers, it finds no break exactly if every row is readable, names the hash
-- of the row before it and carries its own; then its head is the hash of the newest row, and its
-- count the number of rows.
pub verify_chain-IsAnswer :
    (p : Platform) (f : VerifyFaults) (t : Table) (check : ChainCheck)
    → verify_chain p f t ≡ ok check
    → IsAnswer p t.rows check
unfolding verify_chain
verify_chain-IsAnswer p f t check e = elim (Bool-cases (f.meta_fails || f.query_fails)) [
  | inl fails ↦ absurd (ground (arith, fails, e))
  | inr reads ↦
      after_walk-IsAnswer p f t.rows f.rows_fail _ check
        (rows-IsFollowed p f (boundary_of t.boundary) t.rows) (rw reads at e)
]

-- A verification of which no call fails answers.
after_walk-answers :
    (p : Platform) (f : VerifyFaults) (rows : List StoredRow) (w : Walk)
    → ((n : ℕ) → f.scan_fails n ≡ false)
    → IsFollowed p f rows w
    → (check : ChainCheck) × (after_walk false w ≡ ok check)
after_walk-answers p f rows (returned (ok c)) scans h = (c, refl)
after_walk-answers p f rows (returned (err e)) scans h = absurd (ground (arith, scans h.0, h.1))
after_walk-answers p f rows (going prev c) scans h = (record c { head = prev }, refl)

pub record NeverFails (f : VerifyFaults) : Type 0 where
  pub meta_read : f.meta_fails ≡ false
  pub queried : f.query_fails ≡ false
  pub scans : (n : ℕ) → f.scan_fails n ≡ false
  pub rows_read : f.rows_fail ≡ false

pub verify_chain-answers :
    (p : Platform) (f : VerifyFaults) (t : Table)
    → NeverFails f
    → (check : ChainCheck) × (verify_chain p f t ≡ ok check)
unfolding verify_chain
verify_chain-answers p f t h =
    rw (h.meta_read, h.queried, h.rows_read)
      (after_walk-answers p f t.rows _ h.scans
        (rows-IsFollowed p f (boundary_of t.boundary) t.rows))
