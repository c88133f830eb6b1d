-- ===== src/Audit/Table/Sealed.antt =====
-- The head of the chain, kept elsewhere, seals the whole trail.
use gatte.Base.{
  ◌≡◌, ◌≢◌, ◌⊎◌, refl, sym, ap, ◌∙◌, subst, ℕ, List, [], ◌∷◌, Text, Result, ok, err, none, inl, inr,
  length, All, IsSized, map, arith,
}
use gatte.Quota.{Time}
use gatte.Audit.Chain.{chain_hash, Shown, shown, IsSizedRecord, genesis_hash}
use gatte.Audit.Chain.Covered.{Collision, chain_hash-covers}
use gatte.Audit.Table.{
  Platform, StoredRow, Table, record_of, newest_hash, VerifyFaults, ChainCheck, verify_chain,
}
use gatte.Audit.Table.Linked.{IsLink, IsLinked, verify_chain-IsAnswer}

-- The time that a row reads as.
abbrev time_text : Platform → Text → Result Text Time → Text
time_text p text (ok t) = p.format t
time_text p text (err why) = text

-- What the rows say, oldest last: every field, the time as it reads.
abbrev pub content : Platform → StoredRow → Shown
content p row = record {
  analyst_identity = row.analyst_identity;
  tool = row.tool;
  target_upstream = row.target_upstream;
  timestamp = time_text p row.timestamp (p.parse row.timestamp);
  outcome = row.outcome;
  reason = row.reason;
  source_address = row.source_address;
  analyst_name = row.analyst_name;
}

abbrev pub HasSizedContent : Platform → StoredRow → Type 0
HasSizedContent p row = IsSizedRecord (content p row)

module _ (p : Platform) (digest : (b : Text) → length (p.sha256 b) ≡ 64) where
  content-shown :
      (row : StoredRow) (prev : Text) (l : IsLink p prev row)
      → content p row ≡ shown p.format (record_of row l.time)
  content-shown row prev l =
      λ i. record (content p row) { timestamp = time_text p row.timestamp (l.reads i) }

  link-length : (row : StoredRow) (prev : Text) → IsLink p prev row → length row.hash ≡ 64
  unfolding chain_hash
  link-length row prev l = ap (λ h. length h) l.covers ∙ digest _

  newest-IsSized : (rows : List StoredRow) → IsLinked p rows → IsSized (newest_hash rows)
  newest-IsSized [] l = omega arith
  newest-IsSized (row ∷ older) l = omega (arith, link-length row (newest_hash older) l.0)

  not_genesis : (row : StoredRow) (prev : Text) → IsLink p prev row → row.hash ≢ genesis_hash
  not_genesis row prev l e =
      absurd (omega (arith, link-length row prev l, ap (λ h. length {A = ℕ} h) e))

  -- Linked rows under one hash agree, and so do the hashes before them.
  link_sealed :
      (row other : StoredRow) (prev before : Text)
      → IsLink p prev row
      → IsLink p before other
      → IsSized prev
      → IsSized before
      → HasSizedContent p row
      → HasSizedContent p other
      → row.hash ≡ other.hash
      → ((content p row ≡ content p other) × (prev ≡ before)) ⊎ Collision p.sha256
  link_sealed row other prev before l k sp sb hr ho e =
      let r = content-shown row prev l in
      let o = content-shown other before k in
      elim (chain_hash-covers p.sha256 p.format (record_of row l.time) (record_of other k.time)
        row.prev_hash other.prev_hash (subst IsSizedRecord r hr) (subst IsSizedRecord o ho)
        (subst IsSized (sym l.behind) sp) (subst IsSized (sym k.behind) sb)
        (sym l.covers ∙ e ∙ k.covers)) [
          | inl same ↦ inl (r ∙ same.0 ∙ sym o, sym l.behind ∙ same.1 ∙ k.behind)
          | inr collision ↦ inr collision
        ]

  linked_sealed :
      (rows others : List StoredRow)
      → IsLinked p rows
      → IsLinked p others
      → All (HasSizedContent p) rows
      → All (HasSizedContent p) others
      → newest_hash rows ≡ newest_hash others
      → (map (content p) rows ≡ map (content p) others) ⊎ Collision p.sha256
  linked_sealed [] [] l k hl hk e = inl refl
  linked_sealed [] (row ∷ older) l k hl hk e =
      absurd (not_genesis row (newest_hash older) k.0 (sym e))
  linked_sealed (row ∷ older) [] l k hl hk e = absurd (not_genesis row (newest_hash older) l.0 e)
  linked_sealed (row ∷ older) (other ∷ rest) l k hl hk e =
      elim (link_sealed row other (newest_hash older) (newest_hash rest) l.0 k.0
        (newest-IsSized older l.1) (newest-IsSized rest k.1) hl.0 hk.0 e) [
          | inr collision ↦ inr collision
          | inl same ↦ elim (linked_sealed older rest l.1 k.1 hl.1 hk.1 same.1) [
            | inl tails ↦ inl (λ i. same.0 i ∷ tails i)
            | inr collision ↦ inr collision
          ]
        ]

  -- Where the digest has 64 digits and no field is as long as 2^64, two tables that verify intact
  -- with one head hold the same records in the same order, times as they read, or show a collision
  -- of the digest: no edit, deletion, insertion or truncation keeps an anchored head.
  pub verify_chain-sealed :
      (f g : VerifyFaults) (t u : Table) (check other : ChainCheck)
      → verify_chain p f t ≡ ok check
      → verify_chain p g u ≡ ok other
      → check.first_break ≡ none
      → other.first_break ≡ none
      → check.head ≡ other.head
      → All (HasSizedContent p) t.rows
      → All (HasSizedContent p) u.rows
      → (map (content p) t.rows ≡ map (content p) u.rows) ⊎ Collision p.sha256
  verify_chain-sealed f g t u check other ec eo ic io same ht hu =
      let a = verify_chain-IsAnswer p f t check ec in
      let b = verify_chain-IsAnswer p g u other eo in
      linked_sealed t.rows u.rows (a.intact_linked ic) (b.intact_linked io) ht hu
        (sym (a.newest ic) ∙ same ∙ b.newest io)
