-- ===== src/Quarantine/Store/Failed.antt =====
-- A transaction of which a call fails changes nothing.
use gatte.Base.{
  ◌≡◌, ℕ, true, false, ◌||◌, Text, inl, inr, arith, Bool-cases, Option-cases, Result-cases, Result,
  ok,
}
use gatte.Quarantine.{
  Tool, Class, QuarantineError, approve, approved_fingerprint, cleared, revoked, observed,
}
use gatte.Quarantine.Identity.{ToolIdentity, hash}
use gatte.Quarantine.Store.{
  Shelf, Faults, find_row, get, scan_tool, observe, approve_tool, approve_fingerprint, revoke_tool,
  clear_tool, forget, change, commit, moved, observe_known, observe_first, keep_definition,
}
use gatte.Quarantine.Store.Evidence.{
  StoreAct, store_observes, store_approves, store_approves_reviewed, store_clears, store_revokes,
  store_forgets, transact,
}

module _ (f : Faults) (e : (f.read_fails || f.write_fails) ≡ true) (s : Shelf) where
  failed_commit {ℓ} :
      {A : Type ℓ} (s' : Shelf) (a : A) → f.read_fails ≡ false → (commit f s s' a).0 ≡ s
  failed_commit s' a reads = ground (arith, e, reads)

  failed_change :
      (transition : Tool → Result QuarantineError Tool) (server tool : Text)
      → (change f transition server tool s).0 ≡ s
  unfolding change
  failed_change transition server tool = elim (Result-cases (get server tool s.tools)) [
    | inl (x, missing) ↦ ground (arith, missing)
    | inr (prev, found) ↦ elim (Result-cases (moved (transition prev) s.tools)) [
      | inl (x, refused) ↦ ground (arith, found, refused)
      | inr (m, done) ↦ ground (arith, found, done, e)
    ]
  ]

  failed_clear : (server tool : Text) (now : ℕ) → (clear_tool f server tool now s).0 ≡ s
  unfolding clear_tool
  failed_clear server tool now = elim (Result-cases (get server tool s.tools)) [
    | inl (x, missing) ↦ ground (arith, missing)
    | inr (prev, found) ↦ elim (Result-cases (moved (cleared prev now) s.tools)) [
      | inl (x, refused) ↦ ground (arith, found, refused)
      | inr (m, done) ↦ ground (arith, found, done, e)
    ]
  ]

  failed_known :
      (h : Text) (class : Class) (now : ℕ) (kept : Shelf) (prev : Tool)
      → f.read_fails ≡ false
      → (observe_known f h class now s kept prev).0 ≡ s
  unfolding observe_known
  failed_known h class now kept prev reads =
      elim (Result-cases (moved (observed prev h class now) kept.tools)) [
        | inl (x, refused) ↦ ground (arith, refused)
        | inr (m, done) ↦ ground (arith, done, e, reads)
      ]

  failed_observe :
      (sha256 : Text → Text) (server : Text) (t : ToolIdentity) (class : Class) (now : ℕ)
      → (observe sha256 f server t class now s).0 ≡ s
  unfolding observe observe_first
  failed_observe sha256 server t class now = elim (Bool-cases f.read_fails) [
    | inl fails ↦ ground (arith, fails)
    | inr reads ↦ elim (Option-cases (find_row server t.name s.tools)) [
      | inl missing ↦ ground (arith, missing, reads, e)
      | inr (row, found) ↦ elim (Result-cases (scan_tool row)) [
        | inl (x, broken) ↦ ground (arith, reads, found, broken)
        | inr (prev, scanned) ↦ ground (
          arith,
          reads,
          found,
          scanned,
          failed_known (hash sha256 t) class now
              (record {
                tools = s.tools;
                definitions = keep_definition (hash sha256 t) t now s.definitions;
              })
              prev reads,
        )
      ]
    ]
  ]

  -- A transaction of which a call fails changes nothing.
  pub failed_transaction :
      (sha256 : Text → Text) (now : ℕ) (a : StoreAct) → transact sha256 now f a s ≡ s
  unfolding transact approve_tool approve_fingerprint revoke_tool forget
  failed_transaction sha256 now (store_observes server t class) =
      failed_observe sha256 server t class now
  failed_transaction sha256 now (store_approves server tool) =
      failed_change (λ prev. ok (approve prev now)) server tool
  failed_transaction sha256 now (store_approves_reviewed server tool h) =
      failed_change (λ prev. approved_fingerprint prev h now) server tool
  failed_transaction sha256 now (store_clears server tool) = failed_clear server tool now
  failed_transaction sha256 now (store_revokes server tool) =
      failed_change (λ prev. revoked prev now) server tool
  failed_transaction sha256 now (store_forgets server) = ground (arith, e)
