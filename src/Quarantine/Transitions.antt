-- ===== src/Quarantine/Transitions.antt =====
-- The invariant of a tool's fields, and what each transition does to the gate.
use gatte.Base.{ℕ, true, ◌≡◌, ◌≢◌, ◌⊎◌, Text, text_eq_iff, [], ok, ◌↔◌, arith}
use gatte.Quarantine.{
  pending, approved, safe, Class, Tool, usable, observed, approve, cleared, revoked,
  approved_fingerprint, new_tool, class_valid, status_valid,
}

-- The fields are as every transition leaves them: a status and a class that are defined, a clearance
-- that is empty or names the approved fingerprint, no baseline on a pending tool, and an approved
-- tool that advertises its baseline.
pub record IsValid (t : Tool) : Type 0 where
  pub status_defined : status_valid t.status ≡ true
  pub class_defined : class_valid t.class ≡ true
  pub clearance : (t.sensitive_cleared_hash ≡ []) ⊎ (t.sensitive_cleared_hash ≡ t.approved_hash)
  pub pending_bare : t.status ≡ pending → t.approved_hash ≡ []
  pub approved_current : t.status ≡ approved → t.observed_hash ≡ t.approved_hash

pub new_tool-IsValid :
    (server tool hash : Text) (c : Class) (now : ℕ)
    → class_valid c ≡ true
    → IsValid (new_tool server tool hash c now)
unfolding new_tool status_valid
new_tool-IsValid server tool hash c now h = ground arith

pub observed-IsValid :
    (t : Tool) (hash : Text) (c : Class) (now : ℕ) {t' : Tool}
    → IsValid t
    → observed t hash c now ≡ ok t'
    → IsValid t'
unfolding observed
observed-IsValid t hash c now v e = ground (arith, text_eq_iff hash t.approved_hash)

pub approve-IsValid : (t : Tool) (now : ℕ) → IsValid t → IsValid (approve t now)
unfolding approve status_valid
approve-IsValid t now v = ground (arith, text_eq_iff t.observed_hash t.approved_hash)

pub approved_fingerprint-IsValid :
    (t : Tool) (reviewed : Text) (now : ℕ) {t' : Tool}
    → IsValid t
    → approved_fingerprint t reviewed now ≡ ok t'
    → IsValid t'
unfolding approved_fingerprint status_valid
approved_fingerprint-IsValid t reviewed now v e =
    ground (arith, text_eq_iff t.observed_hash t.approved_hash)

pub cleared-IsValid :
    (t : Tool) (now : ℕ) {t' : Tool} → IsValid t → cleared t now ≡ ok t' → IsValid t'
unfolding cleared status_valid
cleared-IsValid t now v e = ground arith

pub revoked-IsValid :
    (t : Tool) (now : ℕ) {t' : Tool} → IsValid t → revoked t now ≡ ok t' → IsValid t'
unfolding revoked
revoked-IsValid t now v e = ground arith

-- An observation makes a tool usable that was not only by turning its class from one that can act to
-- safe; whatever it makes of the tool, a hash other than the approved one leaves it unusable.
pub observed_usable :
    (t : Tool) (hash : Text) (c : Class) (now : ℕ) {t' : Tool}
    → IsValid t
    → observed t hash c now ≡ ok t'
    → usable t' ≡ true
    → (hash ≡ t.approved_hash) × ((usable t ≡ true) ⊎ ((t.class ≢ safe) × (c ≡ safe)))
unfolding observed usable
observed_usable t hash c now v e u = ground (
  arith,
  text_eq_iff hash t.approved_hash,
  text_eq_iff t.observed_hash t.approved_hash,
  text_eq_iff t.approved_hash [],
  text_eq_iff t.sensitive_cleared_hash [],
  text_eq_iff t.sensitive_cleared_hash t.approved_hash,
)

-- After an approval a safe tool is usable, and a tool that can act is usable only if a clearance of
-- this very fingerprint stands; the fingerprint advertised is not empty.
pub approve-usable :
    (t : Tool) (now : ℕ)
    → t.observed_hash ≢ []
    → IsValid t
    → (usable (approve t now) ≡ true)
      ↔ ((t.class ≡ safe) ⊎ (t.sensitive_cleared_hash ≡ t.observed_hash))
unfolding approve usable
approve-usable t now ne v = (
  λ u. ground (
    arith,
    text_eq_iff t.observed_hash t.approved_hash,
    text_eq_iff t.observed_hash t.observed_hash,
    text_eq_iff t.observed_hash [],
    text_eq_iff [] t.observed_hash,
    text_eq_iff t.sensitive_cleared_hash [],
    text_eq_iff t.sensitive_cleared_hash t.observed_hash,
  ),
  λ h. ground (
    arith,
    text_eq_iff t.observed_hash t.approved_hash,
    text_eq_iff t.observed_hash t.observed_hash,
    text_eq_iff t.observed_hash [],
    text_eq_iff [] t.observed_hash,
    text_eq_iff t.sensitive_cleared_hash [],
    text_eq_iff t.sensitive_cleared_hash t.observed_hash,
  ),
)
