-- ===== src/Gateway/Admit/Gates.antt =====
-- What the gates of `admit` let through and what their refusals tell apart.
use gatte.Base.{
  ◌≡◌, ◌↔◌, refl, sym, ◌∙◌, Bool, true, false, ◌||◌, not, Text, none, Result, ok, err, arith,
}
use gatte.Quarantine.{Tool, is_safe, usable, approved_as_advertised, QuarantineError, not_found}
use gatte.Access.Policy.{Identity, Policy, authorize_non_read}
use gatte.Gateway.Admit.{Quarantine, RoutedTool, admit, admit_row}

-- The row or the route says that the tool acts, or fails to say that it does not.
abbrev pub is_sensitive : RoutedTool → Tool → Bool
is_sensitive rt t = not (is_safe t.class) || not (is_safe rt.class)

-- A tool is let in exactly if its row can be read and is usable, and, where row or route calls it
-- anything but safe, a role with more than read access names it.
pub record Open (quarantine : Quarantine) (policy : Policy) (id : Identity) (name : Text)
    (rt : RoutedTool) : Type 0 where
  pub row : Tool
  pub stored : quarantine rt.route.upstream rt.route.original_name ≡ ok row
  pub is_usable : usable row ≡ true
  pub granted : is_sensitive rt row ≡ true → authorize_non_read policy id name ≡ true

admit_row-none :
    (policy : Policy) (id : Identity) (name : Text) (rt : RoutedTool) (t : Tool)
    → (admit_row policy id name rt t ≡ none)
      ↔ ((usable t ≡ true) × (is_sensitive rt t ≡ true → authorize_non_read policy id name ≡ true))
unfolding admit_row
admit_row-none policy id name rt t = ground arith

-- `admit` lets in exactly the open tools.
pub admit-Open :
    (quarantine : Quarantine) (policy : Policy) (id : Identity) (name : Text) (rt : RoutedTool)
    → (admit quarantine policy id name rt ≡ none) ↔ Open quarantine policy id name rt
unfolding admit
admit-Open quarantine policy id name rt =
    (opened (quarantine rt.route.upstream rt.route.original_name) refl, closed)
  where
    reads :
        (t : Tool)
        → quarantine rt.route.upstream rt.route.original_name ≡ ok t
        → admit quarantine policy id name rt ≡ admit_row policy id name rt t
    reads t e = rw (admit, e)

    opened :
        (r : Result QuarantineError Tool)
        → quarantine rt.route.upstream rt.route.original_name ≡ r
        → admit quarantine policy id name rt ≡ none
        → Open quarantine policy id name rt
    opened (ok t) e h =
        let h' : admit_row policy id name rt t ≡ none = sym (reads t e) ∙ h in
        let (u, g) = (admit_row-none policy id name rt t).0 h' in
        record { row = t; stored = e; is_usable = u; granted = g }
    opened (err not_found) e h = let k = rw (admit, e) at h in absurd cc
    opened (err x) e h = let k = rw (admit, e) at h in absurd cc

    closed : Open quarantine policy id name rt → admit quarantine policy id name rt ≡ none
    closed o =
        reads o.row o.stored ∙ ((admit_row-none policy id name rt o.row).1 (o.is_usable, o.granted))

-- A caller whose roles may not act cannot tell from the gates whether a tool is cleared: the answer is
-- the same for every clearance.
pub admit_row-clearance :
    (policy : Policy) (id : Identity) (name : Text) (rt : RoutedTool) (t : Tool) (h : Text)
    → authorize_non_read policy id name ≡ false
    → admit_row policy id name rt (record t { sensitive_cleared_hash = h })
      ≡ admit_row policy id name rt t
unfolding admit_row usable approved_as_advertised
admit_row-clearance policy id name rt t h denied = ground (arith, denied)
