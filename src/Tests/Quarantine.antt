-- ===== src/Tests/Quarantine.antt =====
-- The quarantine at concrete inputs.
use gatte.Base.{
  ℕ, ◌≡◌, refl, true, false, Bool, Text, text_eq, text_le, codes, List, [], ◌∷◌, map, sort, All,
  arith,
}
use gatte.Quarantine.{
  Tool, safe, sensitive, class_valid, new_tool, observed, approve, usable, needs_review,
}
use gatte.Quarantine.Transitions.{IsValid, new_tool-IsValid}
use gatte.Quarantine.{cleared}
use gatte.Quarantine.History.{Act, act, observes, approves, clears, run, run-IsValid}
use gatte.Quarantine.History.Served.{served, usable-run}
use gatte.Quarantine.Identity.{ToolIdentity, IsSizedIdentity, hash_input-injective}
use gatte.Quarantine.Review.{approved_set}
use gatte.Quarantine.Review.Reviewed.{shown, IsSizedEntry, approval_of, approved_set-reviewed}

abbrev server : Text
server = codes "threatintel"

abbrev first : Tool
first = new_tool server (codes "lookup_ip") (codes "h1") safe 1

first-IsValid : IsValid first
first-IsValid =
    new_tool-IsValid server (codes "lookup_ip") (codes "h1") safe 1 (unfold class_valid in refl)

-- The latest act stands first: an approval, a drift to a tool that can act, its approval and clearance.
abbrev acts : List (ℕ × Act)
acts = (5, clears) ∷ (4, approves) ∷ (3, observes (codes "h2") sensitive) ∷ (2, approves) ∷ []

served_in_the_end : usable (run first acts) ≡ true
unfolding run act usable new_tool observed approve cleared text_eq
served_in_the_end = refl

withheld_after_the_drift :
    usable (run first ((4, approves) ∷ (3, observes (codes "h2") sensitive) ∷ (2, approves) ∷ []))
    ≡ false
unfolding run act usable new_tool observed approve cleared text_eq
withheld_after_the_drift = refl

usable-run_example :
    let t = new_tool server (codes "lookup_ip") (codes "h1") safe 1 in
    usable (run t acts) ≡ served t acts
unfolding class_valid
usable-run_example = usable-run server (codes "lookup_ip") (codes "h1") safe 1 acts refl

-- The tool with its second definition approved, and an observation of it as safe.
abbrev drifted : Tool
drifted = run first ((4, approves) ∷ (3, observes (codes "h2") sensitive) ∷ (2, approves) ∷ [])

drifted-IsValid : IsValid drifted
drifted-IsValid = run-IsValid first _ first-IsValid

abbrev definition : ToolIdentity
definition = record {
  name = codes "lookup_ip";
  description = codes "Looks up an address.";
  input_schema = codes "{}";
  output_schema = codes "{}";
}

definition-IsSizedIdentity : IsSizedIdentity definition
definition-IsSizedIdentity = record {
  name_sized = omega arith;
  description_sized = omega arith;
  input_sized = omega arith;
  output_sized = omega arith;
}

hash_input-injective_example : definition ≡ definition
hash_input-injective_example =
    hash_input-injective definition definition definition-IsSizedIdentity definition-IsSizedIdentity
      refl

-- A digest without collisions.
abbrev digest : Text → Text
digest b = b

first-IsSizedEntry : IsSizedEntry first
unfolding new_tool
first-IsSizedEntry = record {
  name_sized = omega arith;
  status_sized = omega arith;
  observed_sized = omega arith;
  approved_sized = omega arith;
}

abbrev by_name : Tool → Tool → Bool
by_name a b = text_le a.tool_name b.tool_name

approved_set-reviewed_example :
    (map shown (sort by_name (first ∷ [])) ≡ map (λ a. shown a.before) (approval_of 2 first ∷ []))
    × All
        (λ a.
          (a.before.server_name ≡ server)
          × (needs_review a.before ≡ true)
          × (a.after ≡ approve a.before 2))
        (approval_of 2 first ∷ [])
unfolding approved_set new_tool
approved_set-reviewed_example =
    approved_set-reviewed digest server (first ∷ []) (first ∷ []) 2
      {approvals = approval_of 2 first ∷ []} (λ a b e. e) (omega arith) (omega arith) (omega arith)
      (first-IsSizedEntry, tt) (first-IsSizedEntry, tt) refl
