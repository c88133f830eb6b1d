-- ===== src/Quarantine/Store/Kept.antt =====
-- The definitions that the store keeps: all that some row names, and no others.
use gatte.Base.{
  ◌≡◌, ◌≢◌, refl, sym, ap, ◌∙◌, subst, Bool, true, false, not, ◌||◌, List, [], ◌∷◌, Text, text_eq,
  text_eq_iff, text_eq→eq, text_eq_refl, if_true, if_false, inl, inr, ◌⊎◌, All, any, select,
  any_of_member, All-both, All-weaken, All-tested, All-select, arith, Bool-cases,
}
use gatte.Quarantine.{Tool}
use gatte.Quarantine.Identity.{hash}
use gatte.Quarantine.Store.{
  Definition, Shelf, names_hash, is_referenced, is_empty, prune, prune_both,
}
use gatte.Quarantine.Store.Rows.{IsKeyed}

abbrev pub has_definition : Text → List Definition → Bool
has_definition h ds = any (λ d. text_eq d.key h) ds

-- The definitions that a row names are there.
abbrev pub IsKeptTool : List Definition → Tool → Type 0
IsKeptTool ds t =
    (has_definition t.observed_hash ds ≡ true)
    × ((t.approved_hash ≡ []) ⊎ (has_definition t.approved_hash ds ≡ true))

abbrev pub IsTrueDefinition : (Text → Text) → Definition → Type 0
IsTrueDefinition sha256 d = hash sha256 d.identity ≡ d.key

abbrev pub IsNeeded : List Tool → Definition → Type 0
IsNeeded ts d = is_referenced d.key ts ≡ true

pub record IsShelf (sha256 : Text → Text) (s : Shelf) : Type 0 where
  pub keyed : IsKeyed s.tools
  pub kept : All (IsKeptTool s.definitions) s.tools
  pub genuine : All (IsTrueDefinition sha256) s.definitions
  pub needed : All (IsNeeded s.tools) s.definitions

has_definition-select :
    (h k : Text) (ds : List Definition)
    → text_eq k h ≡ false
    → has_definition k ds ≡ true
    → has_definition k (select (λ d. not (text_eq d.key h)) ds) ≡ true
has_definition-select h k [] n e = e
has_definition-select h k (d ∷ ds) n e = ground (
  arith,
  has_definition-select h k ds n,
  text_eq_iff d.key h,
  text_eq_iff d.key k,
  text_eq_iff k h,
)

-- A pruning drops no definition that a row names.
prune_keeps :
    (h k : Text) (s : Shelf)
    → is_referenced k s.tools ≡ true
    → has_definition k s.definitions ≡ true
    → has_definition k (prune h s).definitions ≡ true
unfolding prune
prune_keeps h k s r e = elim (Bool-cases (is_empty h || is_referenced h s.tools)) [
  | inl spared ↦ ground (arith, spared, e)
  | inr pruned ↦
      let other : text_eq k h ≡ false =
        ground (arith, pruned, r, text_eq_iff k h, ap (λ q. is_referenced q s.tools)) in
      ground (arith, pruned, has_definition-select h k s.definitions other e)
]

pub prune_tools : (h : Text) (s : Shelf) → (prune h s).tools ≡ s.tools
unfolding prune
prune_tools h s = ground arith

not_empty : (h : Text) → h ≢ [] → is_empty h ≡ false
not_empty [] n = absurd (n refl)
not_empty (x ∷ h) n = refl

abbrev IsMember : List Tool → Tool → Type 0
IsMember ts t = (test : Tool → Bool) → test t ≡ true → any test ts ≡ true

named-referenced :
    (ts : List Tool) (t : Tool) (h : Text)
    → IsMember ts t
    → names_hash h t ≡ true
    → is_referenced h ts ≡ true
unfolding is_referenced
named-referenced ts t h member e = member (names_hash h) e

prune-IsKeptTool :
    (h : Text) (s : Shelf) (t : Tool)
    → IsKeptTool s.definitions t × IsMember s.tools t
    → IsKeptTool (prune h s).definitions t
unfolding names_hash
prune-IsKeptTool h s t k =
    let observed_named : names_hash t.observed_hash t ≡ true =
      ground (arith, text_eq_refl t.observed_hash) in
    let approved_named : names_hash t.approved_hash t ≡ true =
      ground (arith, text_eq_refl t.approved_hash) in
    (
      prune_keeps h t.observed_hash s
          (named-referenced s.tools t t.observed_hash k.1 observed_named) k.0.0,
      elim k.0.1 [
        | inl none_approved ↦ inl none_approved
        | inr there ↦ inr (
            prune_keeps h t.approved_hash s
              (named-referenced s.tools t t.approved_hash k.1 approved_named) there)
      ],
    )

prune-kept :
    (h : Text) (s : Shelf)
    → All (IsKeptTool s.definitions) s.tools
    → All (IsKeptTool (prune h s).definitions) s.tools
prune-kept h s kept =
    All-weaken (λ t. IsKeptTool s.definitions t × IsMember s.tools t) _ s.tools
      (prune-IsKeptTool h s)
      (All-both (IsKeptTool s.definitions) (IsMember s.tools) s.tools kept (any_of_member s.tools))

-- A definition that is needed, or waits for the pruning of one of two hashes.
abbrev pub IsLeft : List Tool → Text → Text → Definition → Type 0
IsLeft ts a b d = IsNeeded ts d ⊎ ((d.key ≡ a) ⊎ (d.key ≡ b))

module _ (P Q : Definition → Type 0) (h : Text) (s : Shelf)
    (full : (d : Definition) → P d → d.key ≢ []) (stays : (d : Definition) → P d → d.key ≢ h → Q d)
    (named : (d : Definition) → IsNeeded s.tools d → Q d) where
  abbrev spare : Definition → Bool
  spare d = not (text_eq d.key h)

  spared : (d : Definition) → P d × (spare d ≡ true) → Q d
  spared d k = stays d k.0 (λ e. absurd (ground (arith, k.1, e, text_eq_iff d.key h)))

  kept_or_spared : (is_empty h || is_referenced h s.tools) ≡ true → (d : Definition) → P d → Q d
  kept_or_spared keeps d p = elim (Bool-cases (text_eq d.key h)) [
    | inr other ↦ stays d p (λ e. absurd (ground (arith, other, e, text_eq_iff d.key h)))
    | inl same ↦
        let e = text_eq→eq d.key h same in
        let some_hash : is_empty h ≡ false = not_empty h (λ q. full d p (e ∙ q)) in
        named d
          (subst (λ q. is_referenced q s.tools ≡ true) (sym e) (ground (arith, keeps, some_hash)))
  ]

  -- The definitions of the hash pass where it is still named, and the others as they did.
  prune-All : All P s.definitions → All Q (prune h s).definitions
  unfolding prune
  prune-All k = elim (Bool-cases (is_empty h || is_referenced h s.tools)) [
    | inr pruned ↦ subst (All Q) (sym (ap (λ (z : Shelf). z.definitions) (if_false _ _ _ pruned))) (
        All-weaken (λ d. P d × (spare d ≡ true)) Q _ spared
          (All-both P (λ d. spare d ≡ true) _ (All-select P spare s.definitions k)
            (All-tested spare s.definitions)))
    | inl keeps ↦
        subst (All Q) (sym (ap (λ (z : Shelf). z.definitions) (if_true _ _ _ keeps)))
          (All-weaken P Q s.definitions (kept_or_spared keeps) k)
  ]

-- What is left of a shelf to be pruned of two hashes.
pub record IsHalfPruned (sha256 : Text → Text) (a b : Text) (s : Shelf) : Type 0 where
  pub keyed : IsKeyed s.tools
  pub kept : All (IsKeptTool s.definitions) s.tools
  pub genuine : All (IsTrueDefinition sha256) s.definitions
  pub left : All (IsLeft s.tools a b) s.definitions

prune-genuine :
    (sha256 : Text → Text) (h : Text) (s : Shelf)
    → All (IsTrueDefinition sha256) s.definitions
    → All (IsTrueDefinition sha256) (prune h s).definitions
unfolding prune
prune-genuine sha256 h s k = elim (Bool-cases (is_empty h || is_referenced h s.tools)) [
  | inl keeps ↦
      subst (All (IsTrueDefinition sha256))
        (sym (ap (λ (z : Shelf). z.definitions) (if_true _ _ _ keeps))) k
  | inr pruned ↦
      subst (All (IsTrueDefinition sha256))
        (sym (ap (λ (z : Shelf). z.definitions) (if_false _ _ _ pruned)))
        (All-select (IsTrueDefinition sha256) (λ d. not (text_eq d.key h)) s.definitions k)
]

still-IsLeft :
    (ts : List Tool) (a b : Text) (d : Definition) → IsLeft ts a b d → d.key ≢ a → IsLeft ts b b d
still-IsLeft ts a b d (inl n) other = inl n
still-IsLeft ts a b d (inr (inl e)) other = absurd (other e)
still-IsLeft ts a b d (inr (inr e)) other = inr (inl e)

not_left :
    (ts : List Tool) (b : Text) (d : Definition) → IsLeft ts b b d → d.key ≢ b → IsNeeded ts d
not_left ts b d (inl n) other = n
not_left ts b d (inr (inl e)) other = absurd (other e)
not_left ts b d (inr (inr e)) other = absurd (other e)

module _ (sha256 : Text → Text) (digest : (t : Text) → sha256 t ≢ []) where
  true_key : (d : Definition) → IsTrueDefinition sha256 d → d.key ≢ []
  unfolding hash
  true_key d h e = digest _ (h ∙ e)

  -- What one pruning leaves, of what waits for it.
  prune-left :
      (P Q : Definition → Type 0) (h : Text) (s : Shelf)
      → ((d : Definition) → P d → d.key ≢ h → Q d)
      → ((d : Definition) → IsNeeded s.tools d → Q d)
      → All (IsTrueDefinition sha256) s.definitions
      → All P s.definitions
      → All Q (prune h s).definitions
  prune-left P Q h s stays named genuine left =
      prune-All (λ d. P d × IsTrueDefinition sha256 d) Q h s (λ d k. true_key d k.1)
        (λ d k. stays d k.0) named (All-both P (IsTrueDefinition sha256) s.definitions left genuine)

  prune_one :
      (a b : Text) (s : Shelf) → IsHalfPruned sha256 a b s → IsHalfPruned sha256 b b (prune a s)
  prune_one a b s h =
      let same = sym (prune_tools a s) in
      record {
        keyed = subst IsKeyed same h.keyed;
        kept = subst (All (IsKeptTool (prune a s).definitions)) same (prune-kept a s h.kept);
        genuine = prune-genuine sha256 a s h.genuine;
        left =
            subst (λ ts. All (IsLeft ts b b) (prune a s).definitions) same
              (prune-left (IsLeft s.tools a b) (IsLeft s.tools b b) a s
                (λ d k other. still-IsLeft s.tools a b d k other) (λ d n. inl n) h.genuine h.left);
      }

  pub prune_both-IsShelf :
      (a b : Text) (s : Shelf) → IsHalfPruned sha256 a b s → IsShelf sha256 (prune_both a b s)
  prune_both-IsShelf a b s h =
      let first = prune_one a b s h in
      let s' = prune a s in
      let same = sym (prune_tools b s') in
      record {
        keyed = subst IsKeyed same first.keyed;
        kept = subst (All (IsKeptTool (prune b s').definitions)) same (prune-kept b s' first.kept);
        genuine = prune-genuine sha256 b s' first.genuine;
        needed =
            subst (λ ts. All (IsNeeded ts) (prune b s').definitions) same
              (prune-left (IsLeft s'.tools b b) (IsNeeded s'.tools) b s'
                (λ d k other. not_left s'.tools b d k other) (λ d n. n) first.genuine first.left);
      }
