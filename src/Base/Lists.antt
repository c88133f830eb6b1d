-- ===== src/Base/Lists.antt =====
-- Lists over the native numbers, filters by a Boolean test, and a sort.
use Prim.Native.Nat.{ℕ, zero, suc, ◌+◌, ◌≤◌}
use mathlib.Core.Path.{◌≡◌, refl, ap, ◌∙◌}
use mathlib.Core.Bool.{Bool, true, false, ◌||◌}
use mathlib.Core.List.{List, [], ◌∷◌, ◌++◌, map}
use native.Mathlib.Omega.{arith}
use mathlib.Core.Logic.{◌⊎◌, inl, inr}
use gatte.Base.Tests.{if◌then◌else◌, Bool-cases}

module _ {ℓ} {A : Type ℓ} where
  abbrev pub length : List A → ℕ
  length [] = 0
  length (x ∷ xs) = suc (length xs)

  pub length-append : (xs ys : List A) → length (xs ++ ys) ≡ length xs + length ys
  length-append [] ys = omega arith
  length-append (x ∷ xs) ys = omega (arith, length-append xs ys)

  -- The members that pass a Boolean test.
  abbrev pub select : (A → Bool) → List A → List A
  select p [] = []
  select p (x ∷ xs) = if p x then x ∷ select p xs else select p xs

  abbrev pub any : (A → Bool) → List A → Bool
  any p [] = false
  any p (x ∷ xs) = p x || any p xs

  -- The first members, as many as there are.
  abbrev pub take : ℕ → List A → List A
  take zero xs = []
  take (suc n) [] = []
  take (suc n) (x ∷ xs) = x ∷ take n xs

  -- Every member satisfies a predicate.
  abbrev pub All {κ} : (A → Type κ) → List A → Type κ
  All P [] = Unit
  All P (x ∷ xs) = P x × All P xs

  -- `slices.SortFunc`: the members in ascending order, here by insertion.
  abbrev pub insert : (A → A → Bool) → A → List A → List A
  insert le x [] = x ∷ []
  insert le x (y ∷ ys) = if le x y then x ∷ y ∷ ys else y ∷ insert le x ys

  abbrev pub sort : (A → A → Bool) → List A → List A
  sort le [] = []
  sort le (x ∷ xs) = insert le x (sort le xs)

  abbrev pub IsSorted : (A → A → Bool) → List A → Type 0
  IsSorted le [] = Unit
  IsSorted le (x ∷ []) = Unit
  IsSorted le (x ∷ y ∷ ys) = (le x y ≡ true) × IsSorted le (y ∷ ys)

module _ {ℓ} {A : Type ℓ} (le : A → A → Bool)
    (total : (a b : A) → le a b ≡ false → le b a ≡ true) where
  insert-IsSorted : (x : A) (ys : List A) → IsSorted le ys → IsSorted le (insert le x ys)
  insert-IsSorted x [] s = tt
  insert-IsSorted x (y ∷ []) s = ground (arith, total x y)
  insert-IsSorted x (y ∷ z ∷ ys) s = ground (arith, total x y, insert-IsSorted x (z ∷ ys) s.1)

  pub sort-IsSorted : (xs : List A) → IsSorted le (sort le xs)
  sort-IsSorted [] = tt
  sort-IsSorted (x ∷ xs) = insert-IsSorted x (sort le xs) (sort-IsSorted xs)

module _ {ℓ} {A : Type ℓ} (le : A → A → Bool) where
  insert_front : (x : A) (ys : List A) → IsSorted le (x ∷ ys) → insert le x ys ≡ x ∷ ys
  insert_front x [] s = refl
  insert_front x (y ∷ ys) s = rw s.0

  tail-IsSorted : (x : A) (ys : List A) → IsSorted le (x ∷ ys) → IsSorted le ys
  tail-IsSorted x [] s = tt
  tail-IsSorted x (y ∷ ys) s = s.1

  pub sort_of_sorted : (xs : List A) → IsSorted le xs → sort le xs ≡ xs
  sort_of_sorted [] s = refl
  sort_of_sorted (x ∷ xs) s = rw (sort_of_sorted xs (tail-IsSorted x xs s)) (insert_front x xs s)

module _ {ℓ} {A : Type ℓ} where
  -- Two concatenations are equal only part by part, where the first parts are as long.
  pub append-injective :
      (xs ys : List A) {r s : List A}
      → length xs ≡ length ys
      → xs ++ r ≡ ys ++ s
      → (xs ≡ ys) × (r ≡ s)
  append-injective [] [] n e = (refl, e)
  append-injective [] (y ∷ ys) n e = absurd (omega arith)
  append-injective (x ∷ xs) [] n e = absurd (omega arith)
  append-injective (x ∷ xs) (y ∷ ys) {r} {s} n e =
      let tails : xs ++ r ≡ ys ++ s = cc in
      let rest = append-injective xs ys (omega arith) tails in (cc, rest.1)

module _ {ℓ κ} {A : Type ℓ} (P : A → Type κ) where
  pub All-select : (p : A → Bool) (xs : List A) → All P xs → All P (select p xs)
  All-select p [] h = tt
  All-select p (x ∷ xs) h = elim (Bool-cases (p x)) [
    | inl yes_p ↦ rw yes_p (h.0, All-select p xs h.1)
    | inr no_p ↦ rw no_p (All-select p xs h.1)
  ]

  pub All-insert :
      (le : A → A → Bool) (x : A) (ys : List A) → P x → All P ys → All P (insert le x ys)
  All-insert le x [] px h = (px, tt)
  All-insert le x (y ∷ ys) px h = elim (Bool-cases (le x y)) [
    | inl first ↦ rw first (px, h)
    | inr later ↦ rw later (h.0, All-insert le x ys px h.1)
  ]

  pub All-sort : (le : A → A → Bool) (xs : List A) → All P xs → All P (sort le xs)
  All-sort le [] h = tt
  All-sort le (x ∷ xs) h = All-insert le x (sort le xs) h.0 (All-sort le xs h.1)

module _ {ℓ} {A : Type ℓ} where
  pub length-select-le : (p : A → Bool) (xs : List A) → length (select p xs) ≤ length xs
  length-select-le p [] = omega arith
  length-select-le p (x ∷ xs) = ground (arith, length-select-le p xs)

  length-insert :
      (le : A → A → Bool) (x : A) (ys : List A) → length (insert le x ys) ≡ suc (length ys)
  length-insert le x [] = refl
  length-insert le x (y ∷ ys) = ground (arith, length-insert le x ys)

  pub length-sort : (le : A → A → Bool) (xs : List A) → length (sort le xs) ≡ length xs
  length-sort le [] = refl
  length-sort le (x ∷ xs) = omega (arith, length-insert le x (sort le xs), length-sort le xs)

module _ {ℓ} {A : Type ℓ} where
  pub All-tested : (p : A → Bool) (xs : List A) → All (λ x. p x ≡ true) (select p xs)
  All-tested p [] = tt
  All-tested p (x ∷ xs) = elim (Bool-cases (p x)) [
    | inl yes_p ↦ rw yes_p (yes_p, All-tested p xs)
    | inr no_p ↦ rw no_p (All-tested p xs)
  ]

  pub All-both {κ μ} :
      (P : A → Type κ) (Q : A → Type μ) (xs : List A)
      → All P xs
      → All Q xs
      → All (λ x. P x × Q x) xs
  All-both P Q [] h k = tt
  All-both P Q (x ∷ xs) h k = ((h.0, k.0), All-both P Q xs h.1 k.1)

  pub All-weaken {κ μ} :
      (P : A → Type κ) (Q : A → Type μ) (xs : List A) → ((x : A) → P x → Q x) → All P xs → All Q xs
  All-weaken P Q [] k h = tt
  All-weaken P Q (x ∷ xs) k h = (k x h.0, All-weaken P Q xs k h.1)

  -- A property that follows from another one, of each member.
  pub All-map {κ μ ν} :
      {B : Type ν} (P : A → Type κ) (Q : B → Type μ) (f : A → B) (xs : List A)
      → ((x : A) → P x → Q (f x))
      → All P xs
      → All Q (map f xs)
  All-map P Q f [] k h = tt
  All-map P Q f (x ∷ xs) k h = (k x h.0, All-map P Q f xs k h.1)

  pub any-append : (p : A → Bool) (xs ys : List A) → any p (xs ++ ys) ≡ (any p xs || any p ys)
  any-append p [] ys = refl
  any-append p (x ∷ xs) ys = ground (arith, any-append p xs ys)

  any-insert :
      (p : A → Bool) (le : A → A → Bool) (x : A) (ys : List A)
      → any p (insert le x ys) ≡ (p x || any p ys)
  any-insert p le x [] = refl
  any-insert p le x (y ∷ ys) = ground (arith, any-insert p le x ys)

  pub any-sort : (p : A → Bool) (le : A → A → Bool) (xs : List A) → any p (sort le xs) ≡ any p xs
  any-sort p le [] = refl
  any-sort p le (x ∷ xs) = any-insert p le x (sort le xs) ∙ ap (λ b. p x || b) (any-sort p le xs)

  pub any-map {κ} :
      {B : Type κ} (p : B → Bool) (f : A → B) (xs : List A)
      → any p (map f xs) ≡ any (λ x. p (f x)) xs
  any-map p f [] = refl
  any-map p f (x ∷ xs) = ap (λ b. p (f x) || b) (any-map p f xs)

module _ {ℓ κ} {A : Type ℓ} (P : A → Type κ) (le : A → A → Bool) where
  All-of_insert : (x : A) (ys : List A) → All P (insert le x ys) → P x × All P ys
  All-of_insert x [] h = h
  All-of_insert x (y ∷ ys) h = elim (Bool-cases (le x y)) [
    | inl first ↦ (rw first at h)
    | inr later ↦
        let h' : All P (y ∷ insert le x ys) = rw later at h in
        let rest = All-of_insert x ys h'.1 in (rest.0, (h'.0, rest.1))
  ]

  pub All-of_sort : (xs : List A) → All P (sort le xs) → All P xs
  All-of_sort [] h = tt
  All-of_sort (x ∷ xs) h =
      let parts = All-of_insert x (sort le xs) h in (parts.0, All-of_sort xs parts.1)

module _ {ℓ κ} {A : Type ℓ} (P : A → Type κ) where
  pub All-append : (xs ys : List A) → All P xs → All P ys → All P (xs ++ ys)
  All-append [] ys hx hy = hy
  All-append (x ∷ xs) ys hx hy = (hx.0, All-append xs ys hx.1 hy)

module _ {ℓ} {A : Type ℓ} where
  pub List-cases : (xs : List A) → (xs ≡ []) ⊎ ((x : A) × (rest : List A) × (xs ≡ x ∷ rest))
  List-cases [] = inl refl
  List-cases (x ∷ xs) = inr (x, xs, refl)

-- One entry where a test holds, such as one broken rule.
abbrev pub when {ℓ} : {A : Type ℓ} → Bool → A → List A
when b e = if b then e ∷ [] else []

module _ {ℓ} {A : Type ℓ} where
  pub when-append-nil :
      (b : Bool) (e : A) (ys : List A) → when b e ++ ys ≡ [] → (b ≡ false) × (ys ≡ [])
  when-append-nil true e ys h = cc
  when-append-nil false e ys h = (refl, h)

or_true : (a : Bool) {b : Bool} → b ≡ true → (a || b) ≡ true
or_true true h = refl
or_true false h = h

module _ {ℓ} {A : Type ℓ} where
  -- A member that passes a test makes `any` hold.
  pub any_of_member :
      (xs : List A) → All (λ x. (test : A → Bool) → test x ≡ true → any test xs ≡ true) xs
  any_of_member [] = tt
  any_of_member (x ∷ xs) = ((λ test h. rw h), weaken xs (any_of_member xs))
    where
      weaken :
          (ys : List A)
          → All (λ y. (test : A → Bool) → test y ≡ true → any test xs ≡ true) ys
          → All (λ y. (test : A → Bool) → test y ≡ true → any test (x ∷ xs) ≡ true) ys
      weaken [] h = tt
      weaken (y ∷ ys) h = ((λ test t. or_true (test x) (h.0 test t)), weaken ys h.1)
