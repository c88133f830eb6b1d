-- ===== src/Base/Strings.antt =====
-- Go strings: lists of bytes, with the functions of package strings that the program calls.
use Prim.Native.Nat.{ℕ, zero, suc}
use Prim.Native.Char.{code}
use Prim.Native.String.{String}
use mathlib.Core.Path.{◌≡◌, refl, ap, sym, ◌∙◌}
use mathlib.Core.Logic.{◌↔◌}
use mathlib.Core.Bool.{Bool, true, false, ◌&&◌, ◌||◌}
use mathlib.Core.List.{List, [], ◌∷◌, ◌++◌, reverse}
use mathlib.Core.Option.{Option, none, some}
use native.Mathlib.Omega.{arith}
use gatte.Base.Tests.{leb, ◌==◌, if◌then◌else◌}
use gatte.Base.Lists.{any, any-sort, sort}

abbrev pub Text : Type 0
Text = List ℕ

-- The bytes of an ASCII literal. `String` has its own `[]` and `∷`.
abbrev pub codes : String → Text
codes String.[] = []
codes (String.◌∷◌ c s) = code c ∷ codes s

unfoldable pub text_eq : Text → Text → Bool
text_eq [] [] = true
text_eq [] (y ∷ ys) = false
text_eq (x ∷ xs) [] = false
text_eq (x ∷ xs) (y ∷ ys) = x == y && text_eq xs ys

pub text_eq→eq : (s t : Text) → text_eq s t ≡ true → s ≡ t
unfolding text_eq
text_eq→eq [] [] h = refl
text_eq→eq [] (y ∷ ys) h = ground arith
text_eq→eq (x ∷ xs) [] h = ground arith
text_eq→eq (x ∷ xs) (y ∷ ys) h = ground (arith, text_eq→eq xs ys)

pub text_eq_refl : (s : Text) → text_eq s s ≡ true
unfolding text_eq
text_eq_refl [] = refl
text_eq_refl (x ∷ xs) = ground (arith, text_eq_refl xs)

-- Given to `ground` at each pair of texts that is compared.
pub text_eq_iff : (s t : Text) → (text_eq s t ≡ true) ↔ (s ≡ t)
text_eq_iff s t = (text_eq→eq s t, λ e. ground (arith, text_eq_refl s))

-- The order of `strings.Compare`: by bytes, a prefix first.
unfoldable pub text_le : Text → Text → Bool
text_le [] t = true
text_le (x ∷ xs) [] = false
text_le (x ∷ xs) (y ∷ ys) = if x == y then text_le xs ys else leb x y

-- `slices.Contains` on strings.
unfoldable pub contains : List Text → Text → Bool
contains [] t = false
contains (s ∷ ss) t = text_eq s t || contains ss t

-- `strings.Contains` and `strings.Cut` for a separator of one byte.
unfoldable pub has_byte : ℕ → Text → Bool
has_byte c [] = false
has_byte c (x ∷ xs) = x == c || has_byte c xs

-- What stands before the first separator and what stands behind it; none where there is none.
unfoldable pub cut : ℕ → Text → Option (Text × Text)
cut c [] = none
cut c (x ∷ xs) =
    if x == c
    then some ([], xs)
    else elim (cut c xs) [ none ↦ none | some (a, b) ↦ some (x ∷ a, b) ]

-- `strings.CutPrefix`.
unfoldable pub cut_prefix : Text → Text → Option Text
cut_prefix [] t = some t
cut_prefix (p ∷ ps) [] = none
cut_prefix (p ∷ ps) (x ∷ xs) = if p == x then cut_prefix ps xs else none

-- How many bytes the white space that a text begins with takes, 0 if it begins with none: the
-- ASCII ones, and the UTF-8 forms of U+0085, U+00A0, U+1680, U+2000 to U+200A, U+2028, U+2029,
-- U+202F, U+205F and U+3000.
abbrev two_byte_space : ℕ → ℕ → Bool
two_byte_space a b = a == 0xc2 && (b == 0x85 || b == 0xa0)

abbrev three_byte_space : ℕ → ℕ → ℕ → Bool
three_byte_space a b c =
    a == 0xe1 && b == 0x9a && c == 0x80
    || a == 0xe2 && b == 0x80 && (leb 0x80 c && leb c 0x8a || c == 0xa8 || c == 0xa9 || c == 0xaf)
    || a == 0xe2 && b == 0x81 && c == 0x9f
    || a == 0xe3 && b == 0x80 && c == 0x80

abbrev ascii_space : ℕ → Bool
ascii_space a = a == 32 || leb 9 a && leb a 13

space_at : Text → ℕ
space_at [] = 0
space_at (a ∷ []) = if ascii_space a then 1 else 0
space_at (a ∷ b ∷ []) = if ascii_space a then 1 else if two_byte_space a b then 2 else 0
space_at (a ∷ b ∷ c ∷ s) =
    if ascii_space a
    then 1
    else if two_byte_space a b
    then 2
    else if three_byte_space a b c
    then 3
    else 0

-- The same of a reversed text, whose bytes come last first.
space_at_end : Text → ℕ
space_at_end [] = 0
space_at_end (a ∷ []) = if ascii_space a then 1 else 0
space_at_end (a ∷ b ∷ []) = if ascii_space a then 1 else if two_byte_space b a then 2 else 0
space_at_end (a ∷ b ∷ c ∷ s) =
    if ascii_space a
    then 1
    else if two_byte_space b a
    then 2
    else if three_byte_space c b a
    then 3
    else 0

-- Drop white space from the front; the first argument counts bytes of it still to drop.
drop_spaces : (Text → ℕ) → ℕ → Text → Text
drop_spaces width k [] = []
drop_spaces width (suc k) (x ∷ xs) = drop_spaces width k xs
drop_spaces width zero (x ∷ xs) = elim (width (x ∷ xs)) [
  | zero ↦ x ∷ xs
  | suc k ↦ drop_spaces width k xs
]

-- `strings.TrimSpace`.
unfoldable pub trim_space : Text → Text
unfolding drop_spaces space_at space_at_end
trim_space s = reverse (drop_spaces space_at_end 0 (reverse (drop_spaces space_at 0 s)))

-- `strings.TrimSpace(s) == ""`.
unfoldable pub is_blank : Text → Bool
unfolding trim_space text_eq
is_blank s = text_eq (trim_space s) []

-- `s == strings.TrimSpace(s)`.
unfoldable pub is_trimmed : Text → Bool
unfolding trim_space text_eq
is_trimmed s = text_eq s (trim_space s)

trims_both_ends :
    trim_space (32 ∷ 0xc2 ∷ 0xa0 ∷ codes "a b\t" ++ 0xe3 ∷ 0x80 ∷ 0x80 ∷ []) ≡ codes "a b"
unfolding trim_space
trims_both_ends = refl

-- A text without the separator, the separator, and a rest are cut apart again.
pub cut-append : (c : ℕ) (s t : Text) → has_byte c s ≡ false → cut c (s ++ c ∷ t) ≡ some (s, t)
unfolding cut has_byte
cut-append c [] t h = ground arith
cut-append c (x ∷ s) t h = ground (arith, cut-append c s t)

pub cut_prefix-append : (p t : Text) → cut_prefix p (p ++ t) ≡ some t
unfolding cut_prefix
cut_prefix-append [] t = refl
cut_prefix-append (x ∷ p) t = ground (arith, cut_prefix-append p t)

pub cut_prefix→append : (p s t : Text) → cut_prefix p s ≡ some t → s ≡ p ++ t
unfolding cut_prefix
cut_prefix→append [] s t h = ground arith
cut_prefix→append (x ∷ p) [] t h = ground arith
cut_prefix→append (x ∷ p) (y ∷ s) t h = ground (arith, cut_prefix→append p s t)

pub text_le_total : (s t : Text) → text_le s t ≡ false → text_le t s ≡ true
unfolding text_le
text_le_total [] t h = ground arith
text_le_total (x ∷ xs) [] h = refl
text_le_total (x ∷ xs) (y ∷ ys) h = ground (arith, text_le_total xs ys)

pub contains-append :
    (ss ts : List Text) (t : Text) → contains (ss ++ ts) t ≡ (contains ss t || contains ts t)
unfolding contains
contains-append [] ts t = refl
contains-append (s ∷ ss) ts t = ground (arith, contains-append ss ts t)

-- A member is any member equal to it.
pub contains-any : (ss : List Text) (t : Text) → contains ss t ≡ any (λ s. text_eq s t) ss
unfolding contains
contains-any [] t = refl
contains-any (s ∷ ss) t = ap (λ b. text_eq s t || b) (contains-any ss t)

pub contains-sort :
    (le : Text → Text → Bool) (ss : List Text) (t : Text) → contains (sort le ss) t ≡ contains ss t
contains-sort le ss t =
    contains-any (sort le ss) t ∙ any-sort (λ s. text_eq s t) le ss ∙ sym (contains-any ss t)

-- A property of a member.
pub any_of_contains :
    (p : Text → Bool) (ss : List Text) (t : Text)
    → contains ss t ≡ true
    → p t ≡ true
    → any p ss ≡ true
unfolding contains
any_of_contains p [] t h pt = cc
any_of_contains p (s ∷ ss) t h pt = ground (arith, text_eq_iff s t, any_of_contains p ss t)

-- The prefix `b.` fits a name `u.id` without a separator in `b` and `u` only where `b` is `u`.
pub cut_prefix-namespaced :
    (c : ℕ) (b u id : Text)
    → has_byte c b ≡ false
    → has_byte c u ≡ false
    → cut_prefix (b ++ c ∷ []) (u ++ c ∷ id) ≡ (if text_eq b u then some id else none)
unfolding cut_prefix has_byte text_eq
cut_prefix-namespaced c [] [] id hb hu = ground arith
cut_prefix-namespaced c [] (x ∷ u) id hb hu = ground arith
cut_prefix-namespaced c (x ∷ b) [] id hb hu = ground arith
cut_prefix-namespaced c (x ∷ b) (y ∷ u) id hb hu = ground (arith, cut_prefix-namespaced c b u id)
