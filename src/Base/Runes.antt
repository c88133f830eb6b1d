-- ===== src/Base/Runes.antt =====
-- The code points of a UTF-8 text, as package unicode/utf8 reads them.
use Prim.Native.Nat.{ℕ, zero, suc, ◌+◌, ◌-◌, ◌*◌, ◌%◌}
use mathlib.Core.Bool.{Bool, false, ◌&&◌, ◌||◌, not}
use mathlib.Core.List.{[], ◌∷◌}
use mathlib.Core.Option.{Option, none, some}
use gatte.Base.Tests.{leb, ltb, ◌==◌, if◌then◌else◌}
use gatte.Base.Strings.{Text}

-- The continuation bytes of UTF-8.
abbrev pub continues : ℕ → Bool
continues b = leb 0x80 b && leb b 0xbf

-- The second bytes that may follow a first byte of three or four.
abbrev pub continues_three : ℕ → ℕ → Bool
continues_three a b = continues b && not (a == 0xe0 && ltb b 0xa0) && not (a == 0xed && ltb 0x9f b)

abbrev pub continues_four : ℕ → ℕ → Bool
continues_four a b = continues b && not (a == 0xf0 && ltb b 0x90) && not (a == 0xf4 && ltb 0x8f b)

abbrev pub decode_two : ℕ → Text → Option (ℕ × ℕ)
decode_two a [] = none
decode_two a (b ∷ s) = if continues b then some (a % 32 * 64 + b % 64, 2) else none

abbrev pub decode_three : ℕ → Text → Option (ℕ × ℕ)
decode_three a [] = none
decode_three a (b ∷ []) = none
decode_three a (b ∷ c ∷ s) =
    if continues_three a b && continues c
    then some (a % 16 * 4096 + b % 64 * 64 + c % 64, 3)
    else none

abbrev pub decode_four : ℕ → Text → Option (ℕ × ℕ)
decode_four a [] = none
decode_four a (b ∷ []) = none
decode_four a (b ∷ c ∷ []) = none
decode_four a (b ∷ c ∷ d ∷ s) =
    if continues_four a b && continues c && continues d
    then some (a % 8 * 262144 + b % 64 * 4096 + c % 64 * 64 + d % 64, 4)
    else none

-- `utf8.DecodeRuneInString`: the code point and its size, none where the first byte begins no valid
-- encoding, which Go answers with RuneError and the size 1.
unfoldable pub decode_rune : Text → Option (ℕ × ℕ)
decode_rune [] = none
decode_rune (a ∷ s) =
    if ltb a 0x80
    then some (a, 1)
    else if leb 0xc2 a && leb a 0xdf
    then decode_two a s
    else if leb 0xe0 a && leb a 0xef
    then decode_three a s
    else if leb 0xf0 a && leb a 0xf4
    then decode_four a s
    else none

-- `strings.IndexFunc(s, test) >= 0`, with the bytes of a code point still to pass over: a byte that
-- begins no valid encoding counts as U+FFFD.
unfoldable pub any_rune_from : (ℕ → Bool) → ℕ → Text → Bool
unfolding decode_rune
any_rune_from test k [] = false
any_rune_from test (suc k) (x ∷ s) = any_rune_from test k s
any_rune_from test zero (x ∷ s) = elim (decode_rune (x ∷ s)) [
  | none ↦ test 0xfffd || any_rune_from test 0 s
  | some (r, n) ↦ test r || any_rune_from test (n - 1) s
]

-- `unicode.IsControl`.
abbrev pub is_control : ℕ → Bool
is_control r = ltb r 0x20 || leb 0x7f r && leb r 0x9f
