-- ===== src/Visible.antt =====
-- internal/visible/visible.go: which code points a terminal hides, and their escapes. The tables of
-- package unicode are a parameter, asked for code points above DEL.
use Prim.Native.Nat.{ℕ, zero, suc, ◌+◌, ◌-◌, ◌/◌, ◌%◌}
use gatte.Base.{
  Bool, true, false, ◌||◌, none, some, decode_rune, [], ◌∷◌, ◌++◌, take, Text, codes, ltb, ◌==◌,
  if◌then◌else◌,
}

unfoldable pub hides : (ℕ → Bool) → ℕ → Bool
hides table r =
    if r == 32
    then false
    else if ltb r 0x20 || r == 0x7f
    then true
    else if ltb r 0x7f
    then false
    else table r

-- The first argument counts the bytes of a code point still to pass over.
unfoldable pub hidden_from : (ℕ → Bool) → ℕ → Text → ℕ
unfolding decode_rune hides
hidden_from table k [] = 0
hidden_from table (suc k) (x ∷ s) = hidden_from table k s
hidden_from table zero (x ∷ s) = elim (decode_rune (x ∷ s)) [
  | none ↦ suc (hidden_from table 0 s)
  | some (r, n) ↦
      if hides table r then suc (hidden_from table (n - 1) s) else hidden_from table (n - 1) s
]

unfoldable pub hidden : (ℕ → Bool) → Text → ℕ
unfolding hidden_from
hidden table s = hidden_from table 0 s

abbrev pub hex_digit : ℕ → ℕ
hex_digit d = if ltb d 10 then 48 + d else 55 + d

-- `%02X` of a byte.
abbrev pub hex_byte : ℕ → Text
hex_byte b = hex_digit (b / 16) ∷ hex_digit (b % 16) ∷ []

-- `%04X` of a code point, which has six digits at most.
unfoldable pub hex_rune : ℕ → Text
hex_rune r =
    (if ltb r 0x100000 then [] else hex_digit (r / 0x100000 % 16) ∷ [])
    ++ ((if ltb r 0x10000 then [] else hex_digit (r / 0x10000 % 16) ∷ [])
        ++ (hex_digit (r / 0x1000 % 16)
            ∷ hex_digit (r / 0x100 % 16)
            ∷ hex_digit (r / 16 % 16)
            ∷ hex_digit (r % 16)
            ∷ []))

abbrev pub escaped_byte : ℕ → Text
escaped_byte b = codes "\\x{" ++ (hex_byte b ++ codes "}")

unfoldable pub escaped_rune : ℕ → Text
unfolding hex_rune
escaped_rune r = codes "\\u{" ++ (hex_rune r ++ codes "}")

unfoldable pub escape_from : (ℕ → Bool) → ℕ → Text → Text
unfolding decode_rune hides escaped_rune
escape_from table k [] = []
escape_from table (suc k) (x ∷ s) = escape_from table k s
escape_from table zero (x ∷ s) = elim (decode_rune (x ∷ s)) [
  | none ↦ escaped_byte x ++ escape_from table 0 s
  | some (r, n) ↦
      if hides table r
      then escaped_rune r ++ escape_from table (n - 1) s
      else take n (x ∷ s) ++ escape_from table (n - 1) s
]

unfoldable pub escape : (ℕ → Bool) → Text → Text
unfolding hidden escape_from
escape table s = if hidden table s == 0 then s else escape_from table 0 s
