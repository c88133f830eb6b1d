-- ===== src/Base/Frames.antt =====
-- Byte strings with their length in front, as `binary.BigEndian` writes it on 64 bits.
use Prim.Native.Nat.{ℕ, ◌/◌, ◌%◌, ◌<◌, ◌^◌}
use mathlib.Core.Path.{◌≡◌, refl}
use mathlib.Core.List.{[], ◌∷◌, ◌++◌}
use native.Mathlib.Omega.{arith}
use gatte.Base.Lists.{length, append-injective}
use gatte.Base.Strings.{Text}

-- `binary.BigEndian.PutUint64` and `AppendUint64`.
unfoldable pub put_uint64 : ℕ → Text
put_uint64 v =
    (v / 2 ^ 56 % 256)
    ∷ (v / 2 ^ 48 % 256)
    ∷ (v / 2 ^ 40 % 256)
    ∷ (v / 2 ^ 32 % 256)
    ∷ (v / 2 ^ 24 % 256)
    ∷ (v / 2 ^ 16 % 256)
    ∷ (v / 2 ^ 8 % 256)
    ∷ (v % 256)
    ∷ []

pub put_uint64-injective : (a b : ℕ) → a < 2 ^ 64 → b < 2 ^ 64 → put_uint64 a ≡ put_uint64 b → a ≡ b
unfolding put_uint64
put_uint64-injective a b ha hb e = ground arith

-- A length that a Go slice can have.
abbrev pub IsSized : Text → Type 0
IsSized b = length b < 2 ^ 64

-- A byte string behind its length, which a decoder can take off the front of anything.
abbrev pub framed : Text → Text
framed b = put_uint64 (length b) ++ b

pub framed-injective :
    (a b : Text) {r s : Text}
    → IsSized a
    → IsSized b
    → framed a ++ r ≡ framed b ++ s
    → (a ≡ b) × (r ≡ s)
unfolding put_uint64
framed-injective a b {r} {s} ha hb e =
    let split = append-injective (put_uint64 (length a)) (put_uint64 (length b)) refl e in
    append-injective a b (put_uint64-injective (length a) (length b) ha hb split.0) split.1
