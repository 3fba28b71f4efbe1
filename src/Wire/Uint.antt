-- ===== src/Wire/Uint.antt =====
-- src/zerobus/serialization.h, Serialization::write_uint and write_string, and
-- src/zerobus/serialization.cpp, Deserialization::read_uint, read_string and can_read_uint.
-- A byte is a number below 256 and a string_view is the list of its bytes. What an output
-- iterator appends is the list that the function returns; a reader returns its value with
-- the part of the text that is left.
pub mod RoundTrip
use zerobus.Prelude.{
  ℕ, zero, suc, ◌+◌, ◌*◌, ◌/◌, ◌%◌, ◌^◌, ◌<◌, bit_and, bit_or, Bool, false, List, [], ◌∷◌, ◌++◌,
  arith, leb, length, take, drop, lt_wf,
}
use mathlib.Core.Logic.{dite}
use mathlib.Core.WellFounded.{Acc}
use native.Mathlib.Decide.{dec_lt}

abbrev pub Bytes : Type 0
Bytes = List ℕ

abbrev pub IsByte : ℕ → Type 0
IsByte b = b < 256

pub shift_shrinks : (tmp : ℕ) → 0x1f < tmp → tmp / 256 < tmp
shift_shrinks tmp h = omega arith

-- `while (tmp > 0x1F) { ++bytes; tmp >>= 8; }`, from the values that tmp and bytes have.
unfoldable pub shrink : (tmp bytes : ℕ) → Acc ◌<◌ tmp → ℕ × ℕ
shrink tmp bytes (Acc.intro _ smaller) =
    dite (dec_lt 0x1f tmp)
      (λ h. shrink (tmp / 256) (suc bytes) (smaller (tmp / 256) (shift_shrinks tmp h)))
      (λ _. (tmp, bytes))

-- `while (bytes) { --bytes; write (val >> (bytes * 8)) & 0xFF }`
unfoldable pub write_tail : ℕ → ℕ → Bytes
write_tail val zero = []
write_tail val (suc bytes) = (val / 2 ^ (bytes * 8) % 256) ∷ write_tail val bytes

-- `tmp |= (bytes << 5)` is written through a cast to char.
unfoldable pub write_uint : ℕ → Bytes
write_uint val =
    let (tmp, bytes) = shrink val 0 (lt_wf.apply val) in
    (bit_or (bytes * 32) tmp % 256) ∷ write_tail val bytes

unfoldable pub write_string : Bytes → Bytes
write_string str = write_uint (length str) ++ str

-- `while (bytes && !msgtext.empty()) { ret = (ret << 8) | front; ...; --bytes; }`
unfoldable pub read_tail : ℕ → ℕ → Bytes → ℕ × Bytes
read_tail zero ret text = (ret, text)
read_tail (suc bytes) ret [] = (ret, [])
read_tail (suc bytes) ret (c ∷ text) = read_tail bytes (bit_or (ret * 256 % 2 ^ 64) c) text

unfoldable pub read_uint : Bytes → ℕ × Bytes
read_uint [] = (0, [])
read_uint (c ∷ text) = read_tail (c / 32) (bit_and c 0x1f) text

-- `part = msgtext.substr(0, len)`, and the text goes on behind it.
unfoldable pub read_string : Bytes → Bytes × Bytes
read_string text =
    let (len, rest) = read_uint text in let part = take len rest in (part, drop (length part) rest)

unfoldable pub can_read_uint : Bytes → Bool
can_read_uint [] = false
can_read_uint (c ∷ text) = leb (bit_and (c / 32) 0x7 + 1) (length (c ∷ text))
