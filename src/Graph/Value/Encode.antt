-- ===== src/Graph/Value/Encode.antt =====
-- `encode_value` of src/storage/index.rs: the bytes by which the AVET index sorts values.
pub mod Sorted
pub mod Injective
use minigraf.Prelude.Int.{cast_unsigned}
use minigraf.Error.{◌>>=◌, ◌>>◌}
use minigraf.Prelude.{ℕ, ◌-◌, ◌/◌, ◌^◌, bit_xor, List, [], ◌∷◌, ◌==◌, if◌then◌else◌}
use minigraf.Bytes.{to_be}
use minigraf.Graph.Float.{is_nan}
use minigraf.Graph.Value.{Value, string, integer, float, boolean, ref, keyword, null}

-- The 64 bits of an encoded float.
abbrev pub float_bits : ℕ → ℕ
float_bits raw =
    if is_nan raw
    then 0x7ff8_0000_0000_0000
    else if raw / 2 ^ 63 == 0
    then bit_xor raw 0x8000_0000_0000_0000
    else 2 ^ 64 - 1 - raw

-- `encode_value`; `!raw` of a 64-bit word is 2 ^ 64 - 1 - raw.
unfoldable pub encode_value : Value → List ℕ
encode_value null = 0x00 ∷ []
encode_value (boolean b) = 0x01 ∷ (if b then 1 else 0) ∷ []
encode_value (integer n) = 0x02 ∷ to_be 8 (bit_xor (cast_unsigned n) 0x8000_0000_0000_0000)
encode_value (float f) = 0x03 ∷ to_be 8 (float_bits f)
encode_value (string s) = 0x04 ∷ s
encode_value (keyword k) = 0x05 ∷ k
encode_value (ref id) = 0x06 ∷ to_be 16 id
