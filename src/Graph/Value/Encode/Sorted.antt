-- ===== src/Graph/Value/Encode/Sorted.antt =====
-- Encoded values sort as the values do, within each variant (src/storage/index.rs).
use minigraf.Prelude.Order.{compare_bytes}
use minigraf.Prelude.Int.{ℤ, pos, negsuc, IsI64, cast_unsigned}
use minigraf.Prelude.{
  ℕ, suc, ◌+◌, ◌-◌, ◌^◌, compare, bit_xor, ◌≡◌, refl, ◌∙◌, ◌≢◌, false, arith, ltb, if◌then◌else◌,
}
use minigraf.Prelude.Bits.{bit_xor_top}
use minigraf.Bytes.BigEndian.{compare_bytes-to_be}
use minigraf.Graph.Float.{IsF64, is_nan}
use minigraf.Graph.Value.{
  Value, string, integer, float, boolean, ref, keyword, null, cmp, variant, IsValue, compare_float,
}
use minigraf.Graph.Value.Encode.{encode_value, float_bits}

-- The integer bits with the sign bit flipped, as arithmetic.
abbrev biased : ℤ → ℕ
biased (pos n) = n + 2 ^ 63
biased (negsuc n) = 2 ^ 63 - suc n

pub integer_bits : (n : ℤ) → IsI64 n → bit_xor (cast_unsigned n) 0x8000_0000_0000_0000 ≡ biased n
integer_bits (pos n) h = bit_xor_top 63 n (omega arith) ∙ ground arith
integer_bits (negsuc n) h = bit_xor_top 63 (2 ^ 64 - suc n) (omega arith) ∙ ground arith

-- The encoded bits of a float that is not NaN, as arithmetic.
abbrev pub sorted_bits : ℕ → ℕ
sorted_bits raw = if ltb raw (2 ^ 63) then raw + 2 ^ 63 else 2 ^ 64 - 1 - raw

pub float_bits_lem : (raw : ℕ) → IsF64 raw → is_nan raw ≡ false → float_bits raw ≡ sorted_bits raw
float_bits_lem raw h e = rw e (ground (arith, bit_xor_top 63 raw))

-- A float that is neither NaN nor the negative zero.
abbrev pub IsOrdinary : Value → Type 0
IsOrdinary (float bits) = (is_nan bits ≡ false) × (bits ≢ 2 ^ 63)
IsOrdinary v = Unit {0}

compare-sorted_bits :
    (a b : ℕ)
    → IsF64 a
    → IsF64 b
    → IsOrdinary (float a)
    → IsOrdinary (float b)
    → compare (sorted_bits a) (sorted_bits b) ≡ compare_float a b
compare-sorted_bits a b h k (na, za) (nb, zb) = rw (na, nb) (ground arith)

-- Values of one variant, other than NaN and -0.0, are ordered as their encodings are byte by byte.
pub compare_bytes-encode_value :
    (a b : Value)
    → IsValue a
    → IsValue b
    → IsOrdinary a
    → IsOrdinary b
    → variant a ≡ variant b
    → compare_bytes (encode_value a) (encode_value b) ≡ cmp a b
unfolding encode_value cmp
compare_bytes-encode_value (string a) (string b) h k p q e = refl
compare_bytes-encode_value (integer a) (integer b) h k p q e =
    rw (integer_bits a h, integer_bits b k)
      (compare_bytes-to_be 8 (biased a) (biased b) (ground arith) (ground arith) ∙ ground arith)
compare_bytes-encode_value (float a) (float b) h k p q e =
    rw (float_bits_lem a h p.0, float_bits_lem b k q.0)
      (compare_bytes-to_be 8 (sorted_bits a) (sorted_bits b) (ground arith) (ground arith)
        ∙ compare-sorted_bits a b h k p q)
compare_bytes-encode_value (boolean a) (boolean b) h k p q e = ground arith
compare_bytes-encode_value (ref a) (ref b) h k p q e =
    compare_bytes-to_be 16 a b (omega arith) (omega arith)
compare_bytes-encode_value (keyword a) (keyword b) h k p q e = refl
compare_bytes-encode_value null null h k p q e = refl
compare_bytes-encode_value _ _ h k p q e = absurd (omega arith)
