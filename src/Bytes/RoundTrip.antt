-- ===== src/Bytes/RoundTrip.antt =====
-- Little-endian integers read back what was written.
use minigraf.Prelude.{
  ℕ, zero, suc, ◌/◌, ◌^◌, ◌<◌, ◌≡◌, refl, ap, ap₂, ◌∙◌, some, List, [], ◌∷◌, ◌++◌, arith, length,
  All, length-append, take-append, drop-append,
}
use native.Mathlib.Nat.{pow-suc}
use minigraf.Bytes.{IsByte, to_le, from_le, slice}

pub length-to_le : (k n : ℕ) → length (to_le k n) ≡ k
unfolding to_le
length-to_le zero n = refl
length-to_le (suc k) n = ap suc (length-to_le k (n / 256))

pub to_le-IsByte : (k n : ℕ) → All IsByte (to_le k n)
unfolding to_le
to_le-IsByte zero n = tt
to_le-IsByte (suc k) n = (omega arith, to_le-IsByte k (n / 256))

quotient_bound : (k n : ℕ) → n < 256 ^ suc k → n / 256 < 256 ^ k
quotient_bound k n h = omega (arith, h)

pub from_le-to_le : (k n : ℕ) → n < 256 ^ k → from_le (to_le k n) ≡ n
unfolding to_le from_le
from_le-to_le zero n h = omega arith
from_le-to_le (suc k) n h = omega (arith, from_le-to_le k (n / 256) (quotient_bound k n h))

pub from_le-bound : (bs : List ℕ) → All IsByte bs → from_le bs < 256 ^ length bs
unfolding from_le
from_le-bound [] h = omega arith
from_le-bound (b ∷ bs) (hb, h) = omega (arith, from_le-bound bs h, pow-suc 256 (length bs))

pub to_le-from_le : (bs : List ℕ) → All IsByte bs → to_le (length bs) (from_le bs) ≡ bs
unfolding to_le from_le
to_le-from_le [] h = refl
to_le-from_le (b ∷ bs) (hb, h) =
    ap₂ ◌∷◌ (omega arith) (ap (to_le (length bs)) (omega arith) ∙ to_le-from_le bs h)

-- A field that stands behind `front` is what the slice at its offset gives.
pub slice-append :
    (front field back : List ℕ) (offset n : ℕ)
    → length front ≡ offset
    → length field ≡ n
    → slice (front ++ (field ++ back)) offset n ≡ some field
unfolding slice
slice-append front field back offset n hf hn = ground (
  arith,
  drop-append front (field ++ back) offset hf,
  take-append field back n hn,
  length-append front (field ++ back),
  length-append field back,
)
