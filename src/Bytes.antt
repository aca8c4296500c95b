-- ===== src/Bytes.antt =====
-- The integers of the file formats: `to_le_bytes`, `from_le_bytes` and `to_be_bytes` of Rust, for
-- any number of bytes.
pub mod RoundTrip
pub mod BigEndian
use minigraf.Prelude.{
  ℕ, zero, suc, ◌+◌, ◌*◌, ◌/◌, ◌%◌, ◌^◌, ◌<◌, Bool, Option, none, some, List, [], ◌∷◌, leb,
  if◌then◌else◌, length, take, drop,
}

abbrev pub IsByte : ℕ → Type 0
IsByte b = b < 256

-- The `k` lowest bytes of `n`, lowest first.
unfoldable pub to_le : ℕ → ℕ → List ℕ
to_le zero n = []
to_le (suc k) n = n % 256 ∷ to_le k (n / 256)

unfoldable pub from_le : List ℕ → ℕ
from_le [] = 0
from_le (b ∷ bs) = b + 256 * from_le bs

-- The `k` lowest bytes of `n`, highest first.
unfoldable pub to_be : ℕ → ℕ → List ℕ
to_be zero n = []
to_be (suc k) n = (n / 256 ^ k % 256) ∷ to_be k n

-- `bytes.get(offset..offset + n)`
abbrev slice_within : Bool → List ℕ → ℕ → ℕ → Option (List ℕ)
slice_within fits bytes offset n = if fits then some (take n (drop offset bytes)) else none

unfoldable pub slice : List ℕ → ℕ → ℕ → Option (List ℕ)
slice bytes offset n = slice_within (leb (offset + n) (length bytes)) bytes offset n
