-- ===== src/Storage/Header/Tests.antt =====
-- The header theorems at concrete headers.
use minigraf.Error.{coded, ok, err, stg001}
use minigraf.Prelude.{◌≡◌, refl, [], ◌∷◌, ◌++◌, arith}
use minigraf.Storage.Header.{FileHeader, new, to_bytes, from_bytes, validate}
use minigraf.Storage.Header.RoundTrip.{IsHeader, from_bytes-to_bytes}
use minigraf.Storage.Header.Errors.{from_bytes-Answers}

-- A version 6 header, whose checksum field is not read back.
abbrev six : FileHeader
six = record new { version = 6; page_count = 9; eavt_root_page = 3; header_checksum = 77 }

six-IsHeader : IsHeader six
six-IsHeader = record {
  magic = refl;
  version = omega arith;
  page_count = omega arith;
  node_count = omega arith;
  last_checkpointed_tx_count = omega arith;
  eavt_root_page = omega arith;
  aevt_root_page = omega arith;
  avet_root_page = omega arith;
  vaet_root_page = omega arith;
  index_checksum = omega arith;
  padding = (0, 0, 0, refl);
  fact_page_count = omega arith;
  header_checksum = omega arith;
}

from_bytes-to_bytes_example :
    from_bytes (to_bytes six ++ (1 ∷ 2 ∷ [])) ≡ ok (record six { header_checksum = 0 })
from_bytes-to_bytes_example = from_bytes-to_bytes six (1 ∷ 2 ∷ []) six-IsHeader

from_bytes-Answers_example : from_bytes (b'M' ∷ b'G' ∷ []) ≡ err (coded stg001)
from_bytes-Answers_example = from_bytes-Answers (b'M' ∷ b'G' ∷ [])

six_valid : validate six ≡ ok tt
unfolding validate
six_valid = refl
