-- ===== src/Graph/Net.antt =====
-- `net_asserted_facts` of src/graph/storage.rs: the current view of a set of facts.
pub mod Winner
pub mod Flags
pub mod Survivors
pub mod Duplicates
mod Tests
use minigraf.Prelude.Int.{ℤ, pos, negsuc}
use minigraf.Prelude.Text.{Text, bytes_eq, bytes_eq_iff}
use minigraf.Error.{◌>>=◌, ◌>>◌}
use minigraf.Prelude.{
  ℕ, suc, ◌*◌, max, ◌≡◌, ◌↔◌, Bool, true, false, ◌&&◌, Option, none, some, List, [], ◌∷◌, arith,
  ltb, ◌==◌, if◌then◌else◌, length, set, replicate,
}
use minigraf.Prelude.Map.{Key, Map, lookup, entry}
use minigraf.Graph.Value.{EntityId}
use minigraf.Graph.Value.Encode.{encode_value}
use minigraf.Graph.Fact.{Fact}

-- `EavKey`: entity, attribute and encoded value.
pub record EavKey : Type 0 where
  pub entity : EntityId
  pub attribute : Text
  pub value : List ℕ

-- `WindowKey`: an `EavKey` with the validity window.
pub record WindowKey : Type 0 where
  pub eav : EavKey
  pub open eav use *
  pub valid_from : ℤ
  pub valid_to : ℤ

abbrev pub eav_same : EavKey → EavKey → Bool
eav_same a b =
    a.entity == b.entity && (bytes_eq a.attribute b.attribute && bytes_eq a.value b.value)

pub eav_same_iff : (a b : EavKey) → (eav_same a b ≡ true) ↔ (a ≡ b)
eav_same_iff a b =
    ground (arith, bytes_eq_iff a.attribute b.attribute, bytes_eq_iff a.value b.value)

instance abbrev pub eav_key : Key EavKey
eav_key = record { same = eav_same; same_iff = eav_same_iff }

abbrev pub int_same : ℤ → ℤ → Bool
int_same (pos a) (pos b) = a == b
int_same (pos a) (negsuc b) = false
int_same (negsuc a) (pos b) = false
int_same (negsuc a) (negsuc b) = a == b

pub int_same_iff : (a b : ℤ) → (int_same a b ≡ true) ↔ (a ≡ b)
int_same_iff a b = ground arith

abbrev pub window_same : WindowKey → WindowKey → Bool
window_same a b =
    eav_same a.eav b.eav && (int_same a.valid_from b.valid_from && int_same a.valid_to b.valid_to)

pub window_same_iff : (a b : WindowKey) → (window_same a b ≡ true) ↔ (a ≡ b)
window_same_iff a b = ground (
  arith,
  eav_same_iff a.eav b.eav,
  int_same_iff a.valid_from b.valid_from,
  int_same_iff a.valid_to b.valid_to,
)

instance abbrev pub window_key : Key WindowKey
window_key = record { same = window_same; same_iff = window_same_iff }

unfoldable pub eav_of : Fact → EavKey
eav_of f = record { entity = f.entity; attribute = f.attribute; value = encode_value f.value }

unfoldable pub window_of : Fact → WindowKey
window_of f = record { eav = eav_of f; valid_from = f.valid_from; valid_to = f.valid_to }

-- The two maps of the first loop.
pub record Groups : Type 0 where
  pub max_retract_tx : Map EavKey ℕ
  pub by_window : Map WindowKey (ℕ × ℕ)

abbrev pub no_groups : Groups
no_groups = record { max_retract_tx = []; by_window = [] }

-- The winner of a window after an assertion with the position `idx`: only a greater count wins.
abbrev pub challenge : ℕ → ℕ → ℕ × ℕ → ℕ × ℕ
challenge idx tx_count (i, t) = if ltb t tx_count then (idx, tx_count) else (i, t)

-- One round of the first loop.
unfoldable pub group_fact : ℕ → Fact → Groups → Groups
group_fact idx f g =
    if f.asserted
    then record g {
      by_window = entry (window_of f) (challenge idx f.tx_count) (idx, f.tx_count) g.by_window;
    }
    else record g {
      max_retract_tx = entry (eav_of f) (λ t. max t f.tx_count) f.tx_count g.max_retract_tx;
    }

pub group_facts : ℕ → List Fact → Groups → Groups
group_facts idx [] g = g
group_facts idx (f ∷ facts) g = group_facts (suc idx) facts (group_fact idx f g)

abbrev pub or_zero : Option ℕ → ℕ
or_zero none = 0
or_zero (some n) = n

-- The second loop: the winner of each window is kept if it is later than every retraction.
pub keep_winners : Map EavKey ℕ → Map WindowKey (ℕ × ℕ) → List Bool → List Bool
keep_winners retracts [] flags = flags
keep_winners retracts ((k, (idx, tx_count)) ∷ winners) flags =
    keep_winners retracts winners
      (if ltb (or_zero (lookup k.eav retracts)) tx_count then set flags idx true else flags)

-- `facts.into_iter().zip(keep).filter_map(…)`
pub pick : List Fact → List Bool → List Fact
pick [] flags = []
pick (f ∷ facts) [] = []
pick (f ∷ facts) (kept ∷ flags) = if kept then f ∷ pick facts flags else pick facts flags

-- `net_asserted_facts`
pub net_asserted_facts : List Fact → List Fact
net_asserted_facts facts =
    let g = group_facts 0 facts no_groups in
    pick facts (keep_winners g.max_retract_tx g.by_window (replicate (length facts) false))
