-- ===== src/Graph/Value/Tests.antt =====
-- The value theorems at concrete values.
use minigraf.Prelude.Order.{flip, compare_bytes}
use minigraf.Prelude.Int.{pos, negsuc}
use minigraf.Prelude.{Ordering, ◌≡◌, refl, true, arith}
use minigraf.Graph.Value.{integer, float, boolean, cmp}
use minigraf.Graph.Value.Order.{cmp_total_order}
use minigraf.Graph.Value.Encode.{encode_value}
use minigraf.Graph.Value.Encode.Sorted.{compare_bytes-encode_value}

cmp_total_order_example :
    (cmp (float 5) (integer (negsuc 0)) ≡ flip (cmp (integer (negsuc 0)) (float 5)))
    × (cmp (integer (negsuc 0)) (float 5) ≡ Ordering.lt
        → cmp (float 5) (boolean true) ≡ Ordering.lt
        → cmp (integer (negsuc 0)) (boolean true) ≡ Ordering.lt)
    × (cmp (integer (negsuc 0)) (float 5) ≡ Ordering.eq
        → cmp (integer (negsuc 0)) (boolean true) ≡ cmp (float 5) (boolean true))
cmp_total_order_example =
    cmp_total_order (integer (negsuc 0)) (float 5) (boolean true) (omega arith) (omega arith) tt

compare_bytes-encode_value_example :
    compare_bytes (encode_value (integer (negsuc 2))) (encode_value (integer (pos 1)))
    ≡ cmp (integer (negsuc 2)) (integer (pos 1))
compare_bytes-encode_value_example =
    compare_bytes-encode_value (integer (negsuc 2)) (integer (pos 1)) (omega arith) (omega arith) tt
      tt refl
