-- ===== src/Graph/Net/Tests.antt =====
-- The current view of a few facts.
use minigraf.Prelude.Int.{pos, i64_max}
use minigraf.Prelude.{ℕ, ◌≡◌, refl, List, [], ◌∷◌}
use minigraf.Graph.Value.{integer}
use minigraf.Graph.Fact.{Fact, with_valid_time, retract}
use minigraf.Bytes.{to_be}
use minigraf.Graph.Value.Encode.{encode_value}
use minigraf.Graph.Net.{
  net_asserted_facts, eav_of, window_of, group_fact, group_facts, keep_winners, pick,
}
use minigraf.Graph.Net.Survivors.{survivors, net_asserted_facts-survivors}

-- An integer asserted under the attribute `n` in the transaction `t`, from the time `from` on.
abbrev assertion : ℕ → ℕ → Fact
assertion t from = with_valid_time 7 (110 ∷ []) (integer (pos 5)) 1000 t (pos from) i64_max

abbrev retraction : ℕ → Fact
retraction t = record (retract 7 (110 ∷ []) (integer (pos 5)) 1000) { tx_count = t }

abbrev history : List Fact
history = assertion 1 0 ∷ retraction 2 ∷ assertion 3 0 ∷ assertion 4 9 ∷ assertion 3 0 ∷ []

history_view : net_asserted_facts history ≡ assertion 3 0 ∷ assertion 4 9 ∷ []
unfolding net_asserted_facts group_facts group_fact keep_winners pick eav_of window_of encode_value
    with_valid_time retract to_be
history_view = refl

net_asserted_facts-survivors_example : net_asserted_facts history ≡ survivors history [] history
net_asserted_facts-survivors_example = net_asserted_facts-survivors history
