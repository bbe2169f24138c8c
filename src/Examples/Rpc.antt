-- ===== src/Examples/Rpc.antt =====
-- payment/rpc.rs on a node that answers with a receipt at the third poll.
use veil_vpn.Prelude.{
  ℕ, ◌+◌, ◌≡◌, ◌↔◌, Bool, true, refl, none, some, [], ◌∷◌, ◌++◌, arith, ltb, ◌==◌, if◌then◌else◌,
  length, replicate,
}
use veil_vpn.Prelude.Bytes.{Bytes, from_be_bytes}
use veil_vpn.Prelude.Text.{codes}
use veil_vpn.Payment.Rpc.{
  Node, success, response, text, wait_for_receipt, parse_hex_u64, parse_hex, parse_u256_result,
}
use veil_vpn.Payment.Rpc.Receipt.{Replies, Pending, at_once, poll, wait_for_receipt-reports}

-- A value is a text, and the empty text stands for null.
abbrev slow_node : Node
slow_node = record {
  World = ℕ;
  Value = Bytes;
  send = λ w url method params. (w + 1, response (if ltb w 2 then [] else codes "0x1"));
  get = λ v key. none;
  index = λ v key. v;
  as_str = some;
  is_null = λ v. length v == 0;
  display = λ v. v;
  hex_decode = success;
}

abbrev url : Bytes
url = codes "http://node"

abbrev tx_hash : Bytes
tx_hash = codes "0xabcd"

no_receipt :
    (w w' : ℕ)
    → slow_node.send w url (codes "eth_getTransactionReceipt") (text tx_hash ∷ [])
      ≡ (w', response [])
    → Replies slow_node url tx_hash w w' []
no_receipt w w' sends = record { json = []; sends = sends; no_error = refl; result_is = refl }

two_polls : Pending slow_node url tx_hash 2 0 2
two_polls = poll (no_receipt 0 1 refl) refl (poll (no_receipt 1 2 refl) refl at_once)

third_poll : Replies slow_node url tx_hash 2 3 (codes "0x1")
third_poll = record { json = codes "0x1"; sends = refl; no_error = refl; result_is = refl }

wait_for_receipt-reports_example :
    (confirmed : Bool) × (wait_for_receipt slow_node url tx_hash 30 0 ≡ (3, success confirmed))
    × ((confirmed ≡ true) ↔ (some (codes "0x1") ≡ some (codes "0x1")))
wait_for_receipt-reports_example =
    wait_for_receipt-reports slow_node url tx_hash 2 30 0 2 3 (codes "0x1") two_polls (omega arith)
      third_poll refl

parsed_hex : parse_hex_u64 (codes "0x1F4") ≡ success 500
unfolding parse_hex
parsed_hex = refl

parsed_word : parse_u256_result (replicate 30 0 ++ (1 ∷ (2 ∷ []))) ≡ 258
unfolding parse_u256_result from_be_bytes
parsed_word = refl
