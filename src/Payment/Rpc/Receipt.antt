-- ===== src/Payment/Rpc/Receipt.antt =====
-- The wait for a receipt reports it, when it comes within the attempts.
use veil_vpn.Prelude.{
  ℕ, zero, suc, ◌+◌, ◌-◌, ◌<◌, ◌≡◌, ◌↔◌, ap, ◌∙◌, inl, inr, Bool, true, false, none, some, [], ◌∷◌,
  arith, Option-cases,
}
use veil_vpn.Prelude.Bytes.{Bytes, bytes_eq, bytes_eq→eq}
use veil_vpn.Prelude.Text.{codes}
use veil_vpn.Payment.Rpc.{
  Node, response, success, text, call, get_receipt, is_confirmed, after_poll, wait_for_receipt,
}

module _ (node : Node) (url tx_hash : Bytes) where
  -- The node answers one request for the receipt, and without an error: with a value, which is null
  -- as long as the transaction is not mined.
  pub record Replies (w w' : node.World) (result : node.Value) : Type 0 where
    pub json : node.Value
    pub sends :
        node.send w url (codes "eth_getTransactionReceipt") (text tx_hash ∷ [])
        ≡ (w', response json)
    pub no_error : node.get json (codes "error") ≡ none
    pub result_is : node.index json (codes "result") ≡ result

  -- A number of polls, none of which had a receipt, lead from one state to another.
  pub data Pending : ℕ → node.World → node.World → Type 0 where
    at_once : {w : node.World} → Pending zero w w
    poll :
        {n : ℕ} {w w' w'' : node.World} {result : node.Value}
        → Replies w w' result
        → node.is_null result ≡ true
        → Pending n w' w''
        → Pending (suc n) w w''

  replied :
      (w w' : node.World) (result : node.Value)
      → Replies w w' result
      → call node url (codes "eth_getTransactionReceipt") (text tx_hash ∷ []) w
        ≡ (w', success result)
  unfolding call
  replied w w' result r = ground (arith, r.sends, r.no_error, r.result_is)

  get_receipt-null :
      (w w' : node.World) (result : node.Value)
      → Replies w w' result
      → node.is_null result ≡ true
      → get_receipt node url tx_hash w ≡ (w', success none)
  unfolding get_receipt
  get_receipt-null w w' result r null = ground (arith, replied w w' result r, null)

  get_receipt-some :
      (w w' : node.World) (result : node.Value)
      → Replies w w' result
      → node.is_null result ≡ false
      → get_receipt node url tx_hash w ≡ (w', success (some result))
  unfolding get_receipt
  get_receipt-some w w' result r there = ground (arith, replied w w' result r, there)

  -- The state after the polls is the one in which the rest of the attempts start.
  wait-Pending :
      (n rest : ℕ) (w w' : node.World)
      → Pending n w w'
      → wait_for_receipt node url tx_hash (n + rest) w ≡ wait_for_receipt node url tx_hash rest w'
  unfolding wait_for_receipt
  wait-Pending zero rest w w' at_once =
      ap (λ k. wait_for_receipt node url tx_hash k w) (omega arith)
  wait-Pending (suc n) rest w w' (poll {w' = w1} {result = v} r null p) =
      let count : suc n + rest ≡ suc (n + rest) = omega arith in
      ap (λ k. wait_for_receipt node url tx_hash k w) count
      ∙ ap (after_poll node (wait_for_receipt node url tx_hash (n + rest)))
          (get_receipt-null w w1 v r null)
      ∙ wait-Pending n rest w1 w' p

  -- A receipt is confirmed exactly when its status is the text 0x1.
  is_confirmed_iff :
      (r : node.Value)
      → (is_confirmed node r ≡ true)
        ↔ (node.as_str (node.index r (codes "status")) ≡ some (codes "0x1"))
  unfolding is_confirmed bytes_eq
  is_confirmed_iff r = elim (Option-cases (node.as_str (node.index r (codes "status")))) [
    | inl missing ↦ (λ h. ground (arith, h, missing), λ h. cc)
    | inr (s, has) ↦
        (λ h. ground (arith, h, has, bytes_eq→eq s (codes "0x1")), λ h. ground (arith, h))
  ]

  -- A receipt that comes after fewer polls than there are attempts is reported: as confirmed, when
  -- its status is the text 0x1, and as failed, when it is another or is missing.
  pub wait_for_receipt-reports :
      (n attempts : ℕ) (w w' w'' : node.World) (r : node.Value)
      → Pending n w w'
      → n < attempts
      → Replies w' w'' r
      → node.is_null r ≡ false
      → (confirmed : Bool) × (wait_for_receipt node url tx_hash attempts w
          ≡ (w'', success confirmed))
        × ((confirmed ≡ true) ↔ (node.as_str (node.index r (codes "status")) ≡ some (codes "0x1")))
  unfolding wait_for_receipt
  wait_for_receipt-reports n attempts w w' w'' r p within reply there =
      let count : attempts ≡ n + suc (attempts - n - 1) = omega arith in
      (
        is_confirmed node r,
        ap (λ k. wait_for_receipt node url tx_hash k w) count
            ∙ wait-Pending n (suc (attempts - n - 1)) w w' p
            ∙ ap (after_poll node (wait_for_receipt node url tx_hash (attempts - n - 1)))
                (get_receipt-some w' w'' r reply there),
        is_confirmed_iff r,
      )
