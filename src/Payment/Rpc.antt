-- ===== src/Payment/Rpc.antt =====
-- payment/rpc.rs: the calls of a JSON-RPC node. The HTTP client, the JSON values and hex::decode are a
-- parameter; the node and the network are a state that each request moves on, and `none` is a panic.
pub mod Receipt
use veil_vpn.Prelude.{
  ℕ, zero, suc, ◌+◌, ◌*◌, ◌-◌, ◌^◌, Bool, true, false, Option, none, some, List, [], ◌∷◌, ◌++◌, ltb,
  ◌==◌, if◌then◌else◌, length, take, drop,
}
use veil_vpn.Prelude.Bytes.{Bytes, bytes_eq, from_be_bytes}
use veil_vpn.Prelude.Text.{codes}
use veil_vpn.Payment.Settlement.{hex_0x}
use veil_vpn.Device.Keys.{hex_value}

-- `Result<A, String>`
pub data Outcome (A : Type 0) : Type 0 where
  success : A → Outcome A
  failure : Bytes → Outcome A

-- A parameter of a request: a text, or an object with the texts of its fields.
pub data Param : Type 0 where
  text : Bytes → Param
  object : List (Bytes × Bytes) → Param

-- The answer to a request: a JSON value, a failure to send, or a body that is no JSON.
pub data Sent (V : Type 0) : Type 0 where
  response : V → Sent V
  unreachable unreadable : Bytes → Sent V

pub record Node : Type 1 where
  pub World : Type 0
  pub Value : Type 0
  pub send : World → Bytes → Bytes → List Param → World × Sent Value
  pub get : Value → Bytes → Option Value
  pub index : Value → Bytes → Value
  pub as_str : Value → Option Bytes
  pub is_null : Value → Bool
  pub display : Value → Bytes
  pub hex_decode : Bytes → Outcome Bytes

-- A text without a prefix of `0x`.
unfoldable pub strip_0x : Bytes → Bytes
strip_0x [] = []
strip_0x (a ∷ []) = a ∷ []
strip_0x (a ∷ (x ∷ rest)) =
    if a == 48 then (if x == 120 then rest else a ∷ (x ∷ rest)) else a ∷ (x ∷ rest)

-- The digits of a number in base 16 behind `acc`, below a bound.
unfoldable pub hex_digits : ℕ → ℕ → Bytes → Outcome ℕ
unfolding hex_value
hex_digits bound acc [] = success acc
hex_digits bound acc (c ∷ cs) = elim (hex_value c) [
  | none ↦ failure (codes "invalid digit found in string")
  | some digit ↦
      let later = hex_digits bound (16 * acc + digit) cs in
      if ltb (16 * acc + digit) bound
      then later
      else failure (codes "number too large to fit in target type")
]

-- `from_str_radix` in base 16, of a text that is not empty.
unfoldable pub from_str_radix : ℕ → Bytes → Outcome ℕ
unfolding hex_digits
from_str_radix bound [] = failure (codes "cannot parse integer from empty string")
from_str_radix bound (c ∷ []) = hex_digits bound 0 (c ∷ [])
from_str_radix bound (c ∷ (x ∷ cs)) = hex_digits bound 0 (if c == 43 then x ∷ cs else c ∷ (x ∷ cs))

unfoldable pub labelled : {A : Type 0} → Bytes → Outcome A → Outcome A
labelled label (success a) = success a
labelled label (failure e) = failure (label ++ e)

unfoldable pub parse_hex : Bytes → ℕ → Bytes → Outcome ℕ
unfolding strip_0x from_str_radix labelled
parse_hex label bound s =
    if length (strip_0x s) == 0
    then success 0
    else labelled label (from_str_radix bound (strip_0x s))

abbrev pub parse_hex_u64 : Bytes → Outcome ℕ
parse_hex_u64 = parse_hex (codes "parse u64: ") (2 ^ 64)

abbrev pub parse_hex_u128 : Bytes → Outcome ℕ
parse_hex_u128 = parse_hex (codes "parse u128: ") (2 ^ 128)

-- The last 16 bytes of a result of at least 32.
unfoldable pub parse_u256_result : Bytes → ℕ
parse_u256_result bytes =
    if ltb (length bytes) 32 then 0 else from_be_bytes (take 16 (drop (length bytes - 16) bytes))

module _ (node : Node) where
  -- What a call leaves and gives.
  abbrev pub Call : Type 0 → Type 0
  Call A = node.World → node.World × Outcome A

  unfoldable pub decode_hex : Bytes → Outcome Bytes
  unfolding strip_0x labelled
  decode_hex s =
      if length (strip_0x s) == 0
      then success []
      else labelled (codes "hex decode: ") (node.hex_decode (strip_0x s))

  infixl 5 ◌>>=◌
  abbrev pub ◌>>=◌ : {A B : Type 0} → Call A → (A → Call B) → Call B
  ◌>>=◌ m f w = let (w', o) = m w in elim o [ success a ↦ f a w' | failure e ↦ (w', failure e) ]

  abbrev pub give : {A : Type 0} → Outcome A → Call A
  give o w = (w, o)

  unfoldable pub result_of : node.Value → Outcome node.Value
  result_of json = elim (node.get json (codes "error")) [
    | some err ↦ failure (codes "RPC error: " ++ node.display err)
    | none ↦ success (node.index json (codes "result"))
  ]

  unfoldable pub answered : Sent node.Value → Outcome node.Value
  unfolding result_of
  answered (response json) = result_of json
  answered (unreachable e) = failure (codes "RPC request failed: " ++ e)
  answered (unreadable e) = failure (codes "RPC response parse failed: " ++ e)

  unfoldable pub call : Bytes → Bytes → List Param → Call node.Value
  unfolding answered
  call url method params w = let (w', sent) = node.send w url method params in (w', answered sent)

  -- The text of a value, or a default.
  unfoldable pub str_or : node.Value → Bytes → Bytes
  str_or v default = elim (node.as_str v) [ none ↦ default | some s ↦ s ]

  unfoldable pub str_of : node.Value → Bytes → Outcome Bytes
  str_of v error = elim (node.as_str v) [ none ↦ failure error | some s ↦ success s ]

  unfoldable pub hex_of : Outcome Bytes → Outcome Bytes
  unfolding decode_hex
  hex_of (failure e) = failure e
  hex_of (success s) = decode_hex s

  unfoldable pub eth_call : Bytes → Bytes → Bytes → Call Bytes
  unfolding call str_of hex_of
  eth_call url to calldata = do
    result ← call url (codes "eth_call") (
        object ((codes "to", hex_0x to) ∷ ((codes "data", hex_0x calldata) ∷ []))
        ∷ (text (codes "latest") ∷ []))
    give (hex_of (str_of result (codes "eth_call result not a string")))

  unfoldable pub get_nonce : Bytes → Bytes → Call ℕ
  unfolding call str_or parse_hex
  get_nonce url addr = do
    result ←
        call url (codes "eth_getTransactionCount")
          (text (hex_0x addr) ∷ (text (codes "latest") ∷ []))
    give (parse_hex_u64 (str_or result (codes "0x0")))

  unfoldable pub gas_price : Bytes → Call ℕ
  unfolding call str_or parse_hex
  gas_price url = do
    result ← call url (codes "eth_gasPrice") []
    give (parse_hex_u128 (str_or result (codes "0x0")))

  unfoldable pub max_priority_fee : Bytes → Call ℕ
  unfolding call str_or parse_hex
  max_priority_fee url = do
    result ← call url (codes "eth_maxPriorityFeePerGas") []
    give (parse_hex_u128 (str_or result (codes "0x0")))

  unfoldable pub estimate_gas : Bytes → Bytes → Bytes → Bytes → Call ℕ
  unfolding call str_or parse_hex
  estimate_gas url from to calldata = do
    result ← call url (codes "eth_estimateGas") (
        object (
          (codes "from", hex_0x from)
          ∷ ((codes "to", hex_0x to) ∷ ((codes "data", hex_0x calldata) ∷ [])))
        ∷ [])
    give (parse_hex_u64 (str_or result (codes "0x0")))

  unfoldable pub send_raw_tx : Bytes → Bytes → Call Bytes
  unfolding call str_of
  send_raw_tx url raw_tx = do
    result ← call url (codes "eth_sendRawTransaction") (text (hex_0x raw_tx) ∷ [])
    give (str_of result (codes "no tx hash in response"))

  -- `none` when the transaction is not mined yet.
  unfoldable pub get_receipt : Bytes → Bytes → Call (Option node.Value)
  unfolding call
  get_receipt url tx_hash = do
    result ← call url (codes "eth_getTransactionReceipt") (text tx_hash ∷ [])
    give (success (if node.is_null result then none else some result))

  unfoldable pub is_confirmed : node.Value → Bool
  unfolding str_or
  is_confirmed receipt =
      bytes_eq (str_or (node.index receipt (codes "status")) (codes "0x0")) (codes "0x1")

  -- What follows a poll: the next ones, unless there is a receipt or a failure.
  unfoldable pub after_poll :
      Call Bool → node.World × Outcome (Option node.Value) → node.World × Outcome Bool
  unfolding is_confirmed
  after_poll later (w, failure e) = (w, failure e)
  after_poll later (w, success (some receipt)) = (w, success (is_confirmed receipt))
  after_poll later (w, success none) = later w

  -- Polls at most as often as there are attempts left.
  unfoldable pub wait_for_receipt : Bytes → Bytes → ℕ → Call Bool
  unfolding get_receipt after_poll
  wait_for_receipt url tx_hash zero w = (w, failure (codes "timeout waiting for receipt"))
  wait_for_receipt url tx_hash (suc attempts) w =
      after_poll (wait_for_receipt url tx_hash attempts) (get_receipt url tx_hash w)
