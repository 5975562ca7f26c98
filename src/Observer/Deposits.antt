-- ===== src/Observer/Deposits.antt =====
-- Deposits in the blocks: the watched addresses of internal/blockchain_observer/observer.go, and the
-- workers on shard blocks and the notifier of workers.go. A 32-byte account is given by its print in
-- hex, a transaction by what the observer reads of it.
use telegram_ads_market.Common.{
  ℕ, String, Bool, true, false, not, Option, none, some, List, [], ◌∷◌, ◌++◌, ltb, if◌then◌else◌,
  exists, select, length,
}
use telegram_ads_market.Common.Int.{ℤ, pos, negsuc, wrap64, ltb_ℤ}
use telegram_ads_market.Common.Text.{str_eq, ◌<>◌}
use telegram_ads_market.Observer.Blocks.{Block, Answer, ready, not_ready, failed}

-- `map[WalletAddress]struct{}`
abbrev pub Addresses : Type 0
Addresses = List String

unfoldable pub is_address_watched : String → Addresses → Bool
is_address_watched key addresses = exists (λ a. str_eq a key) addresses

unfoldable pub add_address : String → Addresses → Addresses
unfolding is_address_watched
add_address key addresses = if is_address_watched key addresses then addresses else key ∷ addresses

unfoldable pub remove_address : String → Addresses → Addresses
remove_address key addresses = select (λ a. not (str_eq a key)) addresses

-- The keys of Redis that are raw addresses; the others are skipped.
unfoldable pub load_addresses : (String → Option String) → List String → Addresses → Addresses
unfolding add_address
load_addresses parse_raw_addr [] addresses = addresses
load_addresses parse_raw_addr (k ∷ ks) addresses =
    load_addresses parse_raw_addr ks
      (elim (parse_raw_addr k) [ none ↦ addresses | some key ↦ add_address key addresses ])

unfoldable pub raw_addr_from_account : String → String
raw_addr_from_account account = "0:" <> account

-- The incoming message of a transaction; the amount of an internal one in nanotons.
pub data InMessage : Type 0 where
  no_message external : InMessage
  internal : ℕ → InMessage

pub record Transaction : Type 0 where
  pub in_message : InMessage
  pub now : ℕ
  pub hash : String

pub record DepositNote : Type 0 where
  pub raw_address : String
  pub amount : ℤ
  pub timestamp : ℤ
  pub tx_hash : String

-- -1 if there is no incoming transfer; else the low 64 bits of the amount, as `Int64` gives them.
unfoldable pub extract_incoming_amount_and_time : Transaction → ℤ × ℤ × String
extract_incoming_amount_and_time tx = of_message tx.in_message
  where
    of_message : InMessage → ℤ × ℤ × String
    of_message no_message = (negsuc 0, pos 0, "")
    of_message external = (negsuc 0, pos 0, "")
    of_message (internal amount) = (wrap64 (pos amount), pos tx.now, tx.hash)

abbrev pub deposit_events_size : ℕ
deposit_events_size = 256

-- The `select` with a default: a full channel drops the event.
unfoldable pub offer : DepositNote → List DepositNote → List DepositNote
offer note queue = if ltb (length queue) deposit_events_size then queue ++ note ∷ [] else queue

abbrev note_of : String → ℤ × ℤ × String → DepositNote
note_of account (amount, timestamp, tx_hash) = record {
  raw_address = raw_addr_from_account account;
  amount = amount;
  timestamp = timestamp;
  tx_hash = tx_hash;
}

-- A transaction of a watched account: a negative amount is passed over.
unfoldable pub queue_deposit : String → Transaction → List DepositNote → List DepositNote
unfolding extract_incoming_amount_and_time offer raw_addr_from_account
queue_deposit account tx queue =
    let found = extract_incoming_amount_and_time tx in
    if ltb_ℤ found.0 (pos 0) then queue else offer (note_of account found) queue

-- `ton.TransactionShortInfo`
pub record TransactionId : Type 0 where
  pub account : String
  pub lt : ℕ

module _ {N : Type 0} (get_transaction : Block → String → ℕ → N → Answer Transaction × N)
    (addresses : Addresses) where
  abbrev pub queue_answer : String → Answer Transaction → List DepositNote → List DepositNote
  queue_answer account (ready tx) queue = queue_deposit account tx queue
  queue_answer account not_ready queue = queue
  queue_answer account failed queue = queue

  -- The transactions of a block, in order.
  unfoldable pub queue_deposits :
      Block → List TransactionId → List DepositNote → N → List DepositNote × N
  queue_deposits block [] queue n = (queue, n)
  queue_deposits block (t ∷ ts) queue n = elim (is_address_watched t.account addresses) [
    | false ↦ queue_deposits block ts queue n
    | true ↦
        let (answer, n') = get_transaction block t.account t.lt n in
        queue_deposits block ts (queue_answer t.account answer queue) n'
  ]

  abbrev pub queue_block :
      Block → Answer (List TransactionId) → List DepositNote → N → List DepositNote × N
  queue_block block (ready ts) queue n = queue_deposits block ts queue n
  queue_block block not_ready queue n = (queue, n)
  queue_block block failed queue n = (queue, n)

  module _ (get_transaction_ids : Block → N → Answer (List TransactionId) × N) where
    -- One block of shardHandleWorker.
    unfoldable pub handle_block : Block → List DepositNote → N → List DepositNote × N
    handle_block block queue n =
        let (answer, n') = get_transaction_ids block n in queue_block block answer queue n'
