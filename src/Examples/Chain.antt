-- ===== src/Examples/Chain.antt =====
-- The observer on a small chain, on a channel of deposits and on events of Redis.
use telegram_ads_market.Common.{
  ℕ, zero, suc, ◌<◌, ◌≡◌, refl, ap, subst, ◌∙◌, String, Option, none, some, List, [], ◌∷◌, All,
  arith,
}
use telegram_ads_market.Common.Int.{pos}
use telegram_ads_market.Observer.Blocks.{
  Block, Answer, ready, not_ready, failed, Observed, handle_shard_block, handle_new_master,
  handle_master_shards_attempts_limit, observe_masters,
}
use telegram_ads_market.Observer.Walk.{ParentsOlder, Grows, handle-Grows}
use telegram_ads_market.Observer.Sending.{Sent, master_sends_new_blocks}
use telegram_ads_market.Observer.Forgotten.{Ascends, observe_masters-Ascends}
use telegram_ads_market.Observer.Deposits.{
  Addresses, DepositNote, Transaction, TransactionId, internal, offer, deposit_events_size,
  handle_block,
}
use telegram_ads_market.Observer.Queue.{Filled, handle_block-Filled}
use telegram_ads_market.Observer.Notifier.{
  Channel, offers, rests, moves, putting_back, Same, full_channel_stops_notifier,
}

-- One shard, whose blocks are numbered from zero; the client counts its calls.
abbrev block : ℕ → Block
block k = record { shard = pos 1; seqno = k; root_hash = "" }

abbrev data_of : Block → ℕ → Answer Block × ℕ
data_of b n = (ready b, suc n)

abbrev parent_of : ℕ → Option (List Block)
parent_of zero = none
parent_of (suc k) = some (block k ∷ [])

abbrev parents_of : Block → Option (List Block)
parents_of b = parent_of b.seqno

abbrev shards_of : Block → ℕ → Answer (List Block) × ℕ
shards_of b n = (ready (block 3 ∷ []), n)

older_than : (k : ℕ) (ps : List Block) → parent_of k ≡ some ps → All (λ (p : Block). p.seqno < k) ps
older_than zero ps e = absurd (cc e)
older_than (suc k) ps e =
    let same : block k ∷ [] ≡ ps = cc e in
    subst (λ qs. All (λ (p : Block). p.seqno < suc k) qs) same (omega arith, tt)

parents_are_older : ParentsOlder data_of parents_of
parents_are_older b ps r =
    let same : b ≡ r.info = cc (r.answers) in older_than b.seqno ps (ap parents_of same ∙ r.listed)

handle-Grows_example :
    Grows data_of parents_of [] [] (handle_shard_block data_of parents_of [] 4 (block 3) [] 0)
handle-Grows_example =
    handle-Grows data_of parents_of [] 4 (block 3) [] 0 parents_are_older (omega arith) tt

-- The observer has seen block 1 of the shard; the master announces block 3.
abbrev seen : Observed ℕ
seen = record { shards = (pos 1, 1) ∷ []; emitted = []; net = 0 }

master_sends_new_blocks_example :
    Sent data_of parents_of shards_of handle_master_shards_attempts_limit 0 seen
      (block 9)
      (handle_new_master data_of parents_of shards_of (block 9) seen)
master_sends_new_blocks_example =
    master_sends_new_blocks data_of parents_of shards_of parents_are_older (block 9) seen

-- A client that answers without counting.
abbrev still : Block → ℕ → Answer Block × ℕ
still b n = (ready b, n)

abbrev polls : List (Answer Block)
polls = ready (block 4) ∷ not_ready ∷ ready (block 4) ∷ failed ∷ ready (block 6) ∷ []

observe_masters-Ascends_example : Ascends 3 (observe_masters 3 polls)
observe_masters-Ascends_example = observe_masters-Ascends 3 polls

-- Two transactions in a block, one of a watched account.
abbrev addresses : Addresses
addresses = "ab" ∷ []

abbrev transaction_of : Block → String → ℕ → ℕ → Answer Transaction × ℕ
transaction_of b account lt n =
    (ready (record { in_message = internal 1000; now = 5; hash = "h" }), n)

abbrev ids_of : Block → ℕ → Answer (List TransactionId) × ℕ
ids_of b n = (ready (record { account = "ab"; lt = 1 } ∷ record { account = "cd"; lt = 2 } ∷ []), n)

handle_block-Filled_example :
    Filled transaction_of addresses
      (block 3)
      []
      (handle_block transaction_of addresses ids_of (block 3) [] 0).0
handle_block-Filled_example = handle_block-Filled transaction_of addresses (block 3) ids_of [] 0

abbrev note : DepositNote
note = record { raw_address = "0:ab"; amount = pos 5; timestamp = pos 1; tx_hash = "h" }

abbrev copies : ℕ → List DepositNote
copies zero = []
copies (suc k) = note ∷ copies k

abbrev full : Channel
full = record { queue = copies deposit_events_size; phase = putting_back note; published = [] }

abbrev offered : Channel
offered = record full { queue = offer note full.queue }

full_channel_stops_notifier_example : Same full offered
full_channel_stops_notifier_example =
    full_channel_stops_notifier (moves rests (offers note full))
      (record { note = note; holds = refl; full = omega arith })
