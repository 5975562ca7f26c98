-- ===== src/Observer/Blocks.antt =====
-- The walk over new blocks: handleNewMaster and handleShardBlock of
-- internal/blockchain_observer/workers.go, the stack of utils.go, and the polls of
-- startMasterObserver. The lite client and the TON library are parameters: what they answer may
-- change with the state of the network, and they may fail.
use telegram_ads_market.Common.{
  ℕ, zero, suc, String, Bool, true, false, Option, none, some, List, [], ◌∷◌, ◌++◌, ltb, leb,
  if◌then◌else◌,
}
use telegram_ads_market.Common.Int.{ℤ, ◌==ℤ◌}

-- `ton.BlockIDExt` of the basechain: the observer reads the shard and the number, the rest names
-- the block to the client.
pub record Block : Type 0 where
  pub shard : ℤ
  pub seqno : ℕ
  pub root_hash : String

-- What a call of the client gives: an answer, "not ready" (liteclient.IsNotReadyError), or another
-- error.
pub data Answer (A : Type 0) : Type 0 where
  ready : A → Answer A
  not_ready failed : Answer A

-- `virtualWorkchain.Shards`: the number of the last block of each shard.
abbrev pub Shards : Type 0
Shards = List (ℤ × ℕ)

unfoldable pub last_seqno : Shards → ℤ → Option ℕ
last_seqno [] shard = none
last_seqno ((s, n) ∷ rest) shard = if s ==ℤ shard then some n else last_seqno rest shard

-- `Shards[shard] = seqno`; a later write of a key hides an earlier one.
abbrev pub set_seqno : Block → Shards → Shards
set_seqno b shards = (b.shard, b.seqno) ∷ shards

abbrev pub at_or_below : Option ℕ → ℕ → Bool
at_or_below none seqno = false
at_or_below (some old) seqno = leb seqno old

-- `ok && oldSeq >= shard.SeqNo`
unfoldable pub is_known : Shards → Block → Bool
is_known shards b = at_or_below (last_seqno shards b.shard) b.seqno

-- `shardStack`, with the top as the first element.
abbrev pub Stack : Type 0
Stack = List Block

abbrev pub push : Block → Stack → Stack
push b stack = b ∷ stack

abbrev pub pop : Stack → Option (Block × Stack)
pop [] = none
pop (b ∷ stack) = some (b, stack)

-- A walk ends without or with an error, or its fuel is too small.
pub data Walk (N : Type 0) : Type 0 where
  walked : Bool → Stack → N → Walk N
  out_of_fuel : Walk N

-- One round of the loop of handleShardBlock: the parents, or another attempt.
pub data Round : Type 0 where
  parents : List Block → Round
  again : Round
  skips_one : Round

abbrev pub round_from : Option (List Block) → Round
round_from none = skips_one
round_from (some ps) = parents ps

module _ {N : Type 0} where
  -- `_ = o.handleShardBlock(...)`
  abbrev pub then_walk : Walk N → (Stack → N → Walk N) → Walk N
  then_walk (walked done stack n) k = k stack n
  then_walk out_of_fuel k = out_of_fuel

  unfoldable pub visit_parents : (Block → Stack → N → Walk N) → List Block → Stack → N → Walk N
  visit_parents visit [] stack n = walked true stack n
  visit_parents visit (p ∷ ps) stack n = then_walk (visit p stack n) (visit_parents visit ps)

-- What the observer holds, and what it has sent to the workers, in order.
pub record Observed (N : Type 0) : Type 0 where
  pub shards : Shards
  pub emitted : List Block
  pub net : N

-- `for top := stack.Pop(); top != nil; top = stack.Pop()`
unfoldable pub emit_stack : Stack → List Block → List Block
emit_stack [] emitted = emitted
emit_stack (b ∷ stack) emitted = emit_stack stack (emitted ++ b ∷ [])

-- The first master: every shard is sent as it is.
unfoldable pub first_master : {N : Type 0} → List Block → Observed N → Observed N
first_master [] o = o
first_master (b ∷ bs) o =
    first_master bs (record o { shards = set_seqno b o.shards; emitted = o.emitted ++ b ∷ [] })

abbrev pub serialize_parent_blocks_attempts_limit : ℕ
serialize_parent_blocks_attempts_limit = 3

abbrev pub handle_master_shards_attempts_limit : ℕ
handle_master_shards_attempts_limit = 3

module _ {N Info : Type 0} (get_block_data : Block → N → Answer Info × N)
    (get_parent_blocks : Info → Option (List Block)) where
  abbrev pub round_of : Answer Info → Round
  round_of (ready info) = round_from (get_parent_blocks info)
  round_of not_ready = again
  round_of failed = skips_one

  -- The loop over the attempts, of which so many are left: an error other than "not ready" counts
  -- twice.
  unfoldable pub serialize_parents : (Block → Stack → N → Walk N) → ℕ → Block → Stack → N → Walk N
  serialize_parents visit zero b stack n = walked false stack n
  serialize_parents visit (suc zero) b stack n =
      let (answer, n') = get_block_data b n in
      elim (round_of answer) [
        | parents ps ↦ visit_parents visit ps stack n'
        | again ↦ walked false stack n'
        | skips_one ↦ walked false stack n'
      ]
  serialize_parents visit (suc (suc left)) b stack n =
      let (answer, n') = get_block_data b n in
      elim (round_of answer) [
        | parents ps ↦ visit_parents visit ps stack n'
        | again ↦ serialize_parents visit (suc left) b stack n'
        | skips_one ↦ serialize_parents visit left b stack n'
      ]

  unfoldable pub handle_shard_block : Shards → ℕ → Block → Stack → N → Walk N
  handle_shard_block shards zero b stack n = out_of_fuel
  handle_shard_block shards (suc fuel) b stack n =
      if is_known shards b
      then walked true stack n
      else serialize_parents (handle_shard_block shards fuel) serialize_parent_blocks_attempts_limit
          b (push b stack) n

  -- What a walk adds to the new shards and to the blocks sent; `none` if its fuel was too small.
  abbrev pub after_walk : Block → Walk N → Shards → List Block → Option (Shards × List Block × N)
  after_walk b (walked true stack n) new emitted =
      some (set_seqno b new, emit_stack stack emitted, n)
  after_walk b (walked false stack n) new emitted = some (new, emitted, n)
  after_walk b out_of_fuel new emitted = none

  -- The loop over the shards of a later master. A walk visits at most as many levels of parents as
  -- the number of its block.
  unfoldable pub walk_shards :
      Shards → List Block → Shards → List Block → N → Option (Shards × List Block × N)
  walk_shards old [] new emitted n = some (new, emitted, n)
  walk_shards old (b ∷ bs) new emitted n =
      elim (after_walk b (handle_shard_block old (suc b.seqno) b [] n) new emitted) [
        | none ↦ none
        | some (new', emitted', n') ↦ walk_shards old bs new' emitted' n'
      ]

  abbrev pub later_master : List Block → Observed N → Option (Observed N)
  later_master bs o = elim (walk_shards o.shards bs [] o.emitted o.net) [
    | none ↦ none
    | some (new, emitted, n) ↦ some (record { shards = new; emitted = emitted; net = n })
  ]

  abbrev pub with_shards : List Block → Observed N → Option (Observed N)
  with_shards bs o = elim o.shards [ [] ↦ some (first_master bs o) | s ∷ ss ↦ later_master bs o ]

  module _ (get_block_shards_info : Block → N → Answer (List Block) × N) where
    -- The attempts of handleNewMaster, of which so many are left.
    unfoldable pub try_master : ℕ → Block → Observed N → Option (Observed N)
    try_master zero master o = some o
    try_master (suc zero) master o =
        let (answer, n) = get_block_shards_info master o.net in
        elim answer [
          | ready bs ↦ with_shards bs (record o { net = n })
          | not_ready ↦ some (record o { net = n })
          | failed ↦ some (record o { net = n })
        ]
    try_master (suc (suc left)) master o =
        let (answer, n) = get_block_shards_info master o.net in
        elim answer [
          | ready bs ↦ with_shards bs (record o { net = n })
          | not_ready ↦ try_master (suc left) master (record o { net = n })
          | failed ↦ try_master left master (record o { net = n })
        ]

    unfoldable pub handle_new_master : Block → Observed N → Option (Observed N)
    handle_new_master master o = try_master handle_master_shards_attempts_limit master o

-- The polls of startMasterObserver: a master with a larger number than the last is sent on, and a
-- poll without an answer is passed over.
unfoldable pub observe_masters : ℕ → List (Answer Block) → List Block
observe_masters last [] = []
observe_masters last (ready b ∷ polls) =
    let from_here = b ∷ observe_masters b.seqno polls in
    let from_last = observe_masters last polls in if ltb last b.seqno then from_here else from_last
observe_masters last (not_ready ∷ polls) = observe_masters last polls
observe_masters last (failed ∷ polls) = observe_masters last polls
