-- ===== src/Observer/Forgotten.antt =====
-- A shard without a recorded number: the walk goes back over the whole chain of its blocks. And the
-- masters that are sent on come in ascending order.
use telegram_ads_market.Common.{
  ℕ, zero, suc, ◌<◌, ◌≡◌, Option, none, some, List, [], ◌∷◌, ltb, Bool-cases, inl, inr, arith,
}
use telegram_ads_market.Observer.Blocks.{
  Block, Answer, ready, not_ready, failed, Stack, observe_masters,
}

-- The numbers ascend, and all are larger than the first.
abbrev pub Ascends : ℕ → List Block → Type 0
Ascends last [] = Unit
Ascends last (b ∷ bs) = (last < b.seqno) × Ascends b.seqno bs

-- Whatever the polls answer, the masters that are sent on have ascending numbers, all of them larger
-- than the one that the observer started with.
pub observe_masters-Ascends :
    (last : ℕ) (polls : List (Answer Block)) → Ascends last (observe_masters last polls)
unfolding observe_masters
observe_masters-Ascends last [] = tt
observe_masters-Ascends last (ready b ∷ polls) = elim (Bool-cases (ltb last b.seqno)) [
  | inl e ↦ rw e (ground (arith, e), observe_masters-Ascends b.seqno polls)
  | inr e ↦ rw e (observe_masters-Ascends last polls)
]
observe_masters-Ascends last (not_ready ∷ polls) = observe_masters-Ascends last polls
observe_masters-Ascends last (failed ∷ polls) = observe_masters-Ascends last polls

module _ {N Info : Type 0} (get_block_data : Block → N → Answer Info × N)
    (get_parent_blocks : Info → Option (List Block)) where
  -- The blocks of one shard from its first on, as the client reports them.
  pub record IsChain (chain : ℕ → Block) : Type 0 where
    pub info : ℕ → Info
    pub answers : (k : ℕ) (n : N) → get_block_data (chain k) n ≡ (ready (info k), n)
    pub first : get_parent_blocks (info 0) ≡ none
    pub later : (k : ℕ) → get_parent_blocks (info (suc k)) ≡ some (chain k ∷ [])

  -- The chain from a block back to the first one, on top of a stack.
  abbrev pub back_to_first : (ℕ → Block) → ℕ → Stack → Stack
  back_to_first chain zero stack = chain 0 ∷ stack
  back_to_first chain (suc k) stack = back_to_first chain k (chain (suc k) ∷ stack)
