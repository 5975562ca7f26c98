-- ===== src/Observer/Sending.antt =====
-- A new master at the observer: which blocks are sent to the workers, and in which order.
use telegram_ads_market.Common.{
  ℕ, zero, suc, ◌≡◌, refl, sym, ap, subst, ◌∙◌, Option, none, some, List, [], ◌∷◌, ◌++◌, All,
}
use telegram_ads_market.Common.Int.{ℤ}
use telegram_ads_market.Observer.Blocks.{
  Block, Answer, ready, not_ready, failed, Shards, set_seqno, Observed, first_master, later_master,
  with_shards, try_master, handle_new_master, handle_master_shards_attempts_limit,
}
use telegram_ads_market.Observer.Walk.{Any, ParentsOlder, New, members, append_assoc}
use telegram_ads_market.Observer.Masters.{
  Settled, ParentsFirst, Recorded, Passed, passed, walk_shards-Passed, append-nil, Any-map,
}

-- The first master: every block is sent, and its number recorded.
record Starts (announced bs : List Block) {N : Type 0} (o r : Observed N) : Type 0 where
  sent : r.emitted ≡ o.emitted ++ bs
  recorded : Recorded announced r.shards
  same_net : r.net ≡ o.net

first_master-Starts :
    {N : Type 0} (announced bs : List Block) (o : Observed N)
    → All (λ b. Any (λ a. a ≡ b) announced) bs
    → Recorded announced o.shards
    → Starts announced bs o (first_master bs o)
unfolding first_master
first_master-Starts announced [] o among rec = record {
  sent = sym (append-nil o.emitted);
  recorded = rec;
  same_net = refl;
}
first_master-Starts announced (b ∷ bs) o among rec =
    let rest =
      first_master-Starts announced bs
        (record o { shards = set_seqno b o.shards; emitted = o.emitted ++ b ∷ [] }) among.1
        (
          Any-map (λ a e. (ap (λ (x : Block). x.shard) e, ap (λ (x : Block). x.seqno) e)) announced
              among.0,
          rec,
        ) in
    record {
      sent = rest.sent ∙ append_assoc o.emitted (b ∷ []) bs;
      recorded = rest.recorded;
      same_net = rest.same_net;
    }

module _ {N Info : Type 0} (get_block_data : Block → N → Answer Info × N)
    (get_parent_blocks : Info → Option (List Block))
    (get_block_shards_info : Block → N → Answer (List Block) × N) where
  -- The client reports `bs` as the shard blocks of a master.
  pub record Announces (master : Block) (bs : List Block) : Type 0 where
    pub at : N
    pub after : N
    pub answers : get_block_shards_info master at ≡ (ready bs, after)

  -- No attempt of those left is answered: an answer that is not ready costs one of them, an error two.
  pub data NoAnswer (master : Block) : ℕ → N → N → Type 0 where
    used_up : (n : N) → NoAnswer master 0 n n
    waited :
        (left : ℕ) (n m k : N)
        → get_block_shards_info master n ≡ (not_ready, m)
        → NoAnswer master left m k
        → NoAnswer master (suc left) n k
    failed_last : (n m : N) → get_block_shards_info master n ≡ (failed, m) → NoAnswer master 1 n m
    failed_twice :
        (left : ℕ) (n m k : N)
        → get_block_shards_info master n ≡ (failed, m)
        → NoAnswer master left m k
        → NoAnswer master (suc (suc left)) n k

  -- What a master does to the observer: nothing, where no attempt is answered; at the first master
  -- every shard is sent; later, new blocks only, parents before their children, and each shard of the
  -- master that is new and whose walk does not fail.
  pub data Sent (left : ℕ) (from : N) (o : Observed N) (master : Block)
      : Option (Observed N) → Type 0 where
    no_answer :
        (n : N)
        → NoAnswer master left from n
        → Sent left from o master (some (record o { net = n }))
    starts :
        (bs : List Block) (n : N) (shards : Shards)
        → Announces master bs
        → o.shards ≡ []
        → Recorded bs shards
        → Sent left from o master
            (some (record { shards = shards; emitted = o.emitted ++ bs; net = n }))
    goes_on :
        (bs sent : List Block) (n : N) (shards : Shards) (last : ℤ × ℕ) (lasts : Shards)
        → Announces master bs
        → o.shards ≡ last ∷ lasts
        → All (New o.shards) sent
        → ParentsFirst get_block_data get_parent_blocks bs sent
        → All (Settled get_block_data get_parent_blocks o.shards sent) bs
        → Recorded bs shards
        → Sent left from o master
            (some (record { shards = shards; emitted = o.emitted ++ sent; net = n }))

  with_shards-Sent :
      (left : ℕ) (from : N) (master : Block) (bs : List Block) (o : Observed N)
      → ParentsOlder get_block_data get_parent_blocks
      → Announces master bs
      → Sent left from o master (with_shards get_block_data get_parent_blocks bs o)
  with_shards-Sent left from master bs o older announces = go o.shards refl
    where
      first : {r : Observed N} → o.shards ≡ [] → Starts bs bs o r → Sent left from o master (some r)
      first {r} e s =
          subst (λ all. Sent left from o master (some (record r { emitted = all }))) (sym s.sent)
            (starts bs r.net r.shards announces e s.recorded)

      later :
          (last : ℤ × ℕ) (lasts : Shards)
          → o.shards ≡ last ∷ lasts
          → (r : Option (Shards × List Block × N))
          → Passed get_block_data get_parent_blocks o.shards bs o.emitted bs r
          → Sent left from o master (elim r [
            | none ↦ none
            | some (new, emitted, n) ↦ some (record { shards = new; emitted = emitted; net = n })
          ])
      later last lasts e _ (passed new sent n all same fresh parents rec settled) =
          subst
            (λ all.
              Sent left from o master (some (record { shards = new; emitted = all; net = n })))
            (sym same) (goes_on bs sent n new last lasts announces e fresh parents settled rec)

      go :
          (shards : Shards)
          → o.shards ≡ shards
          → Sent left from o master (elim shards [
            | [] ↦ some (first_master bs o)
            | s ∷ ss ↦ later_master get_block_data get_parent_blocks bs o
          ])
      go [] e = first e (first_master-Starts bs bs o (members bs) (subst (Recorded bs) (sym e) tt))
      go (s ∷ ss) e = later s ss e _ (
          walk_shards-Passed get_block_data get_parent_blocks older o.shards bs bs [] o.emitted
            o.net (members bs) tt)

  module _ (older : ParentsOlder get_block_data get_parent_blocks) where
    -- What holds with fewer attempts left and another state of the client.
    widen :
        (left left' : ℕ) (from m m' : N) (master : Block) (o : Observed N)
        → ((n : N) → NoAnswer master left' m' n → NoAnswer master left from n)
        → (r : Option (Observed N)) → Sent left' m' (record o { net = m }) master r
        → Sent left from o master r
    widen left left' from m m' master o f _ (no_answer n h) = no_answer n (f n h)
    widen left left' from m m' master o f _ (starts bs n shards announces e rec) =
        starts bs n shards announces e rec
    widen left left' from m m' master o f _
          (goes_on bs sent n shards last lasts announces e fresh first settled rec) =
        goes_on bs sent n shards last lasts announces e fresh first settled rec

    attempt_once :
        (left : ℕ) (master : Block) (o : Observed N) (n : N)
        (later skipped : N → Option (Observed N))
        → ((m : N)
            → get_block_shards_info master n ≡ (not_ready, m)
            → Sent left n o master (later m))
        → ((m : N)
            → get_block_shards_info master n ≡ (failed, m)
            → Sent left n o master (skipped m))
        → (answer : Answer (List Block)) (m : N) → get_block_shards_info master n ≡ (answer, m)
        → Sent left n o master (elim answer [
          | ready bs ↦ with_shards get_block_data get_parent_blocks bs (record o { net = m })
          | not_ready ↦ later m
          | failed ↦ skipped m
        ])
    attempt_once left master o n later skipped l k (ready bs) m e =
        widen left left n m n master o (λ _ h. h) _
          (with_shards-Sent left n master bs (record o { net = m }) older
            (record { at = n; after = m; answers = e }))
    attempt_once left master o n later skipped l k not_ready m e = l m e
    attempt_once left master o n later skipped l k failed m e = k m e

    try_master-Sent :
        (left : ℕ) (master : Block) (o : Observed N) (n : N)
        → Sent left n o master (
            try_master get_block_data get_parent_blocks get_block_shards_info left master
              (record o { net = n }))
    unfolding try_master
    try_master-Sent zero master o n = no_answer n (used_up n)
    try_master-Sent (suc zero) master o n =
        attempt_once 1 master o n (λ m. some (record o { net = m }))
          (λ m. some (record o { net = m })) (λ m e. no_answer m (waited 0 n m m e (used_up m)))
          (λ m e. no_answer m (failed_last n m e)) _ (get_block_shards_info master n).1 refl
    try_master-Sent (suc (suc left)) master o n =
        attempt_once (suc (suc left)) master o n _ _
          (λ m e.
            widen (suc (suc left)) (suc left) n m m master o (λ k h. waited (suc left) n m k e h) _
              (try_master-Sent (suc left) master (record o { net = m }) m))
          (λ m e.
            widen (suc (suc left)) left n m m master o (λ k h. failed_twice left n m k e h) _
              (try_master-Sent left master (record o { net = m }) m))
          _ (get_block_shards_info master n).1 refl

    -- Where a parent's number is smaller than its child's, handleNewMaster returns, and one of three
    -- holds. No attempt was answered, and nothing is sent. Or nothing was recorded before, and all
    -- shards that the client reports for the master are sent. Or something was recorded: then only
    -- blocks are sent that are newer than what was recorded of their shards, each of them a reported
    -- shard of the master or followed by one of its children; and each reported shard is not newer
    -- than what was recorded, or is sent, or its walk ends with an error. The numbers that are
    -- recorded after a report are those of reported shards.
    pub master_sends_new_blocks :
        (master : Block) (o : Observed N)
        → Sent handle_master_shards_attempts_limit o.net o master
            (handle_new_master get_block_data get_parent_blocks get_block_shards_info master o)
    unfolding handle_new_master
    master_sends_new_blocks master o = try_master-Sent _ master o o.net
