-- ===== src/Observer/Masters.antt =====
-- What handleNewMaster sends on to the workers.
use telegram_ads_market.Common.{
  suc, ◌≡◌, ◌⊎◌, inl, inr, refl, sym, ap, subst, ◌∙◌, true, false, Option, none, some, List, [],
  ◌∷◌, ◌++◌, All, All-append, All-map, Bool-cases, arith,
}
use telegram_ads_market.Observer.Blocks.{
  Block, Answer, Shards, Stack, is_known, Walk, walked, out_of_fuel, handle_shard_block, emit_stack,
  after_walk, walk_shards,
}
use telegram_ads_market.Observer.Walk.{
  Any, Any-append, IsParent, ParentsOlder, Linked, New, Grows, handle-New-Grows, handle_known,
  append_assoc,
}

pub append-nil : (xs : List Block) → xs ++ [] ≡ xs
append-nil [] = refl
append-nil (x ∷ xs) = ap (λ r. x ∷ r) (append-nil xs)

pub Any-map :
    {P Q : Block → Type 0} → ((x : Block) → P x → Q x) → (xs : List Block) → Any P xs → Any Q xs
Any-map f [] h = elim h [ ]
Any-map f (x ∷ xs) (inl h) = inl (f x h)
Any-map f (x ∷ xs) (inr h) = inr (Any-map f xs h)

emit_stack-append : (stack emitted : List Block) → emit_stack stack emitted ≡ emitted ++ stack
unfolding emit_stack
emit_stack-append [] emitted = sym (append-nil emitted)
emit_stack-append (b ∷ stack) emitted =
    emit_stack-append stack (emitted ++ b ∷ []) ∙ append_assoc emitted (b ∷ []) stack

-- The recorded numbers are those of announced blocks.
abbrev pub Recorded : List Block → Shards → Type 0
Recorded announced [] = Unit
Recorded announced ((s, n) ∷ rest) =
    Any (λ a. (a.shard ≡ s) × (a.seqno ≡ n)) announced × Recorded announced rest

module _ {N Info : Type 0} (get_block_data : Block → N → Answer Info × N)
    (get_parent_blocks : Info → Option (List Block)) where
  abbrev ParentOf : Block → Block → Type 0
  ParentOf p c = IsParent get_block_data get_parent_blocks p c

  -- In the order of sending, each block is an announced one, or a child of it follows.
  abbrev pub ParentsFirst : List Block → List Block → Type 0
  ParentsFirst announced [] = Unit
  ParentsFirst announced (b ∷ bs) =
      (Any (λ a. a ≡ b) announced ⊎ Any (ParentOf b) bs) × ParentsFirst announced bs

  Any-left : (P : Block → Type 0) (xs ys : List Block) → Any P xs → Any P (xs ++ ys)
  Any-left P [] ys h = elim h [ ]
  Any-left P (x ∷ xs) ys (inl h) = inl h
  Any-left P (x ∷ xs) ys (inr h) = inr (Any-left P xs ys h)

  ParentsFirst-append :
      (announced xs ys : List Block)
      → ParentsFirst announced xs
      → ParentsFirst announced ys
      → ParentsFirst announced (xs ++ ys)
  ParentsFirst-append announced [] ys p q = q
  ParentsFirst-append announced (x ∷ xs) ys p q =
      (first p.0, ParentsFirst-append announced xs ys p.1 q)
    where
      first :
          Any (λ a. a ≡ x) announced ⊎ Any (ParentOf x) xs
          → Any (λ a. a ≡ x) announced ⊎ Any (ParentOf x) (xs ++ ys)
      first (inl h) = inl h
      first (inr h) = inr (Any-left (ParentOf x) xs ys h)

  -- A stack over one announced block.
  ParentsFirst-Linked :
      (announced added : List Block) (b : Block)
      → Any (λ a. a ≡ b) announced
      → Linked get_block_data get_parent_blocks (added ++ b ∷ [])
      → ParentsFirst announced (added ++ b ∷ [])
  ParentsFirst-Linked announced [] b h l = (inl h, tt)
  ParentsFirst-Linked announced (x ∷ []) b h l = (inr l.0, ParentsFirst-Linked announced [] b h l.1)
  ParentsFirst-Linked announced (x ∷ y ∷ ys) b h l =
      (inr l.0, ParentsFirst-Linked announced (y ∷ ys) b h l.1)

  -- What becomes of a shard of a master: it is no newer than what was recorded, or it is sent, or its
  -- walk ends with an error.
  pub data Settled (old : Shards) (sent : List Block) (b : Block) : Type 0 where
    not_newer : is_known old b ≡ true → Settled old sent b
    is_sent : Any (λ x. x ≡ b) sent → Settled old sent b
    walk_fails :
        (stack : Stack) (n m : N)
        → handle_shard_block get_block_data get_parent_blocks old (suc b.seqno) b [] n
          ≡ walked false stack m
        → Settled old sent b

  Settled-left :
      (old : Shards) (xs ys : List Block) (b : Block) → Settled old xs b → Settled old (xs ++ ys) b
  Settled-left old xs ys b (not_newer e) = not_newer e
  Settled-left old xs ys b (is_sent h) = is_sent (Any-left (λ x. x ≡ b) xs ys h)
  Settled-left old xs ys b (walk_fails stack n m e) = walk_fails stack n m e

  Settled-right :
      (old : Shards) (xs ys : List Block) (b : Block) → Settled old ys b → Settled old (xs ++ ys) b
  Settled-right old xs ys b (not_newer e) = not_newer e
  Settled-right old xs ys b (is_sent h) = is_sent (Any-append (λ x. x ≡ b) xs ys h)
  Settled-right old xs ys b (walk_fails stack n m e) = walk_fails stack n m e

  -- A pass over the shards of a master: what it has sent, and what it has recorded.
  pub data Passed (old : Shards) (announced emitted bs : List Block)
      : Option (Shards × List Block × N) → Type 0 where
    passed :
        (new : Shards) (sent : List Block) (n : N) (all : List Block)
        → all ≡ emitted ++ sent
        → All (New old) sent
        → ParentsFirst announced sent
        → Recorded announced new
        → All (Settled old sent) bs
        → Passed old announced emitted bs (some (new, all, n))

  Passed-later :
      (old : Shards) (announced e e' : List Block) (r : Option (Shards × List Block × N))
      (sent bs : List Block) (b : Block)
      → e' ≡ e ++ sent
      → All (New old) sent
      → ParentsFirst announced sent
      → Settled old sent b
      → Passed old announced e' bs r
      → Passed old announced e (b ∷ bs) r
  Passed-later old announced e e' r sent bs b same new first settled
        (passed shards sent' n all same' new' first' rec rest) =
      passed shards (sent ++ sent') n all
        (same' ∙ ap (λ x. x ++ sent') same ∙ append_assoc e sent sent')
        (All-append _ sent sent' new new') (ParentsFirst-append announced sent sent' first first')
        rec
        (
          Settled-left old sent sent' b settled,
          All-map _ _ (λ x h. Settled-right old sent sent' x h) bs rest,
        )

  module _ (older : ParentsOlder get_block_data get_parent_blocks) (old : Shards) where
    walk_one :
        (announced : List Block) (b : Block) (new : Shards) (emitted : List Block) (n : N)
        → Any (λ a. a ≡ b) announced
        → Recorded announced new
        → Passed old announced emitted (b ∷ []) (
            after_walk get_block_data get_parent_blocks b
              (handle_shard_block get_block_data get_parent_blocks old (suc b.seqno) b [] n)
              new
              emitted)
    walk_one announced b new emitted n one rec = elim (Bool-cases (is_known old b)) [
      | inl e ↦
          rw (known e)
            (passed _ [] n _ (emit_stack-append [] emitted) tt tt (marked, rec) (not_newer e, tt))
      | inr e ↦
          after _ refl
            (handle-New-Grows get_block_data get_parent_blocks old b.seqno b n older (omega arith)
              e)
            e
    ]
      where
        marked : Any (λ a. (a.shard ≡ b.shard) × (a.seqno ≡ b.seqno)) announced
        marked =
            Any-map (λ a e. (ap (λ (x : Block). x.shard) e, ap (λ (x : Block). x.seqno) e))
              announced one

        known :
            is_known old b ≡ true
            → handle_shard_block get_block_data get_parent_blocks old (suc b.seqno) b [] n
              ≡ walked true [] n
        known e = handle_known get_block_data get_parent_blocks old b.seqno b [] n e

        first :
            (stack added : Stack)
            → stack ≡ added ++ b ∷ []
            → Linked get_block_data get_parent_blocks stack
            → ParentsFirst announced stack
        first stack added same l = subst (ParentsFirst announced) (sym same) (
            ParentsFirst-Linked announced added b one
              (subst (Linked get_block_data get_parent_blocks) same l))

        after :
            (r : Walk N)
            → handle_shard_block get_block_data get_parent_blocks old (suc b.seqno) b [] n ≡ r
            → Grows get_block_data get_parent_blocks old (b ∷ []) r
            → New old b
            → Passed old announced emitted
                (b ∷ [])
                (after_walk get_block_data get_parent_blocks b r new emitted)
        after (walked false stack m) f g e =
            passed new [] m emitted (sym (append-nil emitted)) tt tt rec
              (walk_fails stack n m f, tt)
        after (walked true stack m) f g e =
            passed _ stack m _ (emit_stack-append stack emitted) (g.new (e, tt))
              (first stack g.added g.same (g.linked (tt, tt))) (marked, rec)
              (
                is_sent (
                    subst (Any (λ x. x ≡ b)) (sym g.same)
                      (Any-append (λ x. x ≡ b) g.added (b ∷ []) (inl refl))),
                tt,
              )
        after out_of_fuel f g e = absurd g

    pub walk_shards-Passed :
        (announced bs : List Block) (new : Shards) (emitted : List Block) (n : N)
        → All (λ b. Any (λ a. a ≡ b) announced) bs
        → Recorded announced new
        → Passed old announced emitted bs
            (walk_shards get_block_data get_parent_blocks old bs new emitted n)
    unfolding walk_shards
    walk_shards-Passed announced [] new emitted n among rec =
        passed new [] n emitted (sym (append-nil emitted)) tt tt rec tt
    walk_shards-Passed announced (b ∷ bs) new emitted n among rec =
        go (λ new' all m r. walk_shards-Passed announced bs new' all m among.1 r) _
          (walk_one announced b new emitted n among.0 rec)
      where
        go :
            ((new' : Shards) (all : List Block) (m : N)
              → Recorded announced new'
              → Passed old announced all bs
                  (walk_shards get_block_data get_parent_blocks old bs new' all m))
            → (r : Option (Shards × List Block × N)) → Passed old announced emitted (b ∷ []) r
            → Passed old announced emitted (b ∷ bs) (elim r [
              | none ↦ none
              | some (new', emitted', n') ↦
                  walk_shards get_block_data get_parent_blocks old bs new' emitted' n'
            ])
        go rest _ (passed new' sent m all same fresh first r settled) =
            Passed-later old announced emitted all _ sent bs b same fresh first settled.0
              (rest new' all m r)
