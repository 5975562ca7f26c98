-- ===== src/Observer/Walk.antt =====
-- A walk ends, and what it leaves on the stack: new blocks only, each above the block whose parent
-- it is.
use telegram_ads_market.Common.{
  ℕ, zero, suc, ◌<◌, ◌≡◌, ◌⊎◌, inl, inr, refl, sym, ap, subst, ◌∙◌, true, false, Option, none, some,
  List, [], ◌∷◌, ◌++◌, All, All-map, Bool-cases, arith,
}
use telegram_ads_market.Observer.Blocks.{
  Block, Answer, ready, not_ready, failed, Shards, Stack, is_known, Walk, walked, out_of_fuel,
  parents, again, skips_one, round_from, then_walk, visit_parents, round_of, serialize_parents,
  handle_shard_block,
}

-- Some element of the list satisfies a predicate.
abbrev pub Any : (Block → Type 0) → List Block → Type 0
Any P [] = ⊥
Any P (x ∷ xs) = P x ⊎ Any P xs

pub Any-append : (P : Block → Type 0) (xs ys : List Block) → Any P ys → Any P (xs ++ ys)
Any-append P [] ys h = h
Any-append P (x ∷ xs) ys h = inr (Any-append P xs ys h)

pub members : (xs : List Block) → All (λ x. Any (λ q. q ≡ x) xs) xs
members [] = tt
members (x ∷ xs) = (inl refl, All-map _ _ (λ y h. inr h) xs (members xs))

pub append_assoc : (xs ys zs : List Block) → (xs ++ ys) ++ zs ≡ xs ++ (ys ++ zs)
append_assoc [] ys zs = refl
append_assoc (x ∷ xs) ys zs = ap (λ r. x ∷ r) (append_assoc xs ys zs)

-- The block is newer than what is recorded of its shard.
abbrev pub New : Shards → Block → Type 0
New shards b = is_known shards b ≡ false

module _ {N Info : Type 0} (get_block_data : Block → N → Answer Info × N)
    (get_parent_blocks : Info → Option (List Block)) where
  -- The client reports `ps` as the parents of `b`.
  pub record Reports (b : Block) (ps : List Block) : Type 0 where
    pub at : N
    pub after : N
    pub info : Info
    pub answers : get_block_data b at ≡ (ready info, after)
    pub listed : get_parent_blocks info ≡ some ps

  -- `p` is one of the parents that the client reports for `c`.
  pub record IsParent (p c : Block) : Type 0 where
    pub all : List Block
    pub reports : Reports c all
    pub one : Any (λ q. q ≡ p) all

  -- What the TON network guarantees: a parent's number is smaller.
  abbrev pub ParentsOlder : Type 0
  ParentsOlder = (b : Block) (ps : List Block) → Reports b ps → All (λ p. p.seqno < b.seqno) ps

  abbrev pub HasChild : Block → Stack → Type 0
  HasChild b [] = Unit
  HasChild b (c ∷ stack) = Any (λ d. IsParent b d) (c ∷ stack)

  -- Each block but the lowest lies above one of its children.
  abbrev pub Linked : Stack → Type 0
  Linked [] = Unit
  Linked (b ∷ stack) = HasChild b stack × Linked stack

  child_of : (b : Block) (stack : Stack) → Any (λ d. IsParent b d) stack → HasChild b stack
  child_of b [] h = tt
  child_of b (c ∷ stack) h = h

  module _ (shards : Shards) where
    -- What a walk adds to a stack.
    pub record Grown (before after : Stack) : Type 0 where
      pub added : Stack
      pub same : after ≡ added ++ before
      pub linked : Linked before → Linked after
      pub new : All (New shards) before → All (New shards) after

    abbrev pub Grows : Stack → Walk N → Type 0
    Grows before (walked done after n) = Grown before after
    Grows before out_of_fuel = ⊥

    Grown-refl : (stack : Stack) → Grown stack stack
    Grown-refl stack = record { added = []; same = refl; linked = λ l. l; new = λ n. n }

    Grown-trans : {a b c : Stack} → Grown a b → Grown b c → Grown a c
    Grown-trans {a} {b} {c} p q = record {
      added = q.added ++ p.added;
      same = q.same ∙ ap (λ r. q.added ++ r) p.same ∙ sym (append_assoc q.added p.added a);
      linked = λ l. q.linked (p.linked l);
      new = λ n. q.new (p.new n);
    }

    Grown-Any : (P : Block → Type 0) {a b : Stack} → Grown a b → Any P a → Any P b
    Grown-Any P {a} g h = subst (Any P) (sym g.same) (Any-append P g.added a h)

    Grows-from : {a b : Stack} → Grown a b → (r : Walk N) → Grows b r → Grows a r
    Grows-from g (walked done stack n) h = Grown-trans g h
    Grows-from g out_of_fuel h = h

    Grows-then :
        {a : Stack} (r : Walk N) (k : Stack → N → Walk N)
        → Grows a r
        → ((b : Stack) (n : N) → Grown a b → Grows b (k b n))
        → Grows a (then_walk r k)
    Grows-then (walked done b n) k g rest = Grows-from g (k b n) (rest b n g)
    Grows-then out_of_fuel k g rest = g

    -- The visits of the parents of a block on the stack.
    visit_parents-Grows :
        (visit : Block → Stack → N → Walk N) (c : Block) (ps : List Block) (stack : Stack) (n : N)
        → All (λ p. (s : Stack) (m : N) → Any (λ d. IsParent p d) s → Grows s (visit p s m)) ps
        → All (λ p. Any (λ d. IsParent p d) stack) ps
        → Grows stack (visit_parents visit ps stack n)
    unfolding visit_parents
    visit_parents-Grows visit c [] stack n each child = Grown-refl stack
    visit_parents-Grows visit c (p ∷ ps) stack n each child =
        Grows-then (visit p stack n) (visit_parents visit ps) (each.0 stack n child.0) (λ b m g.
          visit_parents-Grows visit c ps b m each.1
            (All-map _ _ (λ q h. Grown-Any (λ d. IsParent q d) g h) ps child.1))

    -- One round of the attempts, whatever the later ones do.
    round-Grows :
        (visit : Block → Stack → N → Walk N) (c : Block) (rest : Stack) (n : N)
        → ParentsOlder
        → ((p : Block)
            → p.seqno < c.seqno
            → (s : Stack) (m : N) → Any (λ d. IsParent p d) s
            → Grows s (visit p s m))
        → (later skipped : N → Walk N) → ((m : N) → Grows (c ∷ rest) (later m))
        → ((m : N) → Grows (c ∷ rest) (skipped m))
        → (answer : Answer Info) (m : N) → get_block_data c n ≡ (answer, m)
        → Grows (c ∷ rest) (elim (round_of get_block_data get_parent_blocks answer) [
          | parents ps ↦ visit_parents visit ps (c ∷ rest) m
          | again ↦ later m
          | skips_one ↦ skipped m
        ])
    round-Grows visit c rest n older each later skipped l k not_ready m e = l m
    round-Grows visit c rest n older each later skipped l k failed m e = k m
    round-Grows visit c rest n older each later skipped l k (ready info) m e =
        go (get_parent_blocks info) refl
      where
        go :
            (o : Option (List Block))
            → get_parent_blocks info ≡ o
            → Grows (c ∷ rest) (elim (round_from o) [
              | parents ps ↦ visit_parents visit ps (c ∷ rest) m
              | again ↦ later m
              | skips_one ↦ skipped m
            ])
        go none f = k m
        go (some ps) f =
            let reports : Reports c ps = record {
              at = n;
              after = m;
              info = info;
              answers = e;
              listed = f;
            } in
            visit_parents-Grows visit c ps (c ∷ rest) m
              (All-map _ _ (λ p h. each p h) ps (older c ps reports))
              (All-map _ _ (λ p h. inl (record { all = ps; reports = reports; one = h })) ps
                (members ps))

    serialize-Grows :
        (visit : Block → Stack → N → Walk N) (left : ℕ) (c : Block) (rest : Stack) (n : N)
        → ParentsOlder
        → ((p : Block)
            → p.seqno < c.seqno
            → (s : Stack) (m : N) → Any (λ d. IsParent p d) s
            → Grows s (visit p s m))
        → Grows
            (c ∷ rest)
            (serialize_parents get_block_data get_parent_blocks visit left c (c ∷ rest) n)
    unfolding serialize_parents
    serialize-Grows visit zero c rest n older each = Grown-refl (c ∷ rest)
    serialize-Grows visit (suc zero) c rest n older each =
        round-Grows visit c rest n older each (λ m. walked false (c ∷ rest) m)
          (λ m. walked false (c ∷ rest) m) (λ m. Grown-refl (c ∷ rest)) (λ m. Grown-refl (c ∷ rest))
          (get_block_data c n).0 (get_block_data c n).1 refl
    serialize-Grows visit (suc (suc left)) c rest n older each =
        round-Grows visit c rest n older each
          (serialize_parents get_block_data get_parent_blocks visit (suc left) c (c ∷ rest))
          (serialize_parents get_block_data get_parent_blocks visit left c (c ∷ rest))
          (λ m. serialize-Grows visit (suc left) c rest m older each)
          (λ m. serialize-Grows visit left c rest m older each) (get_block_data c n).0
          (get_block_data c n).1 refl

    pushed : (c : Block) (stack : Stack) → New shards c → HasChild c stack → Grown stack (c ∷ stack)
    pushed c stack new child = record {
      added = c ∷ [];
      same = refl;
      linked = λ l. (child, l);
      new = λ n. (new, n);
    }

    -- Where a parent's number is smaller than its child's in all the client's reports, the walk of a
    -- block that is a parent of the top of the stack, or meets an empty stack, ends with more fuel
    -- than the number of the block. The stack has then grown by new blocks only. If each block of it
    -- lay above one of its children, by the client's reports, so does each of the grown one, the
    -- lowest of a stack always excepted.
    pub handle-Grows :
        (fuel : ℕ) (c : Block) (stack : Stack) (n : N)
        → ParentsOlder
        → c.seqno < fuel
        → HasChild c stack
        → Grows stack (handle_shard_block get_block_data get_parent_blocks shards fuel c stack n)
    unfolding handle_shard_block
    handle-Grows zero c stack n older enough child = absurd (omega arith)
    handle-Grows (suc fuel) c stack n older enough child = elim (Bool-cases (is_known shards c)) [
      | inl e ↦ rw e (Grown-refl stack)
      | inr e ↦ rw e (
          Grows-from (pushed c stack e child) _ (
            serialize-Grows (handle_shard_block get_block_data get_parent_blocks shards fuel) _ c
              stack n older
              (λ p lt s m h. handle-Grows fuel p s m older (omega arith) (child_of p s h))))
    ]

    pub handle_known :
        (fuel : ℕ) (c : Block) (stack : Stack) (n : N)
        → is_known shards c ≡ true
        → handle_shard_block get_block_data get_parent_blocks shards (suc fuel) c stack n
          ≡ walked true stack n
    unfolding handle_shard_block
    handle_known fuel c stack n e = rw e

    -- The walk of a new block leaves it at the bottom of an empty stack.
    pub handle-New-Grows :
        (fuel : ℕ) (c : Block) (n : N)
        → ParentsOlder
        → c.seqno < suc fuel
        → New shards c
        → Grows
            (c ∷ [])
            (handle_shard_block get_block_data get_parent_blocks shards (suc fuel) c [] n)
    unfolding handle_shard_block
    handle-New-Grows fuel c n older enough new = rw new (
        serialize-Grows (handle_shard_block get_block_data get_parent_blocks shards fuel) _ c [] n
          older (λ p lt s m h. handle-Grows fuel p s m older (omega arith) (child_of p s h)))
