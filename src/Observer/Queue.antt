-- ===== src/Observer/Queue.antt =====
-- What comes into the channel of deposits, and how its only reader can stop.
use telegram_ads_market.Common.{
  ℕ, ◌+◌, ◌≤◌, ◌≡◌, inl, inr, refl, sym, ap, ◌∙◌, String, true, false, List, [], ◌∷◌, ◌++◌, ltb,
  length, All, All-append, Bool-cases, arith,
}
use telegram_ads_market.Common.Int.{pos, ltb_ℤ, wrap64}
use telegram_ads_market.Observer.Blocks.{Block, Answer, ready, not_ready, failed}
use telegram_ads_market.Observer.Deposits
use telegram_ads_market.Observer.Deposits.{
  Addresses, is_address_watched, raw_addr_from_account, InMessage, no_message, external, internal,
  Transaction, DepositNote, extract_incoming_amount_and_time, deposit_events_size, offer,
  queue_deposit, TransactionId, queue_deposits, handle_block,
}

length-append : (xs ys : List DepositNote) → length (xs ++ ys) ≡ length xs + length ys
length-append [] ys = omega arith
length-append (x ∷ xs) ys = omega (arith, length-append xs ys)

append-nil : (xs : List DepositNote) → xs ++ [] ≡ xs
append-nil [] = refl
append-nil (x ∷ xs) = ap (λ r. x ∷ r) (append-nil xs)

append_assoc : (xs ys zs : List DepositNote) → (xs ++ ys) ++ zs ≡ xs ++ (ys ++ zs)
append_assoc [] ys zs = refl
append_assoc (x ∷ xs) ys zs = ap (λ r. x ∷ r) (append_assoc xs ys zs)

-- What is noted of a transaction in which a transfer of an amount has come in.
abbrev pub note_of_transfer : String → Transaction → ℕ → DepositNote
note_of_transfer account tx amount = record {
  raw_address = raw_addr_from_account account;
  amount = wrap64 (pos amount);
  timestamp = pos tx.now;
  tx_hash = tx.hash;
}

module _ {N : Type 0} (get_transaction : Block → String → ℕ → N → Answer Transaction × N)
    (addresses : Addresses) (block : Block) where
  -- A note of a transaction of a watched account, which the client has answered for the block, and in
  -- which a transfer has come in whose amount, as an int64, is not negative.
  pub record Honest (note : DepositNote) : Type 0 where
    pub account : String
    pub watched : is_address_watched account addresses ≡ true
    pub lt : ℕ
    pub at : N
    pub after : N
    pub tx : Transaction
    pub answers : get_transaction block account lt at ≡ (ready tx, after)
    pub amount : ℕ
    pub came_in : tx.in_message ≡ internal amount
    pub noted : note ≡ note_of_transfer account tx amount
    pub not_negative : ltb_ℤ (wrap64 (pos amount)) (pos 0) ≡ false

  -- The channel after a block: as it was, with honest notes behind, and within its size.
  pub record Filled (before after : List DepositNote) : Type 0 where
    pub added : List DepositNote
    pub same : after ≡ before ++ added
    pub honest : All Honest added
    pub bounded : length before ≤ deposit_events_size → length after ≤ deposit_events_size

  Filled-refl : (queue : List DepositNote) → Filled queue queue
  Filled-refl queue = record {
    added = [];
    same = sym (append-nil queue);
    honest = tt;
    bounded = λ h. h;
  }

  Filled-trans : {a b c : List DepositNote} → Filled a b → Filled b c → Filled a c
  Filled-trans {a} p q = record {
    added = p.added ++ q.added;
    same = q.same ∙ ap (λ r. r ++ q.added) p.same ∙ append_assoc a p.added q.added;
    honest = All-append _ p.added q.added p.honest q.honest;
    bounded = λ h. q.bounded (p.bounded h);
  }

  offer-Filled :
      (note : DepositNote) (queue : List DepositNote)
      → Honest note
      → Filled queue (offer note queue)
  unfolding offer
  offer-Filled note queue honest = elim (Bool-cases (ltb (length queue) deposit_events_size)) [
    | inl e ↦ rw e (record {
      added = note ∷ [];
      same = refl;
      honest = (honest, tt);
      bounded = λ h. ground (arith, length-append queue (note ∷ []), e);
    })
    | inr e ↦ rw e (Filled-refl queue)
  ]

  -- The transaction that the client has answered for an account and a logical time.
  record IsAnswer (account : String) (lt : ℕ) (tx : Transaction) : Type 0 where
    at : N
    after : N
    answers : get_transaction block account lt at ≡ (ready tx, after)

  queue_deposit-Filled :
      (account : String) (lt : ℕ) (tx : Transaction) (queue : List DepositNote)
      → is_address_watched account addresses ≡ true
      → IsAnswer account lt tx
      → Filled queue (queue_deposit account tx queue)
  unfolding queue_deposit extract_incoming_amount_and_time
  queue_deposit-Filled account lt tx queue watched answer = go tx.in_message refl
    where
      go : (m : InMessage) → tx.in_message ≡ m → Filled queue (queue_deposit account tx queue)
      go no_message e = rw e (Filled-refl queue)
      go external e = rw e (Filled-refl queue)
      go (internal amount) e = elim (Bool-cases (ltb_ℤ (wrap64 (pos amount)) (pos 0))) [
        | inl n ↦ rw (e, n) (Filled-refl queue)
        | inr n ↦
            rw (e, n)
              (offer-Filled (note_of_transfer account tx amount) queue (record {
                account = account;
                watched = watched;
                lt = lt;
                at = answer.at;
                after = answer.after;
                tx = tx;
                answers = answer.answers;
                amount = amount;
                came_in = e;
                noted = refl;
                not_negative = n;
              }))
      ]

  queue_answer-Filled :
      (account : String) (lt : ℕ) (n m : N) (answer : Answer Transaction) (queue : List DepositNote)
      → is_address_watched account addresses ≡ true
      → get_transaction block account lt n ≡ (answer, m)
      → Filled queue (Deposits.queue_answer get_transaction addresses account answer queue)
  queue_answer-Filled account lt n m (ready tx) queue w e =
      queue_deposit-Filled account lt tx queue w (record { at = n; after = m; answers = e })
  queue_answer-Filled account lt n m not_ready queue w e = Filled-refl queue
  queue_answer-Filled account lt n m failed queue w e = Filled-refl queue

  queue_deposits-Filled :
      (ts : List TransactionId) (queue : List DepositNote) (n : N)
      → Filled queue (queue_deposits get_transaction addresses block ts queue n).0
  unfolding queue_deposits
  queue_deposits-Filled [] queue n = Filled-refl queue
  queue_deposits-Filled (t ∷ ts) queue n =
      elim (Bool-cases (is_address_watched t.account addresses)) [
        | inl e ↦
            rw (e, queue_deposits)
              (Filled-trans
                (queue_answer-Filled t.account t.lt n _ (get_transaction block t.account t.lt n).0
                  queue e refl)
                (queue_deposits-Filled ts _ (get_transaction block t.account t.lt n).1))
        | inr e ↦ rw (e, queue_deposits) (queue_deposits-Filled ts queue n)
      ]

  -- A worker adds to the channel only notes of the block's transactions, as the client answers them,
  -- of watched accounts, in which a transfer has come in; each note bears the amount as an int64,
  -- which is not negative, the time and the hash of its transaction. They come behind those that are
  -- there, and a channel within its size stays so.
  pub handle_block-Filled :
      (get_transaction_ids : Block → N → Answer (List TransactionId) × N) (queue : List DepositNote)
      (n : N)
      → Filled queue (handle_block get_transaction addresses get_transaction_ids block queue n).0
  unfolding handle_block
  handle_block-Filled get_transaction_ids queue n =
      go (get_transaction_ids block n).0 (get_transaction_ids block n).1
    where
      go :
          (answer : Answer (List TransactionId)) (m : N)
          → Filled queue (Deposits.queue_block get_transaction addresses block answer queue m).0
      go (ready ts) m = queue_deposits-Filled ts queue m
      go not_ready m = Filled-refl queue
      go failed m = Filled-refl queue
