-- ===== src/Escrow/Operations.antt =====
-- internal/market/service/escrow/service.go, worker.go; TakeDealActionLock of
-- the lock repository; HasOutgoingTxTo of internal/liteclient/client.go; the seeds of
-- internal/vault/client.go.
use telegram_ads_market.Common.{
  ℕ, zero, suc, ◌+◌, ◌-◌, ◌^◌, ◌%◌, String, Bool, true, false, not, Option, none, some, List, [],
  ◌∷◌, ◌==◌, if◌then◌else◌, is_unset, text_or_empty, select, exists,
}
use telegram_ads_market.Common.Int.{ℤ, pos, negsuc, ◌==ℤ◌}
use telegram_ads_market.Common.Text.{str_eq}
use telegram_ads_market.Entity.{
  Deal, DealStatus, DealActionType, DealActionLock, DealActionLockStatus, approved, is_status,
  waiting_escrow_release, waiting_escrow_refund, escrow_release, escrow_refund,
}
use telegram_ads_market.External.{External}
use telegram_ads_market.Repository.{first}
use telegram_ads_market.Repository.Deals
use telegram_ads_market.Repository.Locks.{
  deal_action_lock_ttl, has_active_lock, insert_lock, get_last_deal_action_lock, is_expired,
  release_deal_action_lock,
}
use telegram_ads_market.Effects.{
  World, M, Done, Result, ok, err, ChainTx, pure, ◌>>=◌, ◌>>◌, ignore, attempt, fail_if, or_raise,
  call, exec, query, statement, read, read_one, require, transaction, for_each, sql_now, time_now,
  not_found, already_locked, not_approved, wrong_status, no_escrow_address, payout_address_not_set,
  bad_address, bad_seed, nil_pointer,
}
use telegram_ads_market.DealService.{deal_with_id}
use telegram_ads_market.Market.Chat.{delete_deal_forum_topic}

abbrev pub has_active_lock_now : ℕ → DealActionType → World → Bool
has_active_lock_now deal_id action w = has_active_lock deal_id action (sql_now w) w.db

unfoldable pub take_deal_action_lock : ℕ → DealActionType → M ℕ
take_deal_action_lock deal_id action = transaction do
  active ← query (has_active_lock_now deal_id action)
  fail_if active already_locked
  now ← time_now
  call (λ w. w.db.next_lock)
      (λ w. record w {
        db = insert_lock deal_id action (now + deal_action_lock_ttl) (sql_now w) w.db;
      })

abbrev pub release_lock : ℕ → DealActionLockStatus → M Done
release_lock lock_id s = statement (release_deal_action_lock lock_id s)

-- PutEscrowSeed and GetEscrowSeed: a later secret hides an earlier one; an empty one is an error.
unfoldable pub put_escrow_seed : ℕ → String → M Done
put_escrow_seed deal_id phrase = exec λ w. record w { seeds = (deal_id, phrase) ∷ w.seeds }

abbrev pub seed_of : ℕ → World → Option String
seed_of deal_id w = elim (first (select (λ s. s.0 == deal_id) w.seeds)) [
  | none ↦ none
  | some s ↦ if str_eq s.1 "" then none else some s.1
]

unfoldable pub get_escrow_seed : ℕ → M String
get_escrow_seed deal_id = do seed ← query (seed_of deal_id); or_raise seed not_found

-- uint64(x)
abbrev pub to_uint64 : ℤ → ℕ
to_uint64 (pos n) = n % 2 ^ 64
to_uint64 (negsuc n) = 2 ^ 64 - 1 - n % 2 ^ 64

-- The wallet library's Transfer: a transaction of the wallet that sends the amount.
abbrev pub transfer : String → String → ℕ → M Done
transfer wallet to amount =
    exec λ w. record w { chain = record { account = wallet; outs = (to, amount) ∷ [] } ∷ w.chain }

-- At most `n` of the items.
abbrev pub limit {ℓ} : {A : Type ℓ} → ℕ → List A → List A
limit zero xs = []
limit (suc n) [] = []
limit (suc n) (x ∷ xs) = x ∷ limit n xs

abbrev pub transactions_of : String → World → List ChainTx
transactions_of account w = select (λ t. str_eq t.account account) w.chain

-- One of the messages sends exactly the amount to the address.
abbrev pub sends : ℤ → String → ChainTx → Bool
sends amount to t = exists (λ m. if str_eq to m.0 then pos m.1 ==ℤ amount else false) t.outs

abbrev pub tx_page : ℕ
tx_page = 20

-- HasOutgoingTxTo, once it has the account, which has no transaction or some.
unfoldable pub look_through : String → ℤ → String → List ChainTx → M Bool
look_through from amount to [] = pure false
look_through from amount to (t ∷ ts) = do
  txs ← query (λ w. limit tx_page (transactions_of from w))
  pure (exists (sends amount to) txs)

-- HasOutgoingTxTo: the block, the account at it, and its latest transactions.
unfoldable pub has_outgoing_tx_to : String → ℤ → String → M Bool
has_outgoing_tx_to from amount to = do
  query (λ w. tt)
  account ← query (transactions_of from)
  look_through from amount to account

abbrev pub action_of : Bool → DealActionType
action_of release = if release then escrow_release else escrow_refund

abbrev pub awaited_status : Bool → DealStatus
awaited_status release = if release then waiting_escrow_release else waiting_escrow_refund

abbrev pub payee_of : Bool → Deal → Option String
payee_of release d = if release then d.lessor_payout_address else d.lessee_payout_address

-- The action's type is `action_of release`; the result is the destination address.
unfoldable pub prepare_action : Deal → Bool → M String
prepare_action deal release = do
  fail_if (is_unset (payee_of release deal)) payout_address_not_set
  fail_if (not (is_status deal.status (awaited_status release))) wrong_status
  fail_if (is_unset deal.escrow_address) no_escrow_address
  pure (text_or_empty (payee_of release deal))

-- SetDealStatusEscrowReleaseConfirmed, or SetDealStatusEscrowRefundConfirmed.
abbrev pub confirm_payout : ℕ → Bool → M Done
confirm_payout deal_id release = statement (
    if release
    then Deals.set_deal_status_escrow_release_confirmed deal_id
    else Deals.set_deal_status_escrow_refund_confirmed deal_id)

-- The lock that an earlier run has left behind, when it is the last one and has expired.
abbrev pub left_behind : Result (Option DealActionLock) → ℕ → Option DealActionLock
left_behind (err e) now = none
left_behind (ok none) now = none
left_behind (ok (some l)) now = if is_expired l now then some l else none

abbrev pub holds_true : Result Bool → Bool
holds_true (ok b) = b
holds_true (err e) = false

-- The branch of a recovered payout, and the other one.
unfoldable pub settle_paid : ℕ → Bool → ℕ → M Bool
settle_paid deal_id release lock_id = do
  confirm_payout deal_id release
  ignore (release_lock lock_id DealActionLockStatus.completed)
  ignore (delete_deal_forum_topic deal_id)
  pure true

unfoldable pub give_up : ℕ → M Bool
give_up lock_id = do ignore (release_lock lock_id DealActionLockStatus.failed); pure false

-- After an expired lock: whether the earlier run's transfer is found. If it is, the deal is
-- confirmed and nothing is paid.
unfoldable pub recover : ℕ → Bool → String → ℤ → String → DealActionLock → M Bool
recover deal_id release escrow amount to l = do
  found ← attempt (has_outgoing_tx_to escrow amount to)
  if holds_true found then settle_paid deal_id release l.id else give_up l.id

unfoldable pub recover_left : ℕ → Bool → String → ℤ → String → Option DealActionLock → M Bool
recover_left deal_id release escrow amount to none = pure false
recover_left deal_id release escrow amount to (some l) = recover deal_id release escrow amount to l

-- The deferred ReleaseDealActionLock: completed after a body without an error, else failed.
unfoldable pub holding : ℕ → M Done → M Done
holding lock_id body w =
    let (r, w') = body w in
    let as_completed = (ignore (release_lock lock_id DealActionLockStatus.completed) w').1 in
    let as_failed = (ignore (release_lock lock_id DealActionLockStatus.failed) w').1 in
    elim r [ ok a ↦ (ok tt, as_completed) | err e ↦ (err e, as_failed) ]

-- The function literal of ReleaseOrRefundEscrow.
unfoldable pub pay : ℕ → Bool → String → String → ℕ → M Done
pay deal_id release wallet to amount = do
  lock_id ← take_deal_action_lock deal_id (action_of release)
  holding lock_id do
    transfer wallet to amount
    confirm_payout deal_id release
    ignore (delete_deal_forum_topic deal_id)

-- ReleaseOrRefundEscrow from its look at the last lock on.
unfoldable pub pay_unless_recovered : ℕ → Bool → String → String → ℤ → String → M Done
pay_unless_recovered deal_id release wallet escrow amount to = do
  last ← attempt (read (get_last_deal_action_lock deal_id (action_of release)))
  now ← time_now
  recovered ← recover_left deal_id release escrow amount to (left_behind last now)
  if recovered then pure tt else pay deal_id release wallet to (to_uint64 amount)

module _ (ext : External) where
  unfoldable pub create_escrow : ℕ → M Done
  create_escrow deal_id = do
    deal ← require (read_one (deal_with_id deal_id)) nil_pointer
    fail_if (not (is_status deal.status approved)) not_approved
    seed ← λ w. (ok (ext.new_seed w.seeds_drawn), record w { seeds_drawn = suc w.seeds_drawn })
    address ← or_raise (ext.wallet_of_seed seed) bad_seed
    put_escrow_seed deal_id seed
    statement (Deals.set_deal_escrow_address deal_id address)
    ignore (exec λ w. record w { watched = address ∷ w.watched })

  -- One pass of the escrow worker.
  unfoldable pub create_escrows : M Done
  create_escrows = do
    deals ← read Deals.list_deals_approved_without_escrow
    for_each deals (λ d. create_escrow d.id)

  -- `amount_of` is GetAmountWithoutGasAndCommission.
  module _ (amount_of : ℤ → ℤ) where
    unfoldable pub release_or_refund_escrow : ℕ → Bool → M Done
    release_or_refund_escrow deal_id release = do
      deal ← require (read_one (deal_with_id deal_id)) not_found
      payee ← prepare_action deal release
      to ← or_raise (ext.parse_raw_addr payee) bad_address
      seed ← get_escrow_seed deal_id
      wallet ← or_raise (ext.wallet_of_seed seed) bad_seed
      let amount = amount_of deal.escrow_amount
      fail_if (is_unset deal.escrow_address) payout_address_not_set
      escrow ← or_raise (ext.parse_raw_addr (text_or_empty deal.escrow_address)) bad_address
      pay_unless_recovered deal_id release wallet escrow amount to

    -- One pass of the worker for releases and refunds.
    unfoldable pub release_and_refund_escrows : M Done
    release_and_refund_escrows = for_each (true ∷ false ∷ []) λ release. do
      deals ← read (
          if release
          then Deals.list_deals_waiting_escrow_release
          else Deals.list_deals_waiting_escrow_refund)
      for_each deals (λ d. release_or_refund_escrow d.id release)
