-- ===== src/Escrow/Runs.antt =====
-- Whole runs of ReleaseOrRefundEscrow: one in which every call works, one that recovers a payout,
-- and two in a row of which the first fails after its transfer.
use telegram_ads_market.Common.{
  ℕ, ◌+◌, if◌then◌else◌, ◌&&◌, ap, sym, ◌∙◌, map, select, update, exists, ◌≡◌, refl, String, Bool,
  true, false, none, some, List, [], ◌∷◌, arith, is_unset, text_or_empty,
}
use telegram_ads_market.Common.Int.{ℤ}
use telegram_ads_market.Entity.{
  Deal, DealStatus, DealActionLock, DealActionLockStatus, escrow_release_confirmed,
  escrow_refund_confirmed, waiting_escrow_release, waiting_escrow_refund, is_status,
}
use telegram_ads_market.Repository.{Db}
use telegram_ads_market.Repository.Deals.{has_id}
use telegram_ads_market.External.{External}
use telegram_ads_market.Repository.Deals
use telegram_ads_market.Repository.Locks.{
  deal_action_lock_ttl, has_active_lock, insert_lock, release_deal_action_lock,
  get_last_deal_action_lock, is_expired,
}
use telegram_ads_market.Effects.{
  World, fine, lost, Done, ChainTx, Result, ok, err, call_failed, monad,
}
use telegram_ads_market.DealService.{deal_with_id}
use telegram_ads_market.Market.Chat.{
  delete_deal_forum_topic, delete_forum_topic, remove_deal_forum_topic,
}
use telegram_ads_market.Escrow.Operations.{
  awaited_status, action_of, payee_of, seed_of, to_uint64, release_or_refund_escrow,
  transactions_of, limit, tx_page, sends, prepare_action, get_escrow_seed, pay_unless_recovered,
  recover_left, recover, settle_paid, has_outgoing_tx_to, look_through, pay, holding,
  take_deal_action_lock, give_up, left_behind,
}

abbrev confirmed_status : Bool → DealStatus
confirmed_status release = if release then escrow_release_confirmed else escrow_refund_confirmed

-- The row with an id, after an update of it under a test that it passes.
select-guarded :
    (id : ℕ) (test : Deal → Bool) (change : Deal → Deal)
    → ((d : Deal) → (change d).id ≡ d.id)
    → (d : Deal) (xs : List Deal) → select (has_id id) xs ≡ d ∷ []
    → test d ≡ true
    → select (has_id id) (update (λ x. has_id id x && test x) change xs) ≡ change d ∷ []
select-guarded id test change same d xs e t = sym (mapped xs) ∙ ap (map guarded) e ∙ ground arith
  where
    guarded : Deal → Deal
    guarded x = if test x then change x else x

    mapped :
        (ys : List Deal)
        → map guarded (select (has_id id) ys)
          ≡ select (has_id id) (update (λ x. has_id id x && test x) change ys)
    mapped [] = refl
    mapped (y ∷ ys) = ground (arith, mapped ys, same y)

confirms : Bool → ℕ → ℕ → Db → Db
confirms release id =
    if release
    then Deals.set_deal_status_escrow_release_confirmed id
    else Deals.set_deal_status_escrow_refund_confirmed id

confirmed_row :
    (release : Bool) (id now : ℕ) (d : Deal) (db : Db)
    → Deals.get_deal_by_id id db ≡ d ∷ []
    → is_status d.status (awaited_status release) ≡ true
    → Deals.get_deal_by_id id (confirms release id now db)
      ≡ record d { status = confirmed_status release; updated_at = now } ∷ []
unfolding confirms Deals.get_deal_by_id Deals.set_deal_status_escrow_release_confirmed
    Deals.set_deal_status_escrow_refund_confirmed
confirmed_row true id now d db e k =
    select-guarded id (λ x. is_status x.status waiting_escrow_release)
      (λ x. record x { status = escrow_release_confirmed; updated_at = now }) (λ _. refl) d db.deals
      e k
confirmed_row false id now d db e k =
    select-guarded id (λ x. is_status x.status waiting_escrow_refund)
      (λ x. record x { status = escrow_refund_confirmed; updated_at = now }) (λ _. refl) d db.deals
      e k

-- The steps of a run, and the statements it makes.
unfoldable run : Done
unfolding release_or_refund_escrow prepare_action get_escrow_seed pay_unless_recovered recover_left
    recover settle_paid give_up has_outgoing_tx_to look_through pay holding take_deal_action_lock
run = tt

unfoldable deletion : Done
unfolding delete_deal_forum_topic delete_forum_topic remove_deal_forum_topic
deletion = tt

unfoldable writes : Done
unfolding insert_lock release_deal_action_lock Deals.get_deal_by_id
    Deals.set_deal_status_escrow_release_confirmed Deals.set_deal_status_escrow_refund_confirmed
writes = tt

unfoldable lookups : Done
unfolding get_last_deal_action_lock has_active_lock insert_lock release_deal_action_lock
    Deals.get_deal_by_id Deals.set_deal_status_escrow_release_confirmed
    Deals.set_deal_status_escrow_refund_confirmed
lookups = tt

module _ (ext : External) (amount_of : ℤ → ℤ) where
  -- What a run requires of the deal, of its stored seed and of its addresses.
  pub record Payable (id : ℕ) (release : Bool) (d : Deal) (seed wallet to escrow : String)
      (w : World) : Type 0 where
    pub deal_found : deal_with_id id w ≡ d ∷ []
    pub waits : is_status d.status (awaited_status release) ≡ true
    pub payee_set : is_unset (payee_of release d) ≡ false
    pub escrow_set : is_unset d.escrow_address ≡ false
    pub payee_valid : ext.parse_raw_addr (text_or_empty (payee_of release d)) ≡ some to
    pub escrow_valid : ext.parse_raw_addr (text_or_empty d.escrow_address) ≡ some escrow
    pub seed_stored : seed_of id w ≡ some seed
    pub seed_valid : ext.wallet_of_seed seed ≡ some wallet

  abbrev payment : Deal → String → String → ChainTx
  payment d wallet to = record {
    account = wallet;
    outs = (to, to_uint64 (amount_of d.escrow_amount)) ∷ [];
  }

  -- If every call works, no lock is active and none was left behind, a run sends the payment once,
  -- writes the confirmed status, and reports success.
  pub payout_completes :
      (id : ℕ) (release : Bool) (d : Deal) (seed wallet to escrow : String) (w : World)
      → w.schedule ≡ []
      → has_active_lock id (action_of release) w.now w.db ≡ false
      → left_behind (ok (get_last_deal_action_lock id (action_of release) w.db)) w.now ≡ none
      → Payable id release d seed wallet to escrow w
      → ((release_or_refund_escrow ext amount_of id release w).0 ≡ ok tt)
        × ((release_or_refund_escrow ext amount_of id release w).1.chain
            ≡ payment d wallet to ∷ w.chain)
        × (deal_with_id id (release_or_refund_escrow ext amount_of id release w).1
            ≡ record d { status = confirmed_status release; updated_at = w.now } ∷ [])
  unfolding run deletion writes confirms monad
  payout_completes id release d seed wallet to escrow w s free none_left may =
      let row = confirmed_row release id w.now d w.db may.deal_found may.waits in
      (ground arith, ground arith, ground arith)

  module _ (id : ℕ) (d : Deal) (l : DealActionLock) (seed wallet to escrow : String)
      (w : World) where
    -- A payment of an earlier run that can be found.
    record Recoverable (release : Bool) : Type 0 where
      works : w.schedule ≡ []
      no_tx : w.tx_start ≡ none
      payable : Payable id release d seed wallet to escrow w
      last : get_last_deal_action_lock id (action_of release) w.db ≡ some l
      expired : is_expired l w.now ≡ true
      sent :
          exists (sends (amount_of d.escrow_amount) to) (limit tx_page (transactions_of escrow w))
          ≡ true

    abbrev Recovered : Bool → Type 0
    Recovered release =
        ((release_or_refund_escrow ext amount_of id release w).0 ≡ ok tt)
        × ((release_or_refund_escrow ext amount_of id release w).1.chain ≡ w.chain)
        × (deal_with_id id (release_or_refund_escrow ext amount_of id release w).1
            ≡ record d { status = confirmed_status release; updated_at = w.now } ∷ [])

    release_settled : Recoverable true → Recovered true
    unfolding run deletion confirms monad release_deal_action_lock Deals.get_deal_by_id
        Deals.set_deal_status_escrow_release_confirmed
    release_settled h =
        let row = confirmed_row true id w.now d w.db h.payable.deal_found h.payable.waits in
        (ground arith, ground arith, ground arith)

    refund_settled : Recoverable false → Recovered false
    unfolding run deletion confirms monad release_deal_action_lock Deals.get_deal_by_id
        Deals.set_deal_status_escrow_refund_confirmed
    refund_settled h =
        let row = confirmed_row false id w.now d w.db h.payable.deal_found h.payable.waits in
        (ground arith, ground arith, ground arith)

  -- If the last lock has expired while held, and the latest transactions of the escrow account hold
  -- the payment, a run in which every call works sends nothing and writes the confirmed status.
  pub recovered_payout_is_not_repeated :
      (id : ℕ) (release : Bool) (d : Deal) (l : DealActionLock) (seed wallet to escrow : String)
      (w : World)
      → w.schedule ≡ []
      → w.tx_start ≡ none
      → Payable id release d seed wallet to escrow w
      → get_last_deal_action_lock id (action_of release) w.db ≡ some l
      → is_expired l w.now ≡ true
      → exists (sends (amount_of d.escrow_amount) to) (limit tx_page (transactions_of escrow w))
        ≡ true
      → ((release_or_refund_escrow ext amount_of id release w).0 ≡ ok tt)
        × ((release_or_refund_escrow ext amount_of id release w).1.chain ≡ w.chain)
        × (deal_with_id id (release_or_refund_escrow ext amount_of id release w).1
            ≡ record d { status = confirmed_status release; updated_at = w.now } ∷ [])
  recovered_payout_is_not_repeated id true d l seed wallet to escrow w s no_tx may last expired
        sent =
      release_settled id d l seed wallet to escrow w (record {
        works = s;
        no_tx = no_tx;
        payable = may;
        last = last;
        expired = expired;
        sent = sent;
      })
  recovered_payout_is_not_repeated id false d l seed wallet to escrow w s no_tx may last expired
        sent =
      refund_settled id d l seed wallet to escrow w (record {
        works = s;
        no_tx = no_tx;
        payable = may;
        last = last;
        expired = expired;
        sent = sent;
      })

  -- How a first run that fails to write the status leaves the world.
  record PaidOnly (id : ℕ) (release : Bool) (paid : ChainTx) (w : World) (o : Result Done × World)
      : Type 0 where
    fails : o.0 ≡ err call_failed
    sent : o.1.chain ≡ paid ∷ w.chain
    same_deals : o.1.db.deals ≡ w.db.deals
    same_seeds : o.1.seeds ≡ w.seeds
    no_more_failures : o.1.schedule ≡ []
    lock_given_up :
        o.1.db.locks
        ≡ record {
          id = w.db.next_lock;
          deal_id = id;
          action_type = action_of release;
          status = DealActionLockStatus.failed;
          expire_at = w.now + deal_action_lock_ttl;
          created_at = w.now;
          updated_at = w.now;
        }
          ∷ []

  module _ (id : ℕ) (release : Bool) (d : Deal) (seed wallet to escrow : String) (w : World)
      (s : w.schedule ≡ fine ∷ fine ∷ fine ∷ fine ∷ fine ∷ fine ∷ fine ∷ fine ∷ lost ∷ [])
      (free : w.db.locks ≡ []) (may : Payable id release d seed wallet to escrow w) where
    first_fails : (release_or_refund_escrow ext amount_of id release w).0 ≡ err call_failed
    unfolding run lookups confirms monad
    first_fails = ground arith

    first_sends :
        (release_or_refund_escrow ext amount_of id release w).1.chain
        ≡ payment d wallet to ∷ w.chain
    unfolding run lookups confirms monad
    first_sends = ground arith

    first_deals : (release_or_refund_escrow ext amount_of id release w).1.db.deals ≡ w.db.deals
    unfolding run lookups confirms monad
    first_deals = ground arith

    first_seeds : (release_or_refund_escrow ext amount_of id release w).1.seeds ≡ w.seeds
    unfolding run lookups confirms monad
    first_seeds = ground arith

    first_schedule : (release_or_refund_escrow ext amount_of id release w).1.schedule ≡ []
    unfolding run lookups confirms monad
    first_schedule = ground arith

    first_lock :
        (release_or_refund_escrow ext amount_of id release w).1.db.locks
        ≡ record {
          id = w.db.next_lock;
          deal_id = id;
          action_type = action_of release;
          status = DealActionLockStatus.failed;
          expire_at = w.now + deal_action_lock_ttl;
          created_at = w.now;
          updated_at = w.now;
        }
          ∷ []
    unfolding run lookups confirms monad
    first_lock = ground arith

    after_first :
        PaidOnly id release
          (payment d wallet to)
          w
          (release_or_refund_escrow ext amount_of id release w)
    after_first = record {
      fails = first_fails;
      sent = first_sends;
      same_deals = first_deals;
      same_seeds = first_seeds;
      no_more_failures = first_schedule;
      lock_given_up = first_lock;
    }

  -- A lock that was given up keeps no later run away, and is not recovered from.
  given_up :
      (id : ℕ) (release : Bool) (l : DealActionLock) (now : ℕ) (db : Db)
      → db.locks ≡ l ∷ []
      → l.status ≡ DealActionLockStatus.failed
      → (has_active_lock id (action_of release) now db ≡ false)
        × (left_behind (ok (get_last_deal_action_lock id (action_of release) db)) now ≡ none)
  unfolding has_active_lock get_last_deal_action_lock is_expired
  given_up id release l now db e s = (ground arith, ground arith)

  Payable-after :
      (id : ℕ) (release : Bool) (d : Deal) (seed wallet to escrow : String) (w v : World)
      → v.db.deals ≡ w.db.deals
      → v.seeds ≡ w.seeds
      → Payable id release d seed wallet to escrow w
      → Payable id release d seed wallet to escrow v
  unfolding Deals.get_deal_by_id
  Payable-after id release d seed wallet to escrow w v deals seeds may = record {
    deal_found = ap (select (has_id id)) deals ∙ may.deal_found;
    waits = may.waits;
    payee_set = may.payee_set;
    escrow_set = may.escrow_set;
    payee_valid = may.payee_valid;
    escrow_valid = may.escrow_valid;
    seed_stored = ap (λ s. seed_of id (record w { seeds = s })) seeds ∙ may.seed_stored;
    seed_valid = may.seed_valid;
  }

  -- If the database has no locks, the transfer is answered without an error, the status write after
  -- it is refused, and every other call works, those of the next run included, then the first run
  -- reports the error, and the next run sends the transfer again and reports success.
  pub failed_status_write_sends_twice :
      (id : ℕ) (release : Bool) (d : Deal) (seed wallet to escrow : String) (w : World)
      → w.schedule ≡ fine ∷ fine ∷ fine ∷ fine ∷ fine ∷ fine ∷ fine ∷ fine ∷ lost ∷ []
      → w.db.locks ≡ []
      → Payable id release d seed wallet to escrow w
      → let first = release_or_refund_escrow ext amount_of id release w in
        let second = release_or_refund_escrow ext amount_of id release first.1 in
        (first.0 ≡ err call_failed)
        × (first.1.chain ≡ payment d wallet to ∷ w.chain)
        × (second.0 ≡ ok tt)
        × (second.1.chain ≡ payment d wallet to ∷ payment d wallet to ∷ w.chain)
  failed_status_write_sends_twice id release d seed wallet to escrow w s free may =
      let first = after_first id release d seed wallet to escrow w s free may in
      let v = (release_or_refund_escrow ext amount_of id release w).1 in
      let free_again = given_up id release _ v.now v.db first.lock_given_up refl in
      let second =
        payout_completes id release d seed wallet to escrow v first.no_more_failures free_again.0
          free_again.1
          (Payable-after id release d seed wallet to escrow w v first.same_deals first.same_seeds
            may) in
      (first.fails, first.sent, second.0, second.1 ∙ ap (λ c. payment d wallet to ∷ c) first.sent)
