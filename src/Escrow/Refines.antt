-- ===== src/Escrow/Refines.antt =====
-- Whatever becomes of its calls, the escrow service moves the database by transactions of the
-- lifecycle only.
use telegram_ads_market.Common.{
  List, ℕ, String, Bool, true, false, Option, none, some, [], ◌∷◌, All-of,
}
use telegram_ads_market.Common.Int.{ℤ}
use telegram_ads_market.Entity.{DealActionType, DealActionLock, DealActionLockStatus}
use telegram_ads_market.External.{External}
use telegram_ads_market.Repository.{Db}
use telegram_ads_market.Repository.Deals
use telegram_ads_market.Lifecycle.Step
use telegram_ads_market.Lifecycle.Step.{Reach, stays, goes, Reach-trans}
use telegram_ads_market.Effects.{ignore, World, Result, arrive, time_now, read}
use telegram_ads_market.Effects.Laws.{
  call_cases, then_call, then_query, then_fail_if, then_or_raise, then_require, transaction_cases,
  last_ignore, if_cases, for_each_inv,
}
use telegram_ads_market.Effects.Steps.{then_does}
use telegram_ads_market.DealService.Refines.{Refines}
use telegram_ads_market.Escrow.Deposits.{
  Deposit, no_change, confirms, deposit_confirms_only_if_paid,
}
use telegram_ads_market.Escrow.Laws.{
  then_from, then_attempt, then_ignored, call_keeps, looks_up_keeps, holding_keeps, then_prepares,
  then_seed,
}
use telegram_ads_market.Market.Chat.{delete_deal_forum_topic}
use telegram_ads_market.Market.ChatLaws.{delete_topic_keeps}
use telegram_ads_market.Escrow.Operations.{
  action_of, take_deal_action_lock, release_lock, confirm_payout, recover, settle_paid, give_up,
  recover_left, left_behind, pay, pay_unless_recovered, create_escrow, create_escrows,
  release_or_refund_escrow, release_and_refund_escrows, prepare_action, transfer, get_escrow_seed,
  put_escrow_seed, has_outgoing_tx_to, holds_true,
}
use telegram_ads_market.Escrow.DepositEvents.{
  DepositEvent, acknowledgements, acknowledge, process_deposit_events, process_deposit_event,
}

module _ (ext : External) where
  -- From `db` on, only lifecycle steps have been taken.
  abbrev From : Db → World → Type 0
  From db v = Reach ext db v.db

  take_lock-Refines :
      (deal_id : ℕ) (action : DealActionType) → Refines ext (take_deal_action_lock deal_id action)
  unfolding take_deal_action_lock
  take_lock-Refines deal_id action w = transaction_cases (Reach ext w.db) _ w stays (
      then_query Gone _ _ _
        (then_fail_if Gone _ _ _ _ (λ _. stays)
          (λ _.
            then_does Gone (λ v. v.now) (λ v. v) _ _
              (call_cases Gone _ _ _ (goes stays (Step.takes_lock _ _ _ _ _)) stays
                (goes stays (Step.takes_lock _ _ _ _ _)))))
        stays)
    where
      Gone : {A : Type 0} → Result A × World → Type 0
      Gone o = Reach ext w.db o.1.db

  released :
      (db : Db) (lock_id : ℕ) (s : DealActionLockStatus) (v : World)
      → From db v
      → From db (release_lock lock_id s v).1
  released db lock_id s v h =
      call_keeps (From db) _ _ v (goes h (Step.releases_lock lock_id _ s v.db)) h

  confirmed :
      (db : Db) (deal_id : ℕ) (release : Bool) (v : World)
      → From db v
      → From db (confirm_payout deal_id release v).1
  confirmed db deal_id true v h =
      call_keeps (From db) _ _ v (goes h (Step.confirms_release deal_id _ v.db)) h
  confirmed db deal_id false v h =
      call_keeps (From db) _ _ v (goes h (Step.confirms_refund deal_id _ v.db)) h

  pay-Refines :
      (deal_id : ℕ) (release : Bool) (wallet to : String) (amount : ℕ)
      → Refines ext (pay deal_id release wallet to amount)
  unfolding pay ignore
  pay-Refines deal_id release wallet to amount w =
      then_from (From w.db) (From w.db) (take_deal_action_lock deal_id (action_of release)) _ w
        (take_lock-Refines deal_id (action_of release) w)
        (λ lock_id v h.
          holding_keeps (From w.db) (From w.db) lock_id _ v
            (then_from (From w.db) (From w.db) (transfer wallet to amount) _ v
              (call_keeps (From w.db) _ _ v h h)
              (λ u x i.
                then_from (From w.db) (From w.db) (confirm_payout deal_id release) _ x
                  (confirmed w.db deal_id release x i)
                  (λ u y j.
                    delete_topic_keeps (From w.db)
                      (record { later = λ v i. i; with_tables = λ t v i. i }) deal_id y j)
                  (λ y j. j))
              (λ x i. i))
            (released w.db lock_id))
        (λ v h. h)

  recover_left-Refines :
      (deal_id : ℕ) (release : Bool) (escrow : String) (amount : ℤ) (to : String)
      (l : Option DealActionLock)
      → Refines ext (recover_left deal_id release escrow amount to l)
  unfolding recover_left recover settle_paid give_up
  recover_left-Refines deal_id release escrow amount to none w = stays
  recover_left-Refines deal_id release escrow amount to (some l) w =
      then_attempt (From w.db) (From w.db) (has_outgoing_tx_to escrow amount to) _ w
        (looks_up_keeps (From w.db) escrow amount to w (λ v i. i) stays)
        (λ r v i.
          if_cases (λ o. From w.db o.1) (holds_true r) _ _ v
            (λ _.
              then_from (From w.db) (From w.db) (confirm_payout deal_id release) _ v
                (confirmed w.db deal_id release v i)
                (λ u x j.
                  then_ignored (From w.db) (From w.db)
                    (release_lock l.id DealActionLockStatus.completed) _ x
                    (released w.db l.id DealActionLockStatus.completed x j)
                    (λ y k.
                      then_ignored (From w.db) (From w.db) (delete_deal_forum_topic deal_id) _ y
                        (delete_topic_keeps (From w.db)
                          (record { later = λ v i. i; with_tables = λ t v i. i }) deal_id y k)
                        (λ z n. n)))
                (λ x j. j))
            (λ _.
              then_ignored (From w.db) (From w.db) (release_lock l.id DealActionLockStatus.failed) _
                v (released w.db l.id DealActionLockStatus.failed v i) (λ x j. j)))

  pay_unless_recovered-Refines :
      (deal_id : ℕ) (release : Bool) (wallet escrow : String) (amount : ℤ) (to : String)
      → Refines ext (pay_unless_recovered deal_id release wallet escrow amount to)
  unfolding pay_unless_recovered
  pay_unless_recovered-Refines deal_id release wallet escrow amount to w =
      then_attempt (From w.db) (From w.db) (read _) _ w
        (call_keeps (From w.db) _ (λ v. v) w stays stays)
        (λ last v i.
          then_from (From w.db) (From w.db) time_now _ v i
            (λ now x j.
              then_from (From w.db) (From w.db)
                (recover_left deal_id release escrow amount to (left_behind last now)) _ x
                (Reach-trans ext j
                  (recover_left-Refines deal_id release escrow amount to (left_behind last now) x))
                (λ recovered y k.
                  if_cases (λ o. From w.db o.1) recovered _ _ y (λ _. k)
                    (λ _. Reach-trans ext k (pay-Refines deal_id release wallet to _ y)))
                (λ y k. k))
            (λ x j. j))

  module _ (amount_of : ℤ → ℤ) where
    pub release_or_refund_escrow-Refines :
        (deal_id : ℕ) (release : Bool)
        → Refines ext (release_or_refund_escrow ext amount_of deal_id release)
    unfolding release_or_refund_escrow prepare_action get_escrow_seed
    release_or_refund_escrow-Refines deal_id release w =
        then_require Gone _ _ _ w
          (λ d e.
            then_prepares Gone d release _ _ (λ _. stays)
              (λ _ _.
                then_or_raise Gone _ _ _ _ (λ _. stays)
                  (λ to _.
                    then_seed Gone deal_id _ _ (λ _. stays)
                      (λ seed _.
                        then_or_raise Gone _ _ _ _ (λ _. stays)
                          (λ wallet _.
                            then_fail_if Gone _ _ _ _ (λ _. stays)
                              (λ _.
                                then_or_raise Gone _ _ _ _ (λ _. stays)
                                  (λ escrow _.
                                    pay_unless_recovered-Refines deal_id release wallet escrow _ to
                                      (arrive (arrive w)))))))))
          (λ e. stays)
      where
        Gone : {A : Type 0} → Result A × World → Type 0
        Gone o = Reach ext w.db o.1.db

    -- Whatever fails, a pass over all releases and refunds takes lifecycle steps only.
    pub release_and_refund_escrows-Refines : Refines ext (release_and_refund_escrows ext amount_of)
    unfolding release_and_refund_escrows
    release_and_refund_escrows-Refines w =
        for_each_inv (From w.db) _ (λ _. Unit {0})
          (λ release v _ h.
            then_from (From w.db) (From w.db) (read _) _ v (call_keeps (From w.db) _ (λ x. x) v h h)
              (λ deals x i.
                for_each_inv (From w.db) (λ d. release_or_refund_escrow ext amount_of d.id release)
                  (λ _. Unit {0})
                  (λ d y _ j. Reach-trans ext j (release_or_refund_escrow-Refines d.id release y))
                  deals x (All-of _ (λ _. tt) deals) i)
              (λ x i. i))
          (true ∷ false ∷ []) w (All-of _ (λ _. tt) (true ∷ false ∷ [])) stays

  pub create_escrow-Refines : (deal_id : ℕ) → Refines ext (create_escrow ext deal_id)
  unfolding create_escrow put_escrow_seed
  create_escrow-Refines deal_id w =
      then_require Gone _ _ _ w
        (λ d e.
          then_fail_if Gone _ _ _ _ (λ _. stays)
            (λ _. then_does Gone _ _ _ _ (
              then_or_raise Gone _ _ _ _ (λ _. stays)
                (λ address _.
                  then_call Gone _ _ _ _
                    (then_call Gone _ _ _ _ (last_ignore Gone _ _ _ (opens _ _) (opens _ _)) stays
                      (opens _ _))
                    stays stays))))
        (λ e. stays)
    where
      Gone : {A : Type 0} → Result A × World → Type 0
      Gone o = Reach ext w.db o.1.db

      opens :
          (now : ℕ) (address : String)
          → Reach ext w.db (Deals.set_deal_escrow_address deal_id address now w.db)
      opens now address = goes stays (Step.opens_escrow deal_id now address w.db)

  -- Whatever fails, a pass of the escrow worker takes lifecycle steps only.
  pub create_escrows-Refines : Refines ext (create_escrows ext)
  unfolding create_escrows
  create_escrows-Refines w =
      then_from (From w.db) (From w.db) (read _) _ w
        (call_keeps (From w.db) _ (λ x. x) w stays stays)
        (λ deals x i.
          for_each_inv (From w.db) (λ d. create_escrow ext d.id) (λ _. Unit {0})
            (λ d y _ j. Reach-trans ext j (create_escrow-Refines d.id y)) deals x
            (All-of _ (λ _. tt) deals) i)
        (λ x i. i)

  process_deposit_event-Refines : (ev : DepositEvent) → Refines ext (process_deposit_event ev)
  process_deposit_event-Refines ev w = deposit (deposit_confirms_only_if_paid ev w)
    where
      deposit : {db : Db} → Deposit ev w.db db → Reach ext w.db db
      deposit no_change = stays
      deposit (confirms d now e paid) = goes stays (Step.confirms_deposit d.id now w.db)

  acknowledgements-Refines : (events : List DepositEvent) → Refines ext (acknowledgements events)
  unfolding acknowledgements
  acknowledgements-Refines [] w = stays
  acknowledgements-Refines (ev ∷ evs) w =
      then_from (From w.db) (From w.db) (process_deposit_event ev) _ w
        (process_deposit_event-Refines ev w)
        (λ acked v h.
          then_from (From w.db) (From w.db) (acknowledgements evs) _ v
            (Reach-trans ext h (acknowledgements-Refines evs v)) (λ ids x i. i) (λ x i. i))
        (λ v h. h)

  -- Whatever fails, a batch of deposit events takes lifecycle steps only.
  pub process_deposit_events-Refines :
      (events : List DepositEvent) → Refines ext (process_deposit_events events)
  unfolding process_deposit_events acknowledge
  process_deposit_events-Refines events w =
      then_from (From w.db) (From w.db) (acknowledgements events) _ w
        (acknowledgements-Refines events w) acks (λ v h. h)
    where
      acks : (ids : List String) (v : World) → From w.db v → From w.db (acknowledge ids v).1
      acks [] v h = h
      acks (i ∷ is) v h = last_ignore (λ o. From w.db o.1) _ _ v h h
