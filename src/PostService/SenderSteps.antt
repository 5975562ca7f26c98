-- ===== src/PostService/SenderSteps.antt =====
-- Whatever becomes of its calls, the sender of posts moves the database by lifecycle steps only.
use telegram_ads_market.Common.{
  ℕ, ◌<◌, ◌≡◌, refl, inr, String, Bool, true, Option, none, some, List, [], ◌∷◌, ◌&&◌,
  if◌then◌else◌, exists, All, All-map, All-zip, arith,
}
use telegram_ads_market.Entity.{
  Deal, DealActionLock, DealActionLockStatus, DealActionType, post_message, is_status,
  escrow_deposit_confirmed,
}
use telegram_ads_market.External.{External}
use telegram_ads_market.Repository.{Db}
use telegram_ads_market.Repository.Deals
use telegram_ads_market.Repository.Locks.{insert_lock}
use telegram_ads_market.Repository.Deals.{is_for_deal}
use telegram_ads_market.Lifecycle.Step.{Reach, stays, AwaitsPost}
use telegram_ads_market.Lifecycle.Keys.{Keyed}
use telegram_ads_market.Lifecycle.Unique.{unique, unkey, All-selected}
use telegram_ads_market.Effects.{
  World, Result, ok, err, ChannelMessage, arrive, for_each, ignore, ◌>>=◌, query, time_now,
}
use telegram_ads_market.Effects.Laws.{
  call_cases, then_query, then_found, then_fail_if, then_or_raise, transaction_cases,
}
use telegram_ads_market.Effects.Steps.{then_does}
use telegram_ads_market.Escrow.{take_deal_action_lock, release_lock}
use telegram_ads_market.Escrow.Laws.{
  then_from, then_attempt, then_ignored, call_keeps, holding_keeps,
}
use telegram_ads_market.PostService.Recording
use telegram_ads_market.PostService.Recording.{Ready, Advances, Advances-refl, Advances-trans}
use telegram_ads_market.Market.Listings.{get_listing}
use telegram_ads_market.PostService.Operations.{
  post_of, create_deal_post_message, send_channel_message, try_recover_post, send_under_lock,
  record_recovered, after_search, send_or_recover, send_deal_post, run_deal_post_sender_once,
}

module _ (ext : External) where
  -- From a database on, every step is one of the lifecycle, and the deals that waited for a post
  -- still do.
  abbrev From : Db → World → Type 0
  From db v = Advances ext db v.db

  lock_keeps :
      (db : Db) (deal_id : ℕ) (action : DealActionType) (w : World)
      → From db w
      → From db (take_deal_action_lock deal_id action w).1
  unfolding take_deal_action_lock
  lock_keeps db deal_id action w h = transaction_cases (Advances ext db) _ w h (
      then_query Gone _ _ _
        (then_fail_if Gone _ _ _ _ (λ _. h)
          (λ _.
            then_does Gone (λ v. v.now) (λ v. v) _ _
              (call_cases Gone _ _ _ (taken _ _) h (taken _ _))))
        h)
    where
      Gone : {A : Type 0} → Result A × World → Type 0
      Gone o = Advances ext db o.1.db

      taken : (expire_at now : ℕ) → Advances ext db (insert_lock deal_id action expire_at now w.db)
      taken expire_at now =
          Advances-trans ext h (Recording.lock_taken ext deal_id expire_at now action w.db)

  release_keeps :
      (db : Db) (lock_id : ℕ) (s : DealActionLockStatus) (v : World)
      → From db v
      → From db (release_lock lock_id s v).1
  release_keeps db lock_id s v h =
      call_keeps (From db) _ _ v
        (Advances-trans ext h (Recording.lock_released ext lock_id _ s v.db)) h

  module _ (deal : Deal) (channel : ℕ) (text : String) (db : Db) (r : Ready deal.id db) where
    records :
        (message now : ℕ) (v : World)
        → From db v
        → From db (create_deal_post_message (post_of deal channel message text now) v).1
    records message now v h =
        Advances-trans ext h (Recording.create_advances ext _ v refl (h.ready deal.id r))

    send_keeps : (w : World) → From db w → From db (send_under_lock deal channel text w).1
    unfolding send_under_lock send_channel_message
    send_keeps w h =
        then_from (From db) (From db) (take_deal_action_lock deal.id post_message) _ w
          (lock_keeps db deal.id post_message w h)
          (λ lock_id v i.
            holding_keeps (From db) (From db) lock_id _ v
              (then_from (From db) (From db) (send_channel_message channel text) _ v
                (call_keeps (From db) _ _ v i i)
                (λ message x j.
                  then_from (From db) (From db) time_now _ x j (λ now y k. records message now y k)
                    (λ y k. k))
                (λ x j. j))
              (release_keeps db lock_id))
          (λ v i. i)

    after_search_keeps :
        (lock_id : ℕ) (found : Result (Option ChannelMessage)) (w : World)
        → From db w
        → From db (after_search deal channel text lock_id found w).1
    unfolding after_search record_recovered
    after_search_keeps lock_id (ok (some m)) w h =
        then_from (From db) (From db) time_now _ w h
          (λ now x i.
            holding_keeps (From db) (From db) lock_id _ x (records m.message_id now x i)
              (release_keeps db lock_id))
          (λ x i. i)
    after_search_keeps lock_id (ok none) w h =
        then_ignored (From db) (From db) _ _ w
          (release_keeps db lock_id DealActionLockStatus.failed w h) send_keeps
    after_search_keeps lock_id (err e) w h =
        then_ignored (From db) (From db) _ _ w
          (release_keeps db lock_id DealActionLockStatus.failed w h) send_keeps

    send_or_recover_keeps :
        (l : Option DealActionLock) (w : World)
        → From db w
        → From db (send_or_recover deal channel text l w).1
    unfolding send_or_recover try_recover_post
    send_or_recover_keeps none w h = send_keeps w h
    send_or_recover_keeps (some l) w h =
        then_attempt (From db) (From db) (try_recover_post channel text) _ w
          (then_from (From db) (From db) (query _) _ w (call_keeps (From db) _ (λ x. x) w h h)
            (λ history x i. i) (λ x i. i))
          (λ found x i. after_search_keeps l.id found x i)

  module _ (is_known_channel : ℕ → Bool) where
    send_deal_post_keeps :
        (deal : Deal) (w : World)
        → Ready deal.id w.db
        → From w.db (send_deal_post ext is_known_channel deal w).1
    unfolding send_deal_post get_listing
    send_deal_post_keeps deal w r =
        then_found Gone _ _ w
          (λ listing row.
            then_or_raise Gone _ _ _ _ (λ _. same)
              (λ channel listed.
                then_query Gone _ _ _
                  (then_fail_if Gone _ _ _ _ (λ _. same)
                    (λ known.
                      then_fail_if Gone _ _ _ _ (λ _. same)
                        (λ set. then_does Gone _ _ _ _ (
                          then_fail_if Gone _ _ _ _ (λ _. same)
                            (λ _.
                              then_query Gone _ _ _
                                (then_does Gone _ _ _ _
                                  (send_or_recover_keeps deal channel _ w.db r _ _ same))
                                same)))))
                  same))
          same
      where
        Gone : {A : Type 0} → Result A × World → Type 0
        Gone o = Advances ext w.db o.1.db

        same : Advances ext w.db w.db
        same = Advances-refl ext w.db

    -- A deal of the list is ready when its turn comes.
    each_keeps :
        (ds : List Deal) (w : World)
        → All (λ d. Ready d.id w.db) ds
        → From w.db (for_each ds (send_deal_post ext is_known_channel) w).1
    unfolding for_each ◌>>=◌ ignore
    each_keeps [] w r = Advances-refl ext w.db
    each_keeps (d ∷ ds) w r =
        let sent = send_deal_post_keeps d w r.0 in
        Advances-trans ext sent (
          each_keeps ds (send_deal_post ext is_known_channel d w).1
            (All-map _ _ (λ e. sent.ready e.id) ds r.1))

    waiting : Db → Deal → Bool
    waiting db d =
        is_status d.status escrow_deposit_confirmed
        && (if exists (is_for_deal d.id) db.posts then Bool.false else Bool.true)

    listed-Ready :
        (db : Db)
        → Keyed db
        → All
            (λ d. Ready d.id db)
            (Deals.list_deals_escrow_deposit_confirmed_without_post_message db)
    unfolding Deals.list_deals_escrow_deposit_confirmed_without_post_message waiting
    listed-Ready db k =
        All-map (λ d. (waiting db d ≡ true) × Before d) (λ d. Ready d.id db)
          (λ d h. record { below = h.1.0; waits = inr (h.1.1 (ground (arith, h.0))) }) _
          (All-selected (λ d. d.id) Before (waiting db) db.deals
            (All-zip _ _ _ (λ d b u. (b, u)) db.deals
              (unkey (λ d. d.id) (λ n. n < db.next_deal) db.deals k.deals.below)
              (unique (λ d. d.id) (λ d. is_status d.status escrow_deposit_confirmed ≡ true) db.deals
                k.deals.distinct)))
      where
        Before : Deal → Type 0
        Before d =
            (d.id < db.next_deal)
            × (is_status d.status escrow_deposit_confirmed ≡ true → AwaitsPost d.id db.deals)

    -- Whatever fails, a pass of the sender over the deals without a post takes lifecycle steps only,
    -- where the keys are distinct.
    pub run_deal_post_sender_once-Refines :
        (w : World)
        → Keyed w.db
        → Reach ext w.db (run_deal_post_sender_once ext is_known_channel w).1.db
    unfolding run_deal_post_sender_once
    run_deal_post_sender_once-Refines w k =
        then_query Gone _ _ w (each_keeps _ (arrive w) (listed-Ready w.db k)).went stays
      where
        Gone : {A : Type 0} → Result A × World → Type 0
        Gone o = Reach ext w.db o.1.db
