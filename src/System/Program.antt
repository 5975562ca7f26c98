-- ===== src/System/Program.antt =====
-- All that the program's processes do to the database, as one list of operations: the handlers of
-- the market's HTTP server, the passes of its workers, the deposit events, the passes of the
-- userbot over posts, and the observer's events of Redis.
use telegram_ads_market.Common.{ℕ, ◌≡◌, sym, subst, String, Bool, true, Option, some, List, [], ◌∷◌}
use telegram_ads_market.Common.Int.{ℤ}
use telegram_ads_market.Entity.{Deal}
use telegram_ads_market.Signature.{expected_signature}
use telegram_ads_market.External.{External}
use telegram_ads_market.Lifecycle.Keys.{Keyed, Reach-Keyed, empty_db-Keyed}
use telegram_ads_market.Lifecycle.Sound.{HasPayouts, is_agreed}
use telegram_ads_market.Lifecycle.History.{empty_db, row_at, agreed_by_both}
use telegram_ads_market.Lifecycle.Step.{Reach, stays, Reach-trans}
use telegram_ads_market.Effects.{World}
use telegram_ads_market.DealService.{expire_timed_out_deposits, complete_confirmed_deals}
use telegram_ads_market.DealService.Refines.{
  expire_timed_out_deposits-Refines, complete_confirmed_deals-Refines,
}
use telegram_ads_market.Escrow.{
  DepositEvent, create_escrows, release_and_refund_escrows, process_deposit_events,
}
use telegram_ads_market.Escrow.Refines.{
  create_escrows-Refines, release_and_refund_escrows-Refines, process_deposit_events-Refines,
}
use telegram_ads_market.PostService.{
  settle_posts, run_deal_post_checker_once, run_deal_post_sender_once,
}
use telegram_ads_market.PostService.Settling.{settle_posts-Refines}
use telegram_ads_market.PostService.Checking.{run_deal_post_checker_once-Refines}
use telegram_ads_market.PostService.SenderSteps.{run_deal_post_sender_once-Refines}
use telegram_ads_market.Observer.Deposits.{Addresses}
use telegram_ads_market.Observer.KeyEvents.{KeyEvent, handle_key_events, handle_key_events-Refines}
use telegram_ads_market.Market.Prices.{PriceJson}
use telegram_ads_market.Market.Http.{PathId}
use telegram_ads_market.Market.DealHandlers.{
  CreateDealRequest, UpdateDealDraftRequest, handle_create_deal, handle_update_deal_draft,
  handle_sign_deal, handle_set_deal_payout_address, handle_reject_deal,
  handle_get_or_create_deal_chat_link, handle_get_deal, handle_list_deals_by_listing_id,
  handle_list_my_deals,
}
use telegram_ads_market.Market.ListingHandlers.{
  CreateListingRequest, UpdateListingRequest, handle_create_listing, handle_update_listing,
  handle_delete_listing,
}
use telegram_ads_market.Market.Users.{handle_set_wallet, handle_disconnect_wallet}
use telegram_ads_market.Market.Channels.{handle_refresh_channel, handle_get_channel_stats}
use telegram_ads_market.System.AccountHandlers.{
  handle_set_wallet-Refines, handle_disconnect_wallet-Refines, handle_refresh_channel-Refines,
  handle_get_channel_stats-Refines,
}
use telegram_ads_market.System.Handlers.{
  handle_create_deal-Refines, handle_update_deal_draft-Refines, handle_sign_deal-Refines,
  handle_set_deal_payout_address-Refines, handle_reject_deal-Refines, handle_get_deal-Refines,
  handle_list_deals_by_listing_id-Refines, handle_list_my_deals-Refines,
}
use telegram_ads_market.System.OtherHandlers.{
  handle_create_listing-Refines, handle_update_listing-Refines, handle_delete_listing-Refines,
  handle_get_or_create_deal_chat_link-Refines,
}

-- What the processes are configured with: the libraries, the amounts, the channels and the bot.
pub record Setting : Type 1 where
  pub ext : External
  pub json : PriceJson
  pub marshal_details : String → String → String
  pub marshal_categories : List String → String
  pub compute_escrow_amount : ℤ → ℤ
  pub get_amount_without_gas_and_commission : ℤ → ℤ
  pub is_known_channel : ℕ → Bool
  pub bot_username : String
  pub Channel : Type 0
  pub channels : ℕ → Option Channel

module _ (s : Setting) where
  -- A request bears the authenticated user, if any.
  pub data Operation : Type 0 where
    post_deal :
        Option ℕ
        → Option (CreateDealRequest s.ext s.json s.marshal_details s.compute_escrow_amount)
        → Operation
    patch_deal :
        Option ℕ
        → PathId
        → Option (UpdateDealDraftRequest s.ext s.json s.marshal_details s.compute_escrow_amount)
        → Operation
    post_sign post_reject post_chat_link get_deal get_listing_deals : Option ℕ → PathId → Operation
    get_my_deals delete_wallet : Option ℕ → Operation
    put_wallet : Option ℕ → Option String → Operation
    get_refresh get_stats : Option ℕ → PathId → Operation
    put_payout_address : Option ℕ → PathId → Option String → Operation
    post_listing : Option ℕ → Option CreateListingRequest → Operation
    patch_listing : Option ℕ → PathId → Option UpdateListingRequest → Operation
    delete_listing : Option ℕ → PathId → Operation
    escrow_worker payout_worker completed_worker passed_worker : Operation
    expiry_worker : ℕ → Operation
    deposit_worker : List DepositEvent → Operation
    post_sender post_checker : Operation
    redis_events : List KeyEvent → Addresses → Operation

  unfoldable pub perform : Operation → World → World
  perform (post_deal user body) w =
      (handle_create_deal s.ext s.json s.marshal_details s.compute_escrow_amount user body w).1
  perform (patch_deal user path body) w =
      (handle_update_deal_draft s.ext s.json s.marshal_details s.compute_escrow_amount user path
        body w).1
  perform (post_sign user path) w = (handle_sign_deal s.ext user path w).1
  perform (post_reject user path) w = (handle_reject_deal user path w).1
  perform (post_chat_link user path) w =
      (handle_get_or_create_deal_chat_link s.bot_username user path w).1
  perform (put_wallet user body) w = (handle_set_wallet user body w).1
  perform (delete_wallet user) w = (handle_disconnect_wallet user w).1
  perform (get_refresh user path) w = (handle_refresh_channel s.channels user path w).1
  perform (get_stats user path) w = (handle_get_channel_stats user path w).1
  perform (get_deal user path) w = (handle_get_deal user path w).1
  perform (get_listing_deals user path) w = (handle_list_deals_by_listing_id user path w).1
  perform (get_my_deals user) w = (handle_list_my_deals user w).1
  perform (put_payout_address user path body) w =
      (handle_set_deal_payout_address user path body w).1
  perform (post_listing user body) w =
      (handle_create_listing s.json s.marshal_categories user body w).1
  perform (patch_listing user path body) w =
      (handle_update_listing s.json s.marshal_categories user path body w).1
  perform (delete_listing user path) w = (handle_delete_listing user path w).1
  perform escrow_worker w = (create_escrows s.ext w).1
  perform payout_worker w =
      (release_and_refund_escrows s.ext s.get_amount_without_gas_and_commission w).1
  perform completed_worker w = (complete_confirmed_deals w).1
  perform passed_worker w = (settle_posts w).1
  perform (expiry_worker older_than) w = (expire_timed_out_deposits older_than w).1
  perform (deposit_worker events) w = (process_deposit_events events w).1
  perform post_sender w = (run_deal_post_sender_once s.ext s.is_known_channel w).1
  perform post_checker w = (run_deal_post_checker_once s.ext s.is_known_channel w).1
  perform (redis_events events addresses) w = (handle_key_events s.ext events addresses w).1

  -- One operation after the other.
  unfoldable pub run : List Operation → World → World
  run [] w = w
  run (o ∷ os) w = run os (perform o w)

  perform-Reach : (o : Operation) (w : World) → Keyed w.db → Reach s.ext w.db (perform o w).db
  unfolding perform
  perform-Reach (post_deal user body) w k =
      handle_create_deal-Refines s.ext s.json s.marshal_details s.compute_escrow_amount user body w
  perform-Reach (patch_deal user path body) w k =
      handle_update_deal_draft-Refines s.ext s.json s.marshal_details s.compute_escrow_amount user
        path body w
  perform-Reach (post_sign user path) w k = handle_sign_deal-Refines s.ext user path w
  perform-Reach (post_reject user path) w k = handle_reject_deal-Refines s.ext user path w
  perform-Reach (post_chat_link user path) w k =
      handle_get_or_create_deal_chat_link-Refines s.ext s.bot_username user path w
  perform-Reach (put_wallet user body) w k = handle_set_wallet-Refines s.ext user body w
  perform-Reach (delete_wallet user) w k = handle_disconnect_wallet-Refines s.ext user w
  perform-Reach (get_refresh user path) w k =
      handle_refresh_channel-Refines s.ext s.channels user path w
  perform-Reach (get_stats user path) w k = handle_get_channel_stats-Refines s.ext user path w
  perform-Reach (get_deal user path) w k = handle_get_deal-Refines s.ext user path w
  perform-Reach (get_listing_deals user path) w k =
      handle_list_deals_by_listing_id-Refines s.ext user path w
  perform-Reach (get_my_deals user) w k = handle_list_my_deals-Refines s.ext user w
  perform-Reach (put_payout_address user path body) w k =
      handle_set_deal_payout_address-Refines s.ext user path body w
  perform-Reach (post_listing user body) w k =
      handle_create_listing-Refines s.ext s.json s.marshal_categories user body w
  perform-Reach (patch_listing user path body) w k =
      handle_update_listing-Refines s.ext s.json s.marshal_categories user path body w
  perform-Reach (delete_listing user path) w k = handle_delete_listing-Refines s.ext user path w
  perform-Reach escrow_worker w k = create_escrows-Refines s.ext w
  perform-Reach payout_worker w k =
      release_and_refund_escrows-Refines s.ext s.get_amount_without_gas_and_commission w
  perform-Reach completed_worker w k = complete_confirmed_deals-Refines s.ext w
  perform-Reach passed_worker w k = settle_posts-Refines s.ext w k
  perform-Reach (expiry_worker older_than) w k =
      expire_timed_out_deposits-Refines s.ext older_than w
  perform-Reach (deposit_worker events) w k = process_deposit_events-Refines s.ext events w
  perform-Reach post_sender w k = run_deal_post_sender_once-Refines s.ext s.is_known_channel w k
  perform-Reach post_checker w k = run_deal_post_checker_once-Refines s.ext s.is_known_channel w k
  perform-Reach (redis_events events addresses) w k =
      handle_key_events-Refines s.ext events addresses w

  -- However the operations of all processes follow each other, and whatever fails in them, the
  -- database moves by lifecycle steps only, where the keys are distinct at first.
  pub run-Reach : (os : List Operation) (w : World) → Keyed w.db → Reach s.ext w.db (run os w).db
  unfolding run
  run-Reach [] w k = stays
  run-Reach (o ∷ os) w k =
      let first = perform-Reach o w k in
      Reach-trans s.ext first (run-Reach os (perform o w) (Reach-Keyed s.ext first k))

  -- Whatever the processes do from empty tables on, in any order and with any failures: a deal that is
  -- past draft and not rejected bears the signatures of both parties over its present terms, and
  -- both payout addresses are set.
  pub run_agrees_by_both :
      (os : List Operation) (w : World) (i : ℕ) (d : Deal)
      → w.db ≡ empty_db
      → row_at (run os w).db.deals i ≡ some d
      → is_agreed d.status ≡ true
      → (d.lessor_signature ≡ some (expected_signature s.ext d d.lessor_id))
        × (d.lessee_signature ≡ some (expected_signature s.ext d d.lessee_id))
        × HasPayouts d
  run_agrees_by_both os w i d from_empty at agreed =
      agreed_by_both s.ext i d
        (subst (λ b. Reach s.ext b (run os w).db) from_empty
          (run-Reach os w (subst Keyed (sym from_empty) (empty_db-Keyed s.ext))))
        at agreed
