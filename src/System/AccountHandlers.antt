-- ===== src/System/AccountHandlers.antt =====
-- The HTTP handlers of wallets and of channels leave the deals alone.
use telegram_ads_market.Common.{ℕ, refl, String, Bool, true, false, Option}
use telegram_ads_market.External.{External}
use telegram_ads_market.Lifecycle.Step.{stays}
use telegram_ads_market.Effects.{Result, ok, err, attempt, stats_refresh_too_soon, time_now}
use telegram_ads_market.DealService.Refines.{Refines}
use telegram_ads_market.Market.Http.{PathId}
use telegram_ads_market.Market.Listings.{
  is_channel_admin, require_channel_admin, is_channel_has_active_listing,
}
use telegram_ads_market.Market.Users.{
  set_user_wallet, clear_user_wallet, set_wallet, clear_wallet, handle_set_wallet,
  handle_disconnect_wallet,
}
use telegram_ads_market.Market.Channels.{
  read_channel_stats, handle_raw_stats_requested_at, upsert_channel_stats, merge_stats_requested_at,
  add_channel_update_stats_event, request_stats_refresh, answer_refresh, handle_refresh_channel,
  require_listed, get_channel_stats, handle_get_channel_stats,
}
use telegram_ads_market.System.Combine.{
  then-Refines, call-Refines, query-Refines, fail_if-Refines, or_raise-Refines, read_one-Refines,
  served-Refines, served_or_not_found-Refines, require_user_id-Refines, parse_path_id-Refines,
  decode_body-Refines,
}

module _ (ext : External) where
  pub handle_set_wallet-Refines :
      (user : Option ℕ) (body : Option String) → Refines ext (handle_set_wallet user body)
  unfolding handle_set_wallet set_wallet set_user_wallet
  handle_set_wallet-Refines user body =
      then-Refines ext _ _ (require_user_id-Refines ext user) (λ u.
        then-Refines ext _ _ (decode_body-Refines ext body) (λ wallet.
          then-Refines ext _ _ (fail_if-Refines ext _ _) (λ _. served-Refines ext _ (
            then-Refines ext _ _ (fail_if-Refines ext _ _)
              (λ _. call-Refines ext _ _ (λ v. refl))))))

  pub handle_disconnect_wallet-Refines :
      (user : Option ℕ) → Refines ext (handle_disconnect_wallet user)
  unfolding handle_disconnect_wallet clear_wallet clear_user_wallet
  handle_disconnect_wallet-Refines user =
      then-Refines ext _ _ (require_user_id-Refines ext user)
        (λ u. served-Refines ext _ (call-Refines ext _ _ (λ v. refl)))

  module _ {Channel : Type 0} (channels : ℕ → Option Channel) where
    request_stats_refresh-Refines :
        (channel_id user_id : ℕ) → Refines ext (request_stats_refresh channels channel_id user_id)
    unfolding request_stats_refresh require_channel_admin is_channel_admin read_channel_stats
        handle_raw_stats_requested_at merge_stats_requested_at upsert_channel_stats
        add_channel_update_stats_event
    request_stats_refresh-Refines channel_id user_id =
        then-Refines ext _ _
          (then-Refines ext _ _ (query-Refines ext _) (λ ok. fail_if-Refines ext _ _))
          (λ _. then-Refines ext _ _ (query-Refines ext _) (λ ch.
            then-Refines ext time_now _ (λ w. stays)
              (λ now. then-Refines ext _ _ (read_one-Refines ext _) (λ raw.
                then-Refines ext _ _ (fail_if-Refines ext _ _) (λ _.
                  then-Refines ext _ _
                    (then-Refines ext _ _ (read_one-Refines ext _) (λ _.
                      then-Refines ext _ _ (fail_if-Refines ext _ _)
                        (λ _. call-Refines ext _ _ (λ v. refl))))
                    (λ _.
                      then-Refines ext _ _ (call-Refines ext _ _ (λ v. refl)) (λ _ w. stays)))))))

    answer_refresh-Refines : (r : Result (Option Channel)) → Refines ext (answer_refresh r)
    unfolding answer_refresh
    answer_refresh-Refines (ok a) = or_raise-Refines ext a _
    answer_refresh-Refines (err stats_refresh_too_soon) = λ w. stays
    answer_refresh-Refines (err e) = λ w. stays

    pub handle_refresh_channel-Refines :
        (user : Option ℕ) (path : PathId) → Refines ext (handle_refresh_channel channels user path)
    unfolding handle_refresh_channel
    handle_refresh_channel-Refines user path =
        then-Refines ext _ _ (require_user_id-Refines ext user) (λ u.
          then-Refines ext _ _ (parse_path_id-Refines ext path) (λ id.
            then-Refines ext (attempt (request_stats_refresh channels id u)) _
              (request_stats_refresh-Refines id u) answer_refresh-Refines))

  require_listed-Refines :
      (admin : Bool) (channel_id : ℕ) → Refines ext (require_listed admin channel_id)
  unfolding require_listed is_channel_has_active_listing
  require_listed-Refines true channel_id = λ w. stays
  require_listed-Refines false channel_id =
      then-Refines ext _ _ (query-Refines ext _) (λ listed. fail_if-Refines ext _ _)

  pub handle_get_channel_stats-Refines :
      (user : Option ℕ) (path : PathId) → Refines ext (handle_get_channel_stats user path)
  unfolding handle_get_channel_stats get_channel_stats is_channel_admin read_channel_stats
  handle_get_channel_stats-Refines user path =
      then-Refines ext _ _ (require_user_id-Refines ext user) (λ u.
        then-Refines ext _ _ (parse_path_id-Refines ext path) (λ id.
          served_or_not_found-Refines ext _ (
            then-Refines ext _ _ (query-Refines ext _) (λ admin.
              then-Refines ext _ _ (require_listed-Refines admin id)
                (λ _. read_one-Refines ext _)))))
