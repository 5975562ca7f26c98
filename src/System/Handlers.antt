-- ===== src/System/Handlers.antt =====
-- The HTTP handlers of deals take lifecycle steps only.
use telegram_ads_market.Common.{ℕ, refl, String, Option, none, some, if◌then◌else◌}
use telegram_ads_market.Common.Int.{ℤ}
use telegram_ads_market.Entity.{Deal}
use telegram_ads_market.External.{External}
use telegram_ads_market.Lifecycle.Step
use telegram_ads_market.Repository.{Db}
use telegram_ads_market.Lifecycle.Step.{Reach, stays, goes}
use telegram_ads_market.Effects.{pure}
use telegram_ads_market.DealService
use telegram_ads_market.DealService.{deal_with_id, is_stranger}
use telegram_ads_market.DealService.Refines.{
  Refines, sign_deal-Refines, reject_deal-Refines, set_deal_payout_address-Refines,
}
use telegram_ads_market.Market.Prices.{PriceJson}
use telegram_ads_market.Market.Http.{PathId}
use telegram_ads_market.Market.DealHandlers.{
  updated_or_nothing, handle_sign_deal, handle_get_deal, handle_list_deals_by_listing_id,
  handle_list_my_deals, handle_set_deal_payout_address, handle_reject_deal, CreateDealRequest,
  UpdateDealDraftRequest, handle_create_deal, handle_update_deal_draft,
}
use telegram_ads_market.Market.DealLaws.{
  Created, no_deal, one_deal, handle_create_deal_follows_listing,
}
use telegram_ads_market.Market.DraftLaws.{
  Edited, no_edit, one_edit, handle_update_deal_draft_follows_listing,
}
use telegram_ads_market.System.Combine.{
  then-Refines, query-Refines, fail_if-Refines, read_one-Refines, served-Refines,
  served_or_not_found-Refines, require_user_id-Refines, parse_path_id-Refines, decode_body-Refines,
}

module _ (ext : External) where
  updated_or_nothing-Refines : (id : ℕ) → Refines ext (updated_or_nothing id)
  unfolding updated_or_nothing
  updated_or_nothing-Refines id =
      then-Refines ext _ _ (read_one-Refines ext (deal_with_id id)) (λ r w. stays)

  pub handle_sign_deal-Refines :
      (user : Option ℕ) (path : PathId) → Refines ext (handle_sign_deal ext user path)
  unfolding handle_sign_deal
  handle_sign_deal-Refines user path = then-Refines ext _ _ (require_user_id-Refines ext user) (λ u.
      then-Refines ext _ _ (parse_path_id-Refines ext path) (λ id.
        then-Refines ext _ _ (served-Refines ext _ (sign_deal-Refines ext u id))
          (λ _. served-Refines ext _ (read_one-Refines ext (deal_with_id id)))))

  pub handle_reject_deal-Refines :
      (user : Option ℕ) (path : PathId) → Refines ext (handle_reject_deal user path)
  unfolding handle_reject_deal
  handle_reject_deal-Refines user path =
      then-Refines ext _ _ (require_user_id-Refines ext user) (λ u.
        then-Refines ext _ _ (parse_path_id-Refines ext path) (λ id.
          then-Refines ext _ _ (served-Refines ext _ (reject_deal-Refines ext u id))
            (λ _. served-Refines ext _ (read_one-Refines ext (deal_with_id id)))))

  pub handle_set_deal_payout_address-Refines :
      (user : Option ℕ) (path : PathId) (body : Option String)
      → Refines ext (handle_set_deal_payout_address user path body)
  unfolding handle_set_deal_payout_address
  handle_set_deal_payout_address-Refines user path body =
      then-Refines ext _ _ (require_user_id-Refines ext user) (λ u.
        then-Refines ext _ _ (parse_path_id-Refines ext path) (λ id.
          then-Refines ext _ _ (decode_body-Refines ext body) (λ wallet.
            then-Refines ext _ _ (fail_if-Refines ext _ _) (λ _.
              then-Refines ext _ _
                (served-Refines ext _ (set_deal_payout_address-Refines ext u id wallet))
                (λ _. updated_or_nothing-Refines id)))))

  get_deal_for_user-Refines :
      (id user_id : ℕ) → Refines ext (DealService.get_deal_for_user id user_id)
  unfolding DealService.get_deal_for_user
  get_deal_for_user-Refines id user_id =
      then-Refines ext _ _ (read_one-Refines ext (deal_with_id id)) answers
    where
      answers :
          (d : Option Deal)
          → Refines ext {A = Option Deal} (elim d [
            | none ↦ pure none
            | some e ↦ pure (if is_stranger user_id e then none else some e)
          ])
      answers none = λ w. stays
      answers (some e) = λ w. stays

  pub handle_get_deal-Refines :
      (user : Option ℕ) (path : PathId) → Refines ext (handle_get_deal user path)
  unfolding handle_get_deal
  handle_get_deal-Refines user path = then-Refines ext _ _ (require_user_id-Refines ext user) (λ u.
      then-Refines ext _ _ (parse_path_id-Refines ext path)
        (λ id. served_or_not_found-Refines ext _ (get_deal_for_user-Refines id u)))

  pub handle_list_deals_by_listing_id-Refines :
      (user : Option ℕ) (path : PathId) → Refines ext (handle_list_deals_by_listing_id user path)
  unfolding handle_list_deals_by_listing_id
  handle_list_deals_by_listing_id-Refines user path =
      then-Refines ext _ _ (require_user_id-Refines ext user) (λ u.
        then-Refines ext _ _ (parse_path_id-Refines ext path)
          (λ id. served-Refines ext _ (query-Refines ext _)))

  pub handle_list_my_deals-Refines : (user : Option ℕ) → Refines ext (handle_list_my_deals user)
  unfolding handle_list_my_deals
  handle_list_my_deals-Refines user =
      then-Refines ext _ _ (require_user_id-Refines ext user)
        (λ u. served-Refines ext _ (query-Refines ext _))

  module _ (json : PriceJson) (marshal_details : String → String → String) (compute : ℤ → ℤ) where
    pub handle_create_deal-Refines :
        (user : Option ℕ) (body : Option (CreateDealRequest ext json marshal_details compute))
        → Refines ext (handle_create_deal ext json marshal_details compute user body)
    handle_create_deal-Refines user body w =
        go (handle_create_deal_follows_listing ext json marshal_details compute user body w)
      where
        go : {db : Db} → Created ext json marshal_details compute user body w db → Reach ext w.db db
        go no_deal = stays
        go (one_deal user_id now req listing sides channel_id details _ _ _ _ _ _) =
            goes stays (Step.creates _ now w.db refl)

    pub handle_update_deal_draft-Refines :
        (user : Option ℕ) (path : PathId)
        (body : Option (UpdateDealDraftRequest ext json marshal_details compute))
        → Refines ext (handle_update_deal_draft ext json marshal_details compute user path body)
    handle_update_deal_draft-Refines user path body w =
        go (
          handle_update_deal_draft_follows_listing ext json marshal_details compute user path body
            w)
      where
        go :
            {db : Db}
            → Edited ext json marshal_details compute user path body w db
            → Reach ext w.db db
        go no_edit = stays
        go (one_edit user_id id now req existing d _ _ _ _ _ _ _ _) =
            goes stays (Step.edits _ now w.db)
