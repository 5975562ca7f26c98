-- ===== src/Market/DealHandlers.antt =====
-- internal/market/application/market/http/deal.go: the handlers of deals, after the decoding of
-- their requests. A deal is answered as it is stored; the response's price in TON is computed apart.
use telegram_ads_market.Common.{
  ℕ, String, Bool, not, ◌&&◌, ◌||◌, Option, none, some, List, [], ◌∷◌, ◌==◌, ltb, if◌then◌else◌,
  select, is_none,
}
use telegram_ads_market.Common.Int.{ℤ, pos}
use telegram_ads_market.Common.Text.{str_eq}
use telegram_ads_market.Entity.{Deal, draft, bad_request, forbidden}
use telegram_ads_market.External.{External}
use telegram_ads_market.Tables.{Listing}
use telegram_ads_market.Repository.{Db}
use telegram_ads_market.Effects.{
  M, Done, Error, service_error, pure, ◌>>=◌, ◌>>◌, fail_if, or_raise, attempt, read, read_one,
  Result, ok, err,
}
use telegram_ads_market.DealService
use telegram_ads_market.DealService.{deal_with_id, get_deal_for_user}
use telegram_ads_market.Market.Prices.{
  PriceJson, deal_price_matches_listing, ton_to_nanoton, nanoton_to_ton,
}
use telegram_ads_market.Market.DealDetails.{validate_deal_details}
use telegram_ads_market.Market.Listings.{get_listing, listing_type_lessor, listing_type_lessee}
use telegram_ads_market.Market.Chat.{get_or_create_deal_forum_chat}
use telegram_ads_market.Market.Http.{
  served, served_or_empty, served_or_not_found, require_user_id, PathId, parse_path_id, decode_body,
}

-- `sides` of a new deal: the lessor and the lessee.
unfoldable pub resolve_lessor_lessee : Listing → ℕ → Option (ℕ × ℕ)
resolve_lessor_lessee listing user_id =
    if str_eq listing.type listing_type_lessor
    then some (listing.user_id, user_id)
    else if str_eq listing.type listing_type_lessee
    then some (user_id, listing.user_id)
    else none

unfoldable pub resolve_deal_channel_id : Listing → Option ℕ → Option (Option ℕ)
resolve_deal_channel_id listing requested =
    if str_eq listing.type listing_type_lessor
    then some listing.channel_id
    else if str_eq listing.type listing_type_lessee
    then elim requested [ none ↦ none | some c ↦ some (some c) ]
    else some none

abbrev pub bad : Error
bad = service_error bad_request

-- `ORDER BY updated_at DESC`
unfoldable pub insert_deal : Deal → List Deal → List Deal
insert_deal d [] = d ∷ []
insert_deal d (r ∷ rs) =
    let behind = r ∷ insert_deal d rs in
    if ltb d.updated_at r.updated_at then behind else d ∷ r ∷ rs

unfoldable pub latest_deals : List Deal → List Deal
unfolding insert_deal
latest_deals [] = []
latest_deals (d ∷ ds) = insert_deal d (latest_deals ds)

abbrev pub is_side : ℕ → Deal → Bool
is_side user_id d = (d.lessor_id == user_id) || (d.lessee_id == user_id)

unfoldable pub get_deals_by_listing_id_for_user : ℕ → ℕ → Db → List Deal
unfolding latest_deals
get_deals_by_listing_id_for_user listing_id user_id db =
    latest_deals (select (λ d. (d.listing_id == listing_id) && is_side user_id d) db.deals)

unfoldable pub list_deals_by_user_id : ℕ → Db → List Deal
unfolding latest_deals
list_deals_by_user_id user_id db = latest_deals (select (is_side user_id) db.deals)

unfoldable pub handle_get_deal : Option ℕ → PathId → M Deal
handle_get_deal user path = do
  user_id ← require_user_id user
  id ← parse_path_id path
  served_or_not_found (get_deal_for_user id user_id)

unfoldable pub handle_list_deals_by_listing_id : Option ℕ → PathId → M (List Deal)
handle_list_deals_by_listing_id user path = do
  user_id ← require_user_id user
  listing_id ← parse_path_id path
  served (read (get_deals_by_listing_id_for_user listing_id user_id))

unfoldable pub handle_list_my_deals : Option ℕ → M (List Deal)
handle_list_my_deals user = do
  user_id ← require_user_id user
  served (read (list_deals_by_user_id user_id))

-- The deal after a change; its error is an answer.
abbrev pub updated_deal : ℕ → M (Option Deal)
updated_deal id = served (read_one (deal_with_id id))

abbrev pub or_nothing : Result (Option Deal) → Option Deal
or_nothing (ok d) = d
or_nothing (err e) = none

-- `updated, _ := h.dealService.GetDeal(...)`
unfoldable pub updated_or_nothing : ℕ → M (Option Deal)
updated_or_nothing id = do r ← attempt (read_one (deal_with_id id)); pure (or_nothing r)

unfoldable pub handle_sign_deal : External → Option ℕ → PathId → M (Option Deal)
handle_sign_deal ext user path = do
  user_id ← require_user_id user
  id ← parse_path_id path
  served (DealService.sign_deal ext user_id id)
  updated_deal id

unfoldable pub handle_set_deal_payout_address : Option ℕ → PathId → Option String → M (Option Deal)
handle_set_deal_payout_address user path body = do
  user_id ← require_user_id user
  id ← parse_path_id path
  wallet_address ← decode_body body
  fail_if (str_eq wallet_address "") bad
  served (DealService.set_deal_payout_address user_id id wallet_address)
  updated_or_nothing id

unfoldable pub handle_reject_deal : Option ℕ → PathId → M (Option Deal)
handle_reject_deal user path = do
  user_id ← require_user_id user
  id ← parse_path_id path
  served (DealService.reject_deal user_id id)
  updated_deal id

unfoldable pub handle_get_or_create_deal_chat_link : String → Option ℕ → PathId → M String
handle_get_or_create_deal_chat_link bot user path = do
  user_id ← require_user_id user
  id ← parse_path_id path
  served (get_or_create_deal_forum_chat bot id user_id)

module _ (ext : External) (json : PriceJson) (marshal_details : String → String → String)
    (compute_escrow_amount : ℤ → ℤ) where
  pub record CreateDealRequest : Type 0 where
    pub listing_id : ℕ
    pub channel_id : Option ℕ
    pub type : String
    pub duration : ℤ
    pub price : json.Float
    pub details : Option String

  pub record UpdateDealDraftRequest : Type 0 where
    pub type : Option String
    pub duration : Option ℤ
    pub price : Option json.Float
    pub details : Option String

  -- The price of DealToResponse.
  unfoldable pub deal_price_to_response : Deal → json.Float
  deal_price_to_response d = nanoton_to_ton json d.price

  abbrev pub details_or_empty : Option String → String
  details_or_empty none = "{}"
  details_or_empty (some d) = d

  unfoldable pub build_deal_from_create_request :
      CreateDealRequest → ℕ × ℕ → Option ℕ → String → Deal
  build_deal_from_create_request req (lessor_id, lessee_id) channel_id details = record {
    id = 0;
    listing_id = req.listing_id;
    lessor_id = lessor_id;
    lessee_id = lessee_id;
    channel_id = channel_id;
    type = req.type;
    duration = req.duration;
    price = ton_to_nanoton json req.price;
    escrow_amount = pos 0;
    details = details;
    lessor_signature = none;
    lessee_signature = none;
    status = draft;
    escrow_address = none;
    escrow_release_time = none;
    lessor_payout_address = none;
    lessee_payout_address = none;
    created_at = 0;
    updated_at = 0;
  }

  unfoldable pub handle_create_deal : Option ℕ → Option CreateDealRequest → M Deal
  handle_create_deal user body = do
    user_id ← require_user_id user
    req ← decode_body body
    listing ← served_or_not_found (get_listing req.listing_id)
    fail_if (listing.user_id == user_id) (service_error forbidden)
    fail_if
        (not (
          deal_price_matches_listing json listing.prices req.type req.duration
            (ton_to_nanoton json req.price)))
        bad
    sides ← or_raise (resolve_lessor_lessee listing user_id) bad
    channel_id ← or_raise (resolve_deal_channel_id listing req.channel_id) bad
    details ←
        or_raise (validate_deal_details ext marshal_details (details_or_empty req.details)) bad
    served (
        DealService.create_deal compute_escrow_amount
          (build_deal_from_create_request req sides channel_id details) listing.user_id)

  abbrev pub given : {A : Type 0} → Option A → A → A
  given none a = a
  given (some b) a = b

  abbrev pub new_price : Option json.Float → ℤ → ℤ
  new_price none price = price
  new_price (some p) price = ton_to_nanoton json p

  abbrev pub new_details : Option String → String → Option String
  new_details none details = some details
  new_details (some d) details = validate_deal_details ext marshal_details d

  -- The draft with the fields of the request; nothing where the details are invalid.
  unfoldable pub apply_update_deal_draft_request : Deal → ℕ → UpdateDealDraftRequest → Option Deal
  apply_update_deal_draft_request existing id req =
      elim (new_details req.details existing.details) [
        | none ↦ none
        | some details ↦ some (record existing {
          id = id;
          type = given req.type existing.type;
          duration = given req.duration existing.duration;
          price = new_price req.price existing.price;
          details = details;
        })
      ]

  abbrev pub keeps_terms : UpdateDealDraftRequest → Bool
  keeps_terms req = is_none req.type && is_none req.duration && is_none req.price

  unfoldable pub validate_deal_price_matches_listing : Deal → Deal → UpdateDealDraftRequest → M Done
  validate_deal_price_matches_listing existing d req = if keeps_terms req then pure tt else do
    listing ← served_or_not_found (get_listing existing.listing_id)
    fail_if (not (deal_price_matches_listing json listing.prices d.type d.duration d.price)) bad

  unfoldable pub handle_update_deal_draft :
      Option ℕ → PathId → Option UpdateDealDraftRequest → M (Option Deal)
  handle_update_deal_draft user path body = do
    user_id ← require_user_id user
    id ← parse_path_id path
    existing ← served_or_empty (read_one (deal_with_id id))
    req ← decode_body body
    d ← or_raise (apply_update_deal_draft_request existing id req) bad
    validate_deal_price_matches_listing existing d req
    served (DealService.update_deal_draft compute_escrow_amount user_id d)
    updated_or_nothing id
