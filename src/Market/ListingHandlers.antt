-- ===== src/Market/ListingHandlers.antt =====
-- internal/market/application/market/http/listing.go: the handlers of listings, after the decoding
-- of their requests. A text that is empty stands for a JSON value that the request leaves out.
use telegram_ads_market.Common.{
  ℕ, String, Bool, true, not, ◌&&◌, Option, none, some, List, [], ◌∷◌, if◌then◌else◌,
}
use telegram_ads_market.Common.Text.{str_eq}
use telegram_ads_market.Entity.{bad_request}
use telegram_ads_market.Tables.{Listing}
use telegram_ads_market.Effects.{
  M, Done, Error, service_error, Result, ok, err, pure, ◌>>=◌, ◌>>◌, fail_if, or_raise, attempt,
}
use telegram_ads_market.Market.Prices.{
  PriceJson, validate_listing_prices, validate_listing_categories,
  convert_listing_prices_ton_to_nanoton, convert_listing_prices_nanoton_to_ton,
}
use telegram_ads_market.Market.Listings.{
  get_listing, create_listing, update_listing, delete_listing, list_listings_by_user_id,
  listing_status_inactive,
}
use telegram_ads_market.Market.Http.{
  served, served_or_empty, served_or_not_found, require_user_id, PathId, parse_path_id, decode_body,
}

abbrev bad : Error
bad = service_error bad_request

pub record CreateListingRequest : Type 0 where
  pub status : String
  pub channel_id : Option ℕ
  pub type : String
  pub prices : String
  pub categories : List String
  pub description : String

pub record UpdateListingRequest : Type 0 where
  pub status : Option String
  pub type : Option String
  pub prices : String
  pub categories : Option (List String)
  pub description : Option String

abbrev pub given : String → Option String → String
given old none = old
given old (some new) = new

module _ (json : PriceJson) (marshal_categories : List String → String) where
  abbrev pub raw_or_empty : Option String → String
  raw_or_empty none = ""
  raw_or_empty (some raw) = raw

  -- What is answered: the prices in TON, and none where they cannot be decoded.
  unfoldable pub listing_with_prices_in_ton : Listing → Listing
  listing_with_prices_in_ton l = record l {
    prices = raw_or_empty (convert_listing_prices_nanoton_to_ton json l.prices);
  }

  unfoldable pub categories_to_raw : List String → String
  categories_to_raw [] = "[]"
  categories_to_raw (c ∷ cs) = marshal_categories (c ∷ cs)

  abbrev pub categories_valid : Option (List String) → Bool
  categories_valid none = true
  categories_valid (some cs) = validate_listing_categories cs

  -- The prices of a request in nanotons; the old ones where it gives none.
  abbrev pub new_prices : String → String → Option String
  new_prices old raw =
      if str_eq raw "" then some old else convert_listing_prices_ton_to_nanoton json raw

  abbrev pub new_categories : String → Option (List String) → String
  new_categories old none = old
  new_categories old (some cs) = categories_to_raw cs

  unfoldable pub merge_listing_with_update : Listing → ℕ → UpdateListingRequest → Option Listing
  merge_listing_with_update existing id req =
      if not (validate_listing_prices json req.prices && categories_valid req.categories)
      then none
      else elim (new_prices existing.prices req.prices) [
        | none ↦ none
        | some prices ↦ some (record existing {
          id = id;
          status = given existing.status req.status;
          type = given existing.type req.type;
          prices = prices;
          categories = new_categories existing.categories req.categories;
          description = given existing.description req.description;
        })
      ]

  abbrev pub new_listing : CreateListingRequest → String → Listing
  new_listing req prices = record {
    id = 0;
    status = if str_eq req.status "" then listing_status_inactive else req.status;
    user_id = 0;
    channel_id = req.channel_id;
    type = req.type;
    prices = prices;
    categories = categories_to_raw req.categories;
    description = req.description;
    created_at = 0;
    updated_at = 0;
  }

  unfoldable pub handle_create_listing : Option ℕ → Option CreateListingRequest → M Listing
  handle_create_listing user body = do
    user_id ← require_user_id user
    req ← decode_body body
    fail_if (not (validate_listing_prices json req.prices)) bad
    fail_if (not (validate_listing_categories req.categories)) bad
    prices ← or_raise (convert_listing_prices_ton_to_nanoton json req.prices) bad
    l ← served (create_listing user_id (new_listing req prices))
    pure (listing_with_prices_in_ton l)

  unfoldable pub handle_get_listing : PathId → M Listing
  handle_get_listing path = do
    id ← parse_path_id path
    l ← served_or_not_found (get_listing id)
    pure (listing_with_prices_in_ton l)

  abbrev pub all_in_ton : List Listing → List Listing
  all_in_ton [] = []
  all_in_ton (l ∷ ls) = listing_with_prices_in_ton l ∷ all_in_ton ls

  unfoldable pub handle_list_my_listings : Option ℕ → Option String → M (List Listing)
  handle_list_my_listings user typ = do
    user_id ← require_user_id user
    list ← served (list_listings_by_user_id user_id typ)
    pure (all_in_ton list)

  abbrev pub in_ton_or_nothing : Result (Option Listing) → Option Listing
  in_ton_or_nothing (ok (some l)) = some (listing_with_prices_in_ton l)
  in_ton_or_nothing (ok none) = none
  in_ton_or_nothing (err e) = none

  unfoldable pub handle_update_listing :
      Option ℕ → PathId → Option UpdateListingRequest → M (Option Listing)
  handle_update_listing user path body = do
    user_id ← require_user_id user
    id ← parse_path_id path
    existing ← served_or_empty (get_listing id)
    req ← decode_body body
    l ← or_raise (merge_listing_with_update existing id req) bad
    served (update_listing user_id l)
    updated ← attempt (get_listing id)
    pure (in_ton_or_nothing updated)

unfoldable pub handle_delete_listing : Option ℕ → PathId → M Done
handle_delete_listing user path = do
  user_id ← require_user_id user
  id ← parse_path_id path
  served (delete_listing user_id id)
