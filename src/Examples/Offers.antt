-- ===== src/Examples/Offers.antt =====
-- A listing, a request for a deal, and the users around them.
use telegram_ads_market.Common.{
  ℕ, ◌*◌, ◌/◌, ◌≡◌, ◌⊎◌, String, true, false, none, some, List, [], ◌∷◌, if◌then◌else◌,
}
use mathlib.Core.Logic.{◌↔◌}
use telegram_ads_market.Common.Int.{ℤ, pos, pos_part}
use telegram_ads_market.Common.Text.{str_eq, ◌<>◌}
use telegram_ads_market.Entity.{draft}
use telegram_ads_market.Effects.{World}
use telegram_ads_market.Market.Prices.{PriceJson, text, number, deal_price_matches_listing}
use telegram_ads_market.Market.PriceLaws.{IsOffered, deal_price_matches_listing-iff-IsOffered}
use telegram_ads_market.Market.Channels.{request_stats_refresh}
use telegram_ads_market.Market.ChannelLaws.{MayAsk, refresh_needs_admin_and_time}
use telegram_ads_market.Market.Http.{PathId}
use telegram_ads_market.Market.DealHandlers.{
  CreateDealRequest, UpdateDealDraftRequest, handle_create_deal, handle_update_deal_draft,
}
use telegram_ads_market.Market.DealLaws.{Created, handle_create_deal_follows_listing}
use telegram_ads_market.Market.DraftLaws.{Edited, handle_update_deal_draft_follows_listing}
use telegram_ads_market.Market.ListingHandlers.{
  CreateListingRequest, UpdateListingRequest, handle_create_listing, handle_update_listing,
  handle_delete_listing,
}
use telegram_ads_market.Market.ListingLaws.{others, handlers_keep_others_listings}
use telegram_ads_market.Examples.Setup.{listing, ext, terms, holding_only, around}

-- Prices in whole tons, in place of float64.
abbrev pub whole_tons : PriceJson
whole_tons = record {
  Float = ℕ;
  unmarshal_slots = λ s. if str_eq s "one slot" then some ("slot" ∷ []) else none;
  unmarshal_pair =
      λ s. if str_eq s "slot" then some (text "24hr" ∷ number 2000000000 ∷ []) else none;
  marshal_nanotons = λ ps. "one slot";
  marshal_tons = λ ps. "one slot in ton";
  to_int64 = pos;
  of_int64 = pos_part;
  is_negative = λ x. false;
  is_nan = λ x. false;
  round = λ x. x;
  times = λ x y. x * y;
  over = λ x y. x / y;
  nanoton_per_ton = 1000000000;
  number_int64 = λ s. none;
  number_float64 = λ s. none;
}

abbrev pub print_details : String → String → String
print_details message posted_at = message <> posted_at

abbrev pub join : List String → String
join cs = "[]"

abbrev pub same_amount : ℤ → ℤ
same_amount a = a

-- User 10 administers channel 5 and offers posts in it.
abbrev pub offering : World
offering =
    let w = around (holding_only (terms draft none)) in
    record w {
      tables = record w.tables {
        listings = listing ∷ [];
        next_listing = 8;
        channel_admins = (10, 5) ∷ [];
      };
    }

deal_price_matches_listing-iff-IsOffered_example :
    (deal_price_matches_listing whole_tons "one slot" "24hr" (pos 24) (pos 2000000000) ≡ true)
    ↔ IsOffered whole_tons "one slot" "24hr" (pos 24) (pos 2000000000)
deal_price_matches_listing-iff-IsOffered_example =
    deal_price_matches_listing-iff-IsOffered whole_tons "one slot" "24hr" (pos 24) (pos 2000000000)

abbrev pub order : CreateDealRequest ext whole_tons print_details same_amount
order = record {
  listing_id = 7;
  channel_id = none;
  type = "24hr";
  duration = pos 24;
  price = 2;
  details = some "Buy tea";
}

handle_create_deal_follows_listing_example :
    Created ext whole_tons print_details same_amount
      (some 20)
      (some order)
      offering
      (handle_create_deal ext whole_tons print_details same_amount
        (some 20)
        (some order)
        offering).1.db
handle_create_deal_follows_listing_example =
    handle_create_deal_follows_listing ext whole_tons print_details same_amount (some 20)
      (some order) offering

abbrev edit : UpdateDealDraftRequest ext whole_tons print_details same_amount
edit = record { type = some "24hr"; duration = none; price = some 2; details = none }

handle_update_deal_draft_follows_listing_example :
    Edited ext whole_tons print_details same_amount
      (some 20)
      (PathId.id 1)
      (some edit)
      offering
      (handle_update_deal_draft ext whole_tons print_details same_amount
        (some 20)
        (PathId.id 1)
        (some edit)
        offering).1.db
handle_update_deal_draft_follows_listing_example =
    handle_update_deal_draft_follows_listing ext whole_tons print_details same_amount (some 20)
      (PathId.id 1) (some edit) offering

abbrev new_listing : CreateListingRequest
new_listing = record {
  status = "inactive";
  channel_id = none;
  type = "lessee";
  prices = "one slot";
  categories = [];
  description = "";
}

abbrev change : UpdateListingRequest
change = record {
  status = some "inactive";
  type = none;
  prices = "";
  categories = none;
  description = none;
}

handlers_keep_others_listings_example :
    (others 20
        (handle_create_listing whole_tons join
          (some 20)
          (some new_listing)
          offering).1.tables.listings
      ≡ others 20 (listing ∷ []))
    × (others 20
          (handle_update_listing whole_tons join
            (some 20)
            (PathId.id 7)
            (some change)
            offering).1.tables.listings
        ≡ others 20 (listing ∷ []))
    × (others 20 (handle_delete_listing (some 20) (PathId.id 7) offering).1.tables.listings
        ≡ others 20 (listing ∷ []))
handlers_keep_others_listings_example =
    handlers_keep_others_listings whole_tons join 20 (PathId.id 7) (some new_listing) (some change)
      offering

refresh_needs_admin_and_time_example :
    ((request_stats_refresh some 5 10 offering).1.tables ≡ offering.tables) ⊎ MayAsk 5 10 offering
refresh_needs_admin_and_time_example = refresh_needs_admin_and_time some 5 10 offering
