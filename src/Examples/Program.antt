-- ===== src/Examples/Program.antt =====
-- A run of the whole program: two users agree on a deal, pay, and the post is out.
use telegram_ads_market.Common.{ℕ, ◌≡◌, refl, none, some, List, [], ◌∷◌}
use telegram_ads_market.Common.Int.{pos}
use telegram_ads_market.Entity.{Deal, User, approved}
use telegram_ads_market.Signature.{
  expected_signature, deal_signatures_match, compute_deal_signature, signed_text,
}
use telegram_ads_market.Lifecycle.Sound.{HasPayouts}
use telegram_ads_market.Lifecycle.History.{empty_db, row_at}
use telegram_ads_market.Lifecycle.Keys.{empty_db-Keyed}
use telegram_ads_market.Lifecycle.Step.{Reach}
use telegram_ads_market.Effects.{World}
use telegram_ads_market.Effects.{monad}
use telegram_ads_market.Repository.Deals
use telegram_ads_market.DealService
use telegram_ads_market.Details.{get_message_from_details, is_blank}
use telegram_ads_market.Common.Text.{show_ℤ}
use telegram_ads_market.Market.Prices.{
  deal_price_matches_listing, any_slot_matches, pair_matches, price_matches, parse_price_as_int64,
  is_duration, normalize_duration_type, parse_duration_hours, ton_to_nanoton,
}
use telegram_ads_market.Market.Listings.{get_listing}
use telegram_ads_market.Market.DealDetails.{validate_deal_details}
use telegram_ads_market.Market.DealHandlers.{
  handle_create_deal, handle_set_deal_payout_address, handle_sign_deal, resolve_lessor_lessee,
  resolve_deal_channel_id, build_deal_from_create_request, updated_or_nothing,
}
use telegram_ads_market.Market.Http.{
  id, require_user_id, parse_path_id, decode_body, code_of, to_service_error, served,
  served_or_not_found,
}
use telegram_ads_market.System.Program.{
  Setting, Operation, post_deal, post_sign, put_payout_address, perform, run, run-Reach,
  run_agrees_by_both,
}
use telegram_ads_market.Examples.Setup.{ext}
use telegram_ads_market.Examples.Posts.{is_channel_five}
use telegram_ads_market.Examples.Offers.{
  whole_tons, print_details, join, same_amount, offering, order,
}

abbrev setting : Setting
setting = record {
  ext = ext;
  json = whole_tons;
  marshal_details = print_details;
  marshal_categories = join;
  compute_escrow_amount = same_amount;
  get_amount_without_gas_and_commission = same_amount;
  is_known_channel = is_channel_five;
  bot_username = "market_bot";
  Channel = ℕ;
  channels = some;
}

abbrev lessor : User
lessor = record { id = 10; wallet_address = some "lessor" }

abbrev lessee : User
lessee = record { id = 20; wallet_address = some "lessee" }

-- Empty tables of deals, and the listing of user 10.
abbrev start : World
start = record offering { db = empty_db; users = lessor ∷ lessee ∷ [] }

abbrev agreement : List (Operation setting)
agreement =
    post_deal (some 20) (some order)
    ∷ put_payout_address (some 10) (id 1) (some "lessor")
    ∷ put_payout_address (some 20) (id 1) (some "lessee")
    ∷ post_sign (some 10) (id 1)
    ∷ post_sign (some 20) (id 1)
    ∷ []

run-Reach_example : Reach ext empty_db (run setting agreement start).db
run-Reach_example = run-Reach setting agreement start (empty_db-Keyed ext)

abbrev agreed_row : Deal
agreed_row = record {
  id = 1;
  listing_id = 7;
  lessor_id = 10;
  lessee_id = 20;
  channel_id = some 5;
  type = "24hr";
  duration = pos 24;
  price = pos 2000000000;
  escrow_amount = pos 2000000000;
  details = "Buy tea";
  lessor_signature = some "sha256:24hr242000000000Buy tea10lessorlessee";
  lessee_signature = some "sha256:24hr242000000000Buy tea20lessorlessee";
  status = approved;
  escrow_address = none;
  escrow_release_time = none;
  lessor_payout_address = some "lessor";
  lessee_payout_address = some "lessee";
  created_at = 100;
  updated_at = 100;
}

agreed_row-is_there : row_at (run setting agreement start).db.deals 0 ≡ some agreed_row
unfolding run perform monad handle_create_deal handle_set_deal_payout_address handle_sign_deal
    require_user_id parse_path_id decode_body code_of to_service_error served served_or_not_found
    get_listing deal_price_matches_listing any_slot_matches pair_matches price_matches
    parse_price_as_int64 is_duration normalize_duration_type parse_duration_hours ton_to_nanoton
    resolve_lessor_lessee resolve_deal_channel_id validate_deal_details
    build_deal_from_create_request updated_or_nothing DealService.create_deal
    DealService.set_deal_payout_address DealService.sign_deal DealService.sign_deal_in_tx
    Deals.create_deal Deals.set_deal_payout_address Deals.get_deal_by_id
    Deals.set_deal_lessor_signature Deals.set_deal_lessee_signature Deals.set_deal_status_approved
    deal_signatures_match expected_signature compute_deal_signature signed_text show_ℤ
    get_message_from_details is_blank
agreed_row-is_there = refl

run_agrees_by_both_example :
    (some "sha256:24hr242000000000Buy tea10lessorlessee"
      ≡ some (expected_signature ext agreed_row 10))
    × (some "sha256:24hr242000000000Buy tea20lessorlessee"
        ≡ some (expected_signature ext agreed_row 20))
    × HasPayouts agreed_row
run_agrees_by_both_example =
    run_agrees_by_both setting agreement start 0 agreed_row refl agreed_row-is_there refl
