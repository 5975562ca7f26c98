-- ===== src/Examples/Setup.antt =====
-- A small library to call, a deal, and a world around it.
use telegram_ads_market.Common.{ℕ, ◌+◌, ◌*◌, ◌/◌, String, Option, none, some, [], ◌∷◌}
use telegram_ads_market.Common.Int.{pos, pos_part}
use telegram_ads_market.Common.Text.{◌<>◌}
use telegram_ads_market.Entity.{Deal, DealStatus}
use telegram_ads_market.External.{External, text}
use telegram_ads_market.Signature.{expected_signature}
use telegram_ads_market.Repository.{Db}
use telegram_ads_market.Tables.{Listing}
use telegram_ads_market.Effects.{World}
use telegram_ads_market.Escrow.Amounts.{Float64}

abbrev pub ext : External
ext = record {
  sha256_hex = λ s. "sha256:" <> s;
  unmarshal_object = λ s. some (("message", text s) ∷ []);
  parse_rfc3339 = λ s. none;
  parse_raw_addr = λ s. some ("0:" <> s);
  new_seed = λ n. "seed phrase";
  wallet_of_seed = λ s. some ("0:escrow");
}

-- Rational arithmetic with a rounding at the end, in place of float64; multiples of a hundredth.
abbrev pub hundredths : Float64
hundredths = record {
  F = ℕ;
  of_int64 = pos_part;
  mul = λ a m. (m * a + 50) / 100;
  div = λ a m. (100 * a + 51) / 102;
  round_to_int64 = pos;
}

-- The terms, without signatures.
abbrev pub terms : DealStatus → Option String → Deal
terms s escrow = record {
  id = 1;
  listing_id = 7;
  lessor_id = 10;
  lessee_id = 20;
  channel_id = some 5;
  type = "post";
  duration = pos 24;
  price = pos 1000;
  escrow_amount = pos 1100;
  details = "Buy tea";
  lessor_signature = none;
  lessee_signature = none;
  status = s;
  escrow_address = escrow;
  escrow_release_time = none;
  lessor_payout_address = some "lessor";
  lessee_payout_address = some "lessee";
  created_at = 0;
  updated_at = 0;
}

abbrev pub signed_by : DealStatus → Option String → Deal
signed_by s escrow = record (terms s escrow) {
  lessor_signature = some (expected_signature ext (terms s escrow) 10);
  lessee_signature = some (expected_signature ext (terms s escrow) 20);
}

abbrev pub signed_by_lessor : DealStatus → Deal
signed_by_lessor s = record (terms s none) {
  lessor_signature = some (expected_signature ext (terms s none) 10);
}

abbrev pub holding_only : Deal → Db
holding_only d = record {
  deals = d ∷ [];
  posts = [];
  locks = [];
  next_deal = 2;
  next_post = 1;
  next_lock = 1;
}

abbrev pub around : Db → World
around db = record {
  db = db;
  now = 100;
  tx_start = none;
  schedule = [];
  users = record { id = 20; wallet_address = some "lessee" } ∷ [];
  seeds = (1, "seed phrase") ∷ [];
  seeds_drawn = 0;
  watched = [];
  chain = [];
  messages = [];
  next_message = 500;
  untold = [];
  notifications = [];
  acknowledged = [];
  tables = record {
    listings = [];
    next_listing = 1;
    channel_admins = [];
    stats = [];
    stats_events = [];
    topics = [];
    threads = [];
    next_thread = 70;
  };
}

-- A lessor's listing with channel 5.
abbrev pub listing : Listing
listing = record {
  id = 7;
  status = "active";
  user_id = 10;
  channel_id = some 5;
  type = "lessor";
  prices = "one slot";
  categories = "[]";
  description = "";
  created_at = 1;
  updated_at = 1;
}

abbrev pub listed : World → World
listed w = record w { tables = record w.tables { listings = listing ∷ []; next_listing = 8 } }
