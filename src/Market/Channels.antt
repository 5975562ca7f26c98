-- ===== src/Market/Channels.antt =====
-- The statistics of channels: internal/market/service/channel/channel.go, with the statistics of
-- internal/market/repository/channel and the handlers of
-- internal/market/application/market/http/channel.go. Of the stored object only `requested_at` is
-- kept; the table of channels, which is only read here, is a parameter.
use telegram_ads_market.Common.{
  ℕ, ◌/◌, Bool, true, false, not, ◌||◌, Option, none, some, List, [], ◌∷◌, ◌++◌, ◌==◌,
  if◌then◌else◌, select, update, exists,
}
use telegram_ads_market.Common.Int.{ℤ, pos, ◌==ℤ◌, ◌-ℤ◌, leb_ℤ, wrap64}
use telegram_ads_market.Entity.{not_found, too_many_requests}
use telegram_ads_market.Tables.{ChannelStats}
use telegram_ads_market.Effects.{
  World, M, Done, ◌>>=◌, ◌>>◌, pure, exec, query, time_now, fail_if, or_raise, read_one, Result, ok,
  err, raise, attempt, channel_stats_denied, stats_refresh_too_soon, stats_not_object,
  service_error,
}
use telegram_ads_market.Market.Listings.{
  is_channel_admin, require_channel_admin, is_channel_has_active_listing,
}
use telegram_ads_market.Market.Http.{
  to_service_error, served_or_not_found, require_user_id, PathId, parse_path_id,
}

abbrev pub stats_of : ℕ → World → List ChannelStats
stats_of channel_id w = select (λ s. s.channel_id == channel_id) w.tables.stats

unfoldable pub read_channel_stats : ℕ → M (Option ChannelStats)
read_channel_stats channel_id = read_one (stats_of channel_id)

-- Seconds.
abbrev pub refresh_stats_cooldown : ℤ
refresh_stats_cooldown = pos 3600

abbrev pub unix : ℕ → ℤ
unix now = pos (now / 1000000000)

abbrev pub last_request : Option ChannelStats → ℤ
last_request none = pos 0
last_request (some s) =
    if s.is_object then elim s.requested_at [ none ↦ pos 0 | some t ↦ t ] else pos 0

-- No refresh has been asked for, or the last one is long enough ago.
abbrev pub may_refresh : ℤ → ℤ → Bool
may_refresh requested_at now =
    (requested_at ==ℤ pos 0) || leb_ℤ refresh_stats_cooldown (wrap64 (now -ℤ requested_at))

unfoldable pub handle_raw_stats_requested_at : Option ChannelStats → ℤ → M Done
handle_raw_stats_requested_at raw now =
    fail_if (not (may_refresh (last_request raw) now)) stats_refresh_too_soon

-- A new row, or the old one with another `requested_at`.
unfoldable pub upsert_channel_stats : ℕ → ℤ → M Done
upsert_channel_stats channel_id now = exec λ w. record w {
  tables = record w.tables {
    stats =
        if exists (λ s. s.channel_id == channel_id) w.tables.stats
        then update (λ s. s.channel_id == channel_id)
            (λ s. record s { is_object = true; requested_at = some now }) w.tables.stats
        else w.tables.stats
          ++ record { channel_id = channel_id; is_object = true; requested_at = some now } ∷ [];
  };
}

-- A row whose JSON is not read as an object.
abbrev pub holds_no_object : Option ChannelStats → Bool
holds_no_object none = false
holds_no_object (some s) = not s.is_object

unfoldable pub merge_stats_requested_at : ℕ → ℤ → M Done
merge_stats_requested_at channel_id now = do
  raw ← read_channel_stats channel_id
  fail_if (holds_no_object raw) stats_not_object
  upsert_channel_stats channel_id now

-- The userbot is asked to fetch the statistics.
unfoldable pub add_channel_update_stats_event : ℕ → M Done
add_channel_update_stats_event channel_id =
    exec λ w. record w {
      tables = record w.tables { stats_events = channel_id ∷ w.tables.stats_events };
    }

-- A refresh that comes too soon has its own code, and a missing channel is not found.
unfoldable pub answer_refresh : {A : Type 0} → Result (Option A) → M A
answer_refresh (ok a) = or_raise a (service_error not_found)
answer_refresh (err stats_refresh_too_soon) = raise (service_error too_many_requests)
answer_refresh (err e) = raise (to_service_error e)

module _ {Channel : Type 0} (channels : ℕ → Option Channel) where
  unfoldable pub request_stats_refresh : ℕ → ℕ → M (Option Channel)
  request_stats_refresh channel_id user_id = do
    require_channel_admin user_id channel_id
    ch ← query (λ w. channels channel_id)
    now ← time_now
    raw ← read_channel_stats channel_id
    handle_raw_stats_requested_at raw (unix now)
    merge_stats_requested_at channel_id (unix now)
    add_channel_update_stats_event channel_id
    pure ch

  unfoldable pub handle_refresh_channel : Option ℕ → PathId → M Channel
  handle_refresh_channel user path = do
    user_id ← require_user_id user
    id ← parse_path_id path
    refreshed ← attempt (request_stats_refresh id user_id)
    answer_refresh refreshed

unfoldable pub require_listed : Bool → ℕ → M Done
require_listed true channel_id = pure tt
require_listed false channel_id = do
  listed ← is_channel_has_active_listing channel_id
  fail_if (not listed) channel_stats_denied

unfoldable pub get_channel_stats : ℕ → ℕ → M (Option ChannelStats)
get_channel_stats channel_id user_id = do
  admin ← is_channel_admin user_id channel_id
  require_listed admin channel_id
  read_channel_stats channel_id

unfoldable pub handle_get_channel_stats : Option ℕ → PathId → M ChannelStats
handle_get_channel_stats user path = do
  user_id ← require_user_id user
  id ← parse_path_id path
  served_or_not_found (get_channel_stats id user_id)
