-- ===== src/Market/ChannelLaws.antt =====
-- Who can have the statistics of a channel refreshed.
use telegram_ads_market.Common.{
  ℕ, ◌≡◌, ◌⊎◌, inl, inr, refl, Bool, true, false, not, Option, some, ◌&&◌, ◌==◌, exists, arith,
}
use telegram_ads_market.Common.Int.{ℤ}
use telegram_ads_market.Tables.{ChannelStats}
use telegram_ads_market.Repository.{OneRow, one, no_rows, too_many_rows, exactly_one}
use telegram_ads_market.Effects.{M, ◌>>=◌, World, arrive, time_now}
use telegram_ads_market.Effects.Laws.{Outcomes, then_query, then_fail_if, then_read_one}
use telegram_ads_market.Effects.Steps.{then_steps}
use telegram_ads_market.Market.Listings.{require_channel_admin, is_channel_admin}
use telegram_ads_market.Market.Channels.{
  request_stats_refresh, read_channel_stats, handle_raw_stats_requested_at, stats_of, may_refresh,
  last_request, unix,
}

-- The user has a row as an administrator of the channel.
abbrev pub Administers : ℕ → ℕ → World → Type 0
Administers user_id channel_id w =
    exists (λ (u, c). (u == user_id) && (c == channel_id)) w.tables.channel_admins ≡ true

-- The row of the channel allows another request at this time.
abbrev pub IsDue : OneRow ChannelStats → ℤ → Type 0
IsDue (one row) now = may_refresh (last_request (some row)) now ≡ true
IsDue no_rows now = Unit
IsDue too_many_rows now = ⊥

-- The user administers the channel, and its statistics are due when the clock is read, after two
-- queries.
pub record MayAsk (channel_id user_id : ℕ) (w : World) : Type 0 where
  pub admin : Administers user_id channel_id w
  pub due : IsDue (exactly_one (stats_of channel_id w)) (unix (arrive (arrive w)).now)

then_time_now :
    {A : Type 0} (P : Outcomes A → Type 0) (k : ℕ → M A) (w : World)
    → P (k w.now w)
    → P ((time_now >>= k) w)
unfolding ◌>>=◌
then_time_now P k w h = h

module _ {Channel : Type 0} (channels : ℕ → Option Channel) where
  -- A request for fresh statistics changes the tables, be it only the time of the last request or
  -- the list of channels to fetch, only if the user administers the channel and the last request is
  -- at least an hour ago, by the difference of int64, or none is recorded. Otherwise nothing changes,
  -- whatever fails.
  pub refresh_needs_admin_and_time :
      (channel_id user_id : ℕ) (w : World)
      → ((request_stats_refresh channels channel_id user_id w).1.tables ≡ w.tables)
        ⊎ MayAsk channel_id user_id w
  unfolding request_stats_refresh require_channel_admin is_channel_admin read_channel_stats
      handle_raw_stats_requested_at
  refresh_needs_admin_and_time channel_id user_id w =
      then_steps P (is_channel_admin user_id channel_id) _ _ w (
        then_query P _ _ w
          (then_fail_if P _ _ _ _ (λ _. inl refl)
            (λ admin.
              then_query P _ _ _
                (then_time_now P _ _ (
                  then_read_one P _ _ _
                    (λ e.
                      then_fail_if P _ _ _ _ (λ _. inl refl)
                        (λ due. inr (record { admin = ground (arith, admin); due = rw e tt })))
                    (λ d e.
                      then_fail_if P _ _ _ _ (λ _. inl refl)
                        (λ due.
                          inr (record {
                            admin = ground (arith, admin);
                            due = rw e (not_false _ due);
                          })))
                    (λ e. inl refl)))
                (inl refl)))
          (inl refl))
    where
      P : {A : Type 0} → Outcomes A → Type 0
      P o = (o.1.tables ≡ w.tables) ⊎ MayAsk channel_id user_id w

      not_false : (b : Bool) → not b ≡ false → b ≡ true
      not_false b e = ground (arith, e)
