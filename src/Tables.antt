-- ===== src/Tables.antt =====
-- The tables and the remote state of the market beside the deals: listings and channels
-- (internal/market/repository/listing, channel, channel_admin), and the forum topics of the deals
-- (deal_forum_topic) with the threads that Telegram holds for them.
use telegram_ads_market.Common.{ℕ, String, Bool, Option, List}
use telegram_ads_market.Common.Int.{ℤ}

-- `entity.Listing`, without what the queries join from other tables for display. A text that is
-- empty stands for a missing JSON value.
pub record Listing : Type 0 where
  pub id : ℕ
  pub status : String
  pub user_id : ℕ
  pub channel_id : Option ℕ
  pub type : String
  pub prices : String
  pub categories : String
  pub description : String
  pub created_at : ℕ
  pub updated_at : ℕ

pub record DealForumTopic : Type 0 where
  pub deal_id : ℕ
  pub lessor_chat_id : ℕ
  pub lessee_chat_id : ℕ
  pub lessor_message_thread_id : ℕ
  pub lessee_message_thread_id : ℕ

-- A row of market.channel_stats: whether its JSON is an object or null, and the member of the object
-- that says when a refresh was last asked for, if it is a number.
pub record ChannelStats : Type 0 where
  pub channel_id : ℕ
  pub is_object : Bool
  pub requested_at : Option ℤ

pub record Tables : Type 0 where
  pub listings : List Listing
  pub next_listing : ℕ
  -- User and channel.
  pub channel_admins : List (ℕ × ℕ)
  pub stats : List ChannelStats
  -- Channels whose statistics the userbot is asked to fetch, the latest first.
  pub stats_events : List ℕ
  pub topics : List DealForumTopic
  -- The topics that exist in Telegram, by chat and thread, the latest first.
  pub threads : List (ℕ × ℕ)
  pub next_thread : ℕ
