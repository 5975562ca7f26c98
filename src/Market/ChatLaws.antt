-- ===== src/Market/ChatLaws.antt =====
-- What the deletion of a deal's forum topics leaves alone.
use telegram_ads_market.Common.{ℕ, Option, none, some}
use telegram_ads_market.Tables.{DealForumTopic, Tables}
use telegram_ads_market.Effects.{World, ignore, ◌>>◌, read_one, arrive}
use telegram_ads_market.Effects.Steps.{read_one_cases}
use telegram_ads_market.Escrow.Laws.{then_from, then_ignored, call_keeps}
use telegram_ads_market.Market.Chat.{
  topic_of_deal, delete_topics, delete_forum_topic, remove_deal_forum_topic,
  delete_deal_forum_topic,
}

-- A fact that neither time nor the tables beside the deals touch.
pub record BesideTables (I : World → Type 0) : Type 0 where
  pub later : (v : World) → I v → I (arrive v)
  pub with_tables : (t : Tables) (v : World) → I v → I (record v { tables = t })

module _ (I : World → Type 0) (out : BesideTables I) where
  deleted_keeps :
      (chat_id thread_id : ℕ) (v : World) → I v → I (delete_forum_topic chat_id thread_id v).1
  unfolding delete_forum_topic
  deleted_keeps chat_id thread_id v i =
      call_keeps I _ _ v (out.with_tables _ _ (out.later v i)) (out.later v i)

  both_keep :
      (t : DealForumTopic) (v : World)
      → I v
      → I
          ((ignore (delete_forum_topic t.lessor_chat_id t.lessor_message_thread_id)
              >> ignore (delete_forum_topic t.lessee_chat_id t.lessee_message_thread_id))
            v).1
  unfolding ignore
  both_keep t v i =
      then_ignored I I (delete_forum_topic _ _) _ v (deleted_keeps _ _ v i)
        (λ x j. deleted_keeps _ _ x j)

  topics_keep :
      (deal_id : ℕ) (t : Option DealForumTopic) (v : World) → I v → I (delete_topics deal_id t v).1
  unfolding remove_deal_forum_topic
  topics_keep deal_id none v i = i
  topics_keep deal_id (some t) v i =
      then_from I I _ _ v (both_keep t v i)
        (λ u x j. call_keeps I _ _ x (out.with_tables _ _ (out.later x j)) (out.later x j))
        (λ x j. j)

  -- A call of deleteDealForumTopic whose error is dropped.
  pub delete_topic_keeps : (deal_id : ℕ) (w : World) → I w → I (delete_deal_forum_topic deal_id w).1
  unfolding delete_deal_forum_topic
  delete_topic_keeps deal_id w h =
      then_from I I (read_one (topic_of_deal deal_id)) _ w
        (read_one_cases (λ o. I o.1) (topic_of_deal deal_id) w (λ e. out.later w h)
          (λ d e. out.later w h) (λ e. out.later w h))
        (topics_keep deal_id) (λ v i. i)
