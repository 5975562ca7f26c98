-- ===== src/Market/Chat.antt =====
-- internal/market/service/deal_chat/service.go with
-- internal/market/repository/deal_forum_topic/repository.go: one topic in Telegram for each side of a
-- deal, and a row for both. The service has its Telegram client here.
use telegram_ads_market.Common.{
  ℕ, suc, String, Bool, not, ◌&&◌, ◌||◌, Option, none, some, List, [], ◌∷◌, ◌++◌, ◌==◌,
  if◌then◌else◌, select, exists,
}
use telegram_ads_market.Common.Int.{pos}
use telegram_ads_market.Common.Text.{str_eq, ◌<>◌, show_ℤ}
use telegram_ads_market.Entity.{Deal}
use telegram_ads_market.Tables.{DealForumTopic}
use telegram_ads_market.Effects.{
  World, M, Done, Result, ok, err, pure, ◌>>=◌, ◌>>◌, raise, ignore, attempt, fail_if, call, exec,
  read_one, require, not_found, unauthorized_side, call_failed,
}
use telegram_ads_market.DealService.{deal_with_id, is_stranger}

abbrev pub topic_of_deal : ℕ → World → List DealForumTopic
topic_of_deal deal_id w = select (λ t. t.deal_id == deal_id) w.tables.topics

-- INSERT; the deal is the primary key.
unfoldable pub insert_deal_forum_topic : DealForumTopic → M Done
insert_deal_forum_topic t = do
  taken ←
      call (λ w. exists (λ r. r.deal_id == t.deal_id) w.tables.topics)
        λ w. record w {
          tables = record w.tables {
            topics =
                if exists (λ r. r.deal_id == t.deal_id) w.tables.topics
                then w.tables.topics
                else w.tables.topics ++ t ∷ [];
          };
        }
  fail_if taken call_failed

unfoldable pub remove_deal_forum_topic : ℕ → M Done
remove_deal_forum_topic deal_id = exec λ w. record w {
  tables = record w.tables { topics = select (λ t. not (t.deal_id == deal_id)) w.tables.topics };
}

-- Telegram gives a new topic its thread.
unfoldable pub create_forum_topic : ℕ → String → M ℕ
create_forum_topic chat_id name =
    call (λ w. w.tables.next_thread)
      λ w. record w {
        tables = record w.tables {
          threads = (chat_id, w.tables.next_thread) ∷ w.tables.threads;
          next_thread = suc w.tables.next_thread;
        };
      }

abbrev pub is_thread : ℕ → ℕ → ℕ × ℕ → Bool
is_thread chat_id thread_id (c, t) = (c == chat_id) && (t == thread_id)

unfoldable pub delete_forum_topic : ℕ → ℕ → M Done
delete_forum_topic chat_id thread_id = exec λ w. record w {
  tables = record w.tables {
    threads = select (λ t. not (is_thread chat_id thread_id t)) w.tables.threads;
  };
}

abbrev pub thread_id_for_user : DealForumTopic → Deal → ℕ → ℕ
thread_id_for_user t deal user_id =
    if deal.lessor_id == user_id then t.lessor_message_thread_id else t.lessee_message_thread_id

unfoldable pub chat_link_for_user : String → DealForumTopic → Deal → ℕ → String
chat_link_for_user bot t deal user_id =
    if str_eq bot ""
    then ""
    else "https://t.me/" <> (bot <> ("/" <> show_ℤ (pos (thread_id_for_user t deal user_id))))

abbrev pub new_topic : Deal → ℕ → ℕ → DealForumTopic
new_topic deal lessor_thread lessee_thread = record {
  deal_id = deal.id;
  lessor_chat_id = deal.lessor_id;
  lessee_chat_id = deal.lessee_id;
  lessor_message_thread_id = lessor_thread;
  lessee_message_thread_id = lessee_thread;
}

-- After the INSERT: on an error both topics are deleted again.
unfoldable pub after_insert : Deal → ℕ → ℕ → Result Done → M DealForumTopic
after_insert deal lessor_thread lessee_thread (ok u) =
    pure (new_topic deal lessor_thread lessee_thread)
after_insert deal lessor_thread lessee_thread (err e) =
    ignore (delete_forum_topic deal.lessor_id lessor_thread)
    >> ignore (delete_forum_topic deal.lessee_id lessee_thread)
    >> raise e

-- After the second topic: on an error the first is deleted again.
unfoldable pub after_lessee_topic : Deal → ℕ → Result ℕ → M DealForumTopic
after_lessee_topic deal lessor_thread (err e) =
    ignore (delete_forum_topic deal.lessor_id lessor_thread) >> raise e
after_lessee_topic deal lessor_thread (ok lessee_thread) = do
  written ← attempt (insert_deal_forum_topic (new_topic deal lessor_thread lessee_thread))
  after_insert deal lessor_thread lessee_thread written

unfoldable pub create_topics : Deal → M DealForumTopic
create_topics deal = do
  let name = "Deal #" <> show_ℤ (pos deal.id)
  lessor_thread ← create_forum_topic deal.lessor_id name
  created ← attempt (create_forum_topic deal.lessee_id name)
  after_lessee_topic deal lessor_thread created

abbrev pub topic_or_new : Deal → Option DealForumTopic → M DealForumTopic
topic_or_new deal none = create_topics deal
topic_or_new deal (some t) = pure t

unfoldable pub get_or_create_deal_forum_chat : String → ℕ → ℕ → M String
get_or_create_deal_forum_chat bot deal_id user_id = do
  deal ← require (read_one (deal_with_id deal_id)) not_found
  fail_if (is_stranger user_id deal) unauthorized_side
  existing ← read_one (topic_of_deal deal_id)
  t ← topic_or_new deal existing
  pure (chat_link_for_user bot t deal user_id)

abbrev pub delete_topics : ℕ → Option DealForumTopic → M Done
delete_topics deal_id none = pure tt
delete_topics deal_id (some t) =
    ignore (delete_forum_topic t.lessor_chat_id t.lessor_message_thread_id)
    >> ignore (delete_forum_topic t.lessee_chat_id t.lessee_message_thread_id)
    >> remove_deal_forum_topic deal_id

unfoldable pub delete_deal_forum_topic : ℕ → M Done
delete_deal_forum_topic deal_id = do t ← read_one (topic_of_deal deal_id); delete_topics deal_id t

-- The rows with a chat and a thread on one of their sides.
abbrev pub has_thread : ℕ → ℕ → DealForumTopic → Bool
has_thread chat_id thread_id t =
    ((t.lessor_chat_id == chat_id) && (t.lessor_message_thread_id == thread_id))
    || ((t.lessee_chat_id == chat_id) && (t.lessee_message_thread_id == thread_id))

-- To the side that the message does not come from.
abbrev pub other_thread : ℕ → ℕ → DealForumTopic → ℕ × ℕ
other_thread chat_id thread_id t =
    if (t.lessor_chat_id == chat_id) && (t.lessor_message_thread_id == thread_id)
    then (t.lessee_chat_id, t.lessee_message_thread_id)
    else (t.lessor_chat_id, t.lessor_message_thread_id)

-- Where a message of a topic is copied to, if it is the topic of a deal.
unfoldable pub copy_target : ℕ → ℕ → M (Option (ℕ × ℕ))
copy_target chat_id thread_id = do
  t ← read_one (λ w. select (has_thread chat_id thread_id) w.tables.topics)
  pure (elim t [ none ↦ none | some r ↦ some (other_thread chat_id thread_id r) ])
