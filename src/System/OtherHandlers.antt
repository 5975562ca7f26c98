-- ===== src/System/OtherHandlers.antt =====
-- The HTTP handlers of listings and of the chat leave the deals alone.
use telegram_ads_market.Common.{ℕ, refl, String, Option, none, some, List}
use telegram_ads_market.Entity.{Deal}
use telegram_ads_market.External.{External}
use telegram_ads_market.Tables.{Listing, DealForumTopic}
use telegram_ads_market.Lifecycle.Step.{stays}
use telegram_ads_market.Effects.{Done, Result, ok, err, attempt, ignore, read_one}
use telegram_ads_market.DealService.{deal_with_id}
use telegram_ads_market.DealService.Refines.{Refines}
use telegram_ads_market.Market.Prices.{PriceJson}
use telegram_ads_market.Market.Http.{PathId}
use telegram_ads_market.Market.Listings.{
  listing_with_id, insert_listing, get_listing, write_listing, remove_listing,
  require_channel_admin, is_channel_admin, check_new_channel, check_channel, create_listing,
  update_listing, delete_listing,
}
use telegram_ads_market.Market.Chat.{
  topic_of_deal, new_topic, insert_deal_forum_topic, create_forum_topic, delete_forum_topic,
  after_insert, after_lessee_topic, create_topics, topic_or_new, get_or_create_deal_forum_chat,
}
use telegram_ads_market.Market.DealHandlers.{handle_get_or_create_deal_chat_link}
use telegram_ads_market.Market.ListingHandlers.{
  CreateListingRequest, UpdateListingRequest, handle_create_listing, handle_update_listing,
  handle_delete_listing,
}
use telegram_ads_market.System.Combine.{
  then-Refines, call-Refines, query-Refines, or_raise-Refines, fail_if-Refines, read_one-Refines,
  found-Refines, require-Refines, served-Refines, served_or_empty-Refines, require_user_id-Refines,
  parse_path_id-Refines, decode_body-Refines, if-Refines, ignore-Refines,
}

module _ (ext : External) where
  require_channel_admin-Refines :
      (user_id channel_id : ℕ) → Refines ext (require_channel_admin user_id channel_id)
  unfolding require_channel_admin is_channel_admin
  require_channel_admin-Refines user_id channel_id =
      then-Refines ext _ _ (query-Refines ext _) (λ ok. fail_if-Refines ext _ _)

  check_new_channel-Refines :
      (user_id : ℕ) (l : Listing) (c : Option ℕ) → Refines ext (check_new_channel user_id l c)
  check_new_channel-Refines user_id l none = λ w. stays
  check_new_channel-Refines user_id l (some c) = require_channel_admin-Refines user_id c

  check_channel-Refines : (user_id : ℕ) (c : Option ℕ) → Refines ext (check_channel user_id c)
  check_channel-Refines user_id none = λ w. stays
  check_channel-Refines user_id (some c) = require_channel_admin-Refines user_id c

  create_listing-Refines : (user_id : ℕ) (l : Listing) → Refines ext (create_listing user_id l)
  unfolding create_listing insert_listing
  create_listing-Refines user_id l =
      then-Refines ext _ _
        (if-Refines ext _ _ _
          (check_new_channel-Refines user_id (record l { user_id = user_id }) l.channel_id)
          (λ w. stays))
        (λ _.
          then-Refines ext _ _ (fail_if-Refines ext _ _) (λ _. call-Refines ext _ _ (λ v. refl)))

  update_listing-Refines : (user_id : ℕ) (l : Listing) → Refines ext (update_listing user_id l)
  unfolding update_listing write_listing
  update_listing-Refines user_id l =
      then-Refines ext _ _ (found-Refines ext _ (read_one-Refines ext _)) (λ existing.
        then-Refines ext _ _ (fail_if-Refines ext _ _) (λ _.
          then-Refines ext _ _
            (if-Refines ext _ _ _ (check_channel-Refines user_id l.channel_id) (λ w. stays))
            (λ _.
              then-Refines ext _ _ (fail_if-Refines ext _ _)
                (λ _. call-Refines ext _ _ (λ v. refl)))))

  delete_listing-Refines : (user_id id : ℕ) → Refines ext (delete_listing user_id id)
  unfolding delete_listing remove_listing
  delete_listing-Refines user_id id =
      then-Refines ext _ _ (found-Refines ext _ (read_one-Refines ext _)) (λ existing.
        then-Refines ext _ _ (fail_if-Refines ext _ _) (λ _. call-Refines ext _ _ (λ v. refl)))

  module _ (json : PriceJson) (marshal : List String → String) where
    pub handle_create_listing-Refines :
        (user : Option ℕ) (body : Option CreateListingRequest)
        → Refines ext (handle_create_listing json marshal user body)
    unfolding handle_create_listing
    handle_create_listing-Refines user body =
        then-Refines ext _ _ (require_user_id-Refines ext user) (λ u.
          then-Refines ext _ _ (decode_body-Refines ext body) (λ req.
            then-Refines ext _ _ (fail_if-Refines ext _ _) (λ _.
              then-Refines ext _ _ (fail_if-Refines ext _ _) (λ _.
                then-Refines ext _ _ (or_raise-Refines ext _ _) (λ prices.
                  then-Refines ext _ _ (served-Refines ext _ (create_listing-Refines u _))
                    (λ l w. stays))))))

    pub handle_update_listing-Refines :
        (user : Option ℕ) (path : PathId) (body : Option UpdateListingRequest)
        → Refines ext (handle_update_listing json marshal user path body)
    unfolding handle_update_listing get_listing
    handle_update_listing-Refines user path body =
        then-Refines ext _ _ (require_user_id-Refines ext user) (λ u.
          then-Refines ext _ _ (parse_path_id-Refines ext path) (λ id.
            then-Refines ext _ _ (served_or_empty-Refines ext _ (read_one-Refines ext _))
              (λ existing. then-Refines ext _ _ (decode_body-Refines ext body) (λ req.
                then-Refines ext _ _ (or_raise-Refines ext _ _) (λ l.
                  then-Refines ext _ _ (served-Refines ext _ (update_listing-Refines u l)) (λ _.
                    then-Refines ext (attempt (read_one (listing_with_id id))) _
                      (read_one-Refines ext _) (λ updated w. stays)))))))

  pub handle_delete_listing-Refines :
      (user : Option ℕ) (path : PathId) → Refines ext (handle_delete_listing user path)
  unfolding handle_delete_listing
  handle_delete_listing-Refines user path =
      then-Refines ext _ _ (require_user_id-Refines ext user) (λ u.
        then-Refines ext _ _ (parse_path_id-Refines ext path)
          (λ id. served-Refines ext _ (delete_listing-Refines u id)))

  delete_forum_topic-Refines :
      (chat_id thread_id : ℕ) → Refines ext (ignore (delete_forum_topic chat_id thread_id))
  unfolding delete_forum_topic
  delete_forum_topic-Refines chat_id thread_id =
      ignore-Refines ext _ (call-Refines ext _ _ (λ v. refl))

  insert_deal_forum_topic-Refines : (t : DealForumTopic) → Refines ext (insert_deal_forum_topic t)
  unfolding insert_deal_forum_topic
  insert_deal_forum_topic-Refines t =
      then-Refines ext _ _ (call-Refines ext _ _ (λ v. refl)) (λ taken. fail_if-Refines ext _ _)

  create_forum_topic-Refines :
      (chat_id : ℕ) (name : String) → Refines ext (create_forum_topic chat_id name)
  unfolding create_forum_topic
  create_forum_topic-Refines chat_id name = call-Refines ext _ _ (λ v. refl)

  after_insert-Refines :
      (deal : Deal) (a b : ℕ) (r : Result Done) → Refines ext (after_insert deal a b r)
  unfolding after_insert
  after_insert-Refines deal a b (ok u) = λ w. stays
  after_insert-Refines deal a b (err e) =
      then-Refines ext _ _
        (then-Refines ext _ _ (delete_forum_topic-Refines _ _)
          (λ _. delete_forum_topic-Refines _ _))
        (λ _ w. stays)

  after_lessee_topic-Refines :
      (deal : Deal) (a : ℕ) (r : Result ℕ) → Refines ext (after_lessee_topic deal a r)
  unfolding after_lessee_topic
  after_lessee_topic-Refines deal a (ok b) =
      then-Refines ext (attempt (insert_deal_forum_topic (new_topic deal a b))) _
        (insert_deal_forum_topic-Refines _) (λ written. after_insert-Refines deal a b written)
  after_lessee_topic-Refines deal a (err e) =
      then-Refines ext _ _ (delete_forum_topic-Refines _ _) (λ _ w. stays)

  topic_or_new-Refines :
      (deal : Deal) (t : Option DealForumTopic) → Refines ext (topic_or_new deal t)
  unfolding create_topics
  topic_or_new-Refines deal none = then-Refines ext _ _ (create_forum_topic-Refines _ _) (λ a.
      then-Refines ext (attempt (create_forum_topic _ _)) _ (create_forum_topic-Refines _ _)
        (λ created. after_lessee_topic-Refines deal a created))
  topic_or_new-Refines deal (some t) = λ w. stays

  pub handle_get_or_create_deal_chat_link-Refines :
      (bot : String) (user : Option ℕ) (path : PathId)
      → Refines ext (handle_get_or_create_deal_chat_link bot user path)
  unfolding handle_get_or_create_deal_chat_link get_or_create_deal_forum_chat
  handle_get_or_create_deal_chat_link-Refines bot user path =
      then-Refines ext _ _ (require_user_id-Refines ext user) (λ u.
        then-Refines ext _ _ (parse_path_id-Refines ext path) (λ id. served-Refines ext _ (
          then-Refines ext _ _ (require-Refines ext _ _ (read_one-Refines ext (deal_with_id id)))
            (λ deal. then-Refines ext _ _ (fail_if-Refines ext _ _) (λ _.
              then-Refines ext _ _ (read_one-Refines ext (topic_of_deal id)) (λ existing.
                then-Refines ext _ _ (topic_or_new-Refines deal existing) (λ t w. stays)))))))
