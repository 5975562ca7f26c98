-- ===== src/PostService/Operations.antt =====
-- internal/userbot/service/userbot/deal_post_workers.go, and RunPassedWorker of
-- internal/market/service/deal_post_message/worker.go. The table of channels, which is only read
-- here, is a parameter: whether it has a row.
use telegram_ads_market.Common.{
  ℕ, suc, ◌*◌, ◌+◌, String, Bool, false, not, Option, none, some, List, [], ◌∷◌, ◌==◌,
  if◌then◌else◌, select, exists, map,
}
use telegram_ads_market.Common.Int.{ℤ, pos, ◌+ℤ◌, ◌*ℤ◌, wrap64, ltb_ℤ}
use telegram_ads_market.Common.Text.{str_eq}
use telegram_ads_market.Entity.{
  Deal, DealPostMessage, DealPostMessageStatus, DealActionLock, DealActionLockStatus, post_message,
}
use telegram_ads_market.External.{External}
use telegram_ads_market.Details.{get_message_from_details, get_posted_at_from_details}
use telegram_ads_market.Repository.{Db, first}
use telegram_ads_market.Repository.Deals
use telegram_ads_market.Repository.Deals.{is_for_deal}
use telegram_ads_market.Repository.Posts
use telegram_ads_market.Repository.Locks.{second, get_last_deal_action_lock}
use telegram_ads_market.Effects.{
  World, M, Done, Result, ok, err, ChannelMessage, pure, ◌>>=◌, ◌>>◌, ignore, attempt, fail_if,
  found, or_raise, call, exec, query, statement, read, transaction, for_each, sql_now, time_now,
  not_found, details_message_required, not_yet_due,
}
use telegram_ads_market.Market.Listings.{get_listing}
use telegram_ads_market.Escrow.{take_deal_action_lock, release_lock, holding, left_behind, limit}

abbrev pub hour : ℕ
hour = 60 * 60 * second

abbrev pub last_messages_recovery_limit : ℕ
last_messages_recovery_limit = 20

-- The transaction of CreateDealPostMessageAndSetDealInProgress: it ends after a conflict.
unfoldable pub create_deal_post_message : DealPostMessage → M Done
create_deal_post_message m = transaction do
  inserted ←
      call (λ w. not (exists (is_for_deal m.deal_id) w.db.posts))
        (λ w. record w { db = Posts.insert_post m (sql_now w) w.db })
  if inserted then statement (Posts.set_deal_in_progress m.deal_id) else pure tt

-- The message that is recorded for a deal at a time.
abbrev pub post_of : Deal → ℕ → ℕ → String → ℕ → DealPostMessage
post_of deal channel message text now = record {
  id = 0;
  deal_id = deal.id;
  channel_id = channel;
  message_id = message;
  post_message = text;
  status = DealPostMessageStatus.exists;
  next_check = pos (now + hour);
  until_ts = pos now +ℤ wrap64 (deal.duration *ℤ pos hour);
  created_at = 0;
  updated_at = 0;
}

-- Telegram gives a new message its id, and lists a channel's messages with the latest first. An
-- answer that is no `tg.Updates`, or has no `UpdateMessageID`, counts as the id zero.
unfoldable pub send_channel_message : ℕ → String → M ℕ
send_channel_message channel text =
    call (λ w. if exists (λ n. n == w.next_message) w.untold then 0 else w.next_message)
      λ w. record w {
        messages =
            record { channel_id = channel; message_id = w.next_message; body = text } ∷ w.messages;
        next_message = suc w.next_message;
      }

abbrev pub messages_of : ℕ → World → List ChannelMessage
messages_of channel w = select (λ m. m.channel_id == channel) w.messages

unfoldable pub try_recover_post : ℕ → String → M (Option ChannelMessage)
try_recover_post channel text = do
  history ← query (λ w. limit last_messages_recovery_limit (messages_of channel w))
  pure (first (select (λ m. str_eq m.body text) history))

-- The history around an id holds the message with that id, if there is one.
unfoldable pub get_channel_message_exists : ℕ → ℕ → M Bool
get_channel_message_exists channel message =
    query (λ w. exists (λ m. m.message_id == message) (messages_of channel w))

-- Under the lock: send, record, and release as completed, or as failed after an error.
unfoldable pub send_under_lock : Deal → ℕ → String → M Done
send_under_lock deal channel text = do
  lock_id ← take_deal_action_lock deal.id post_message
  holding lock_id do
    message ← send_channel_message channel text
    now ← time_now
    create_deal_post_message (post_of deal channel message text now)

-- The message of an earlier run is found: record it.
unfoldable pub record_recovered : Deal → ℕ → String → ℕ → ChannelMessage → M Done
record_recovered deal channel text lock_id m = do
  now ← time_now
  holding lock_id (create_deal_post_message (post_of deal channel m.message_id text now))

-- After the search: record what was found, or give the lock up and send.
unfoldable pub after_search : Deal → ℕ → String → ℕ → Result (Option ChannelMessage) → M Done
after_search deal channel text lock_id (ok (some m)) = record_recovered deal channel text lock_id m
after_search deal channel text lock_id (ok none) =
    ignore (release_lock lock_id DealActionLockStatus.failed) >> send_under_lock deal channel text
after_search deal channel text lock_id (err e) =
    ignore (release_lock lock_id DealActionLockStatus.failed) >> send_under_lock deal channel text

unfoldable pub send_or_recover : Deal → ℕ → String → Option DealActionLock → M Done
send_or_recover deal channel text none = send_under_lock deal channel text
send_or_recover deal channel text (some l) = do
  earlier ← attempt (try_recover_post channel text)
  after_search deal channel text l.id earlier

-- A missing message is deleted; one whose next check is past its term has passed.
unfoldable pub judge_post : DealPostMessage → Bool → M Done
judge_post m there =
    let next_check = m.next_check +ℤ pos hour in
    if not there
    then ignore
        (statement (Posts.update_deal_post_message_status m.id DealPostMessageStatus.deleted))
    else if ltb_ℤ m.until_ts next_check
    then ignore
        (statement (Posts.update_deal_post_message_status m.id DealPostMessageStatus.passed))
    else ignore (
        statement (
          Posts.update_deal_post_message_status_and_next_check m.id DealPostMessageStatus.exists
            next_check))

module _ (ext : External) (is_known_channel : ℕ → Bool) where
  abbrev is_future : Option ℤ → ℕ → Bool
  is_future none now = false
  is_future (some t) now = ltb_ℤ (pos now) t

  -- The body of the sender's loop.
  unfoldable pub send_deal_post : Deal → M Done
  send_deal_post deal = do
    listing ← found (get_listing deal.listing_id)
    channel ← or_raise listing.channel_id not_found
    known ← query (λ w. is_known_channel channel)
    fail_if (not known) not_found
    let text = get_message_from_details ext deal.details
    fail_if (str_eq text "") details_message_required
    now ← time_now
    fail_if (is_future (get_posted_at_from_details ext deal.details) now) not_yet_due
    last ← read (get_last_deal_action_lock deal.id post_message)
    later ← time_now
    send_or_recover deal channel text (left_behind (ok last) later)

  unfoldable pub run_deal_post_sender_once : M Done
  run_deal_post_sender_once = do
    deals ← read Deals.list_deals_escrow_deposit_confirmed_without_post_message
    for_each deals send_deal_post

  -- The body of the checker's loop.
  unfoldable pub check_deal_post : DealPostMessage → M Done
  check_deal_post m = do
    known ← query (λ w. is_known_channel m.channel_id)
    fail_if (not known) not_found
    there ← get_channel_message_exists m.channel_id m.message_id
    judge_post m there

  unfoldable pub run_deal_post_checker_once : M Done
  run_deal_post_checker_once = do
    now ← time_now
    list ← read (Posts.list_deal_post_message_exists_with_next_check_before (pos now))
    for_each list check_deal_post

-- Nothing without posts; else one transaction with two statements.
unfoldable pub settle_all : (List ℕ → ℕ → Db → Db) → List DealPostMessage → M Done
settle_all change [] = pure tt
settle_all change (m ∷ ms) =
    transaction (exec (λ w. w) >> statement (change (map (λ x. x.id) (m ∷ ms))))

-- One half of a tick: the posts of a status, and the transaction that settles them.
unfoldable pub settle_with : DealPostMessageStatus → (List ℕ → ℕ → Db → Db) → M Done
settle_with s change = do
  list ← read (Posts.list_deal_post_message_by_status s)
  settle_all change list

-- Both halves of a tick of RunPassedWorker.
unfoldable pub settle_posts : M Done
settle_posts = do
  ignore (
      settle_with DealPostMessageStatus.passed
        Posts.complete_posts_and_set_deals_waiting_escrow_release)
  ignore (
      settle_with DealPostMessageStatus.deleted
        Posts.fail_posts_and_set_deals_waiting_escrow_refund)
