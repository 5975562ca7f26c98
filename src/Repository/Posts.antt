-- ===== src/Repository/Posts.antt =====
-- internal/market/repository/deal_post_message/repository.go.
use telegram_ads_market.Common.{
  ℕ, suc, Bool, true, false, ◌&&◌, List, [], ◌∷◌, ◌++◌, ◌==◌, if◌then◌else◌, select, update,
}
use telegram_ads_market.Common.Rows
use telegram_ads_market.Common.Int.{ℤ, leb_ℤ}
use telegram_ads_market.Entity.{
  DealStatus, DealPostMessage, DealPostMessageStatus, escrow_deposit_confirmed, in_progress,
  waiting_escrow_release, waiting_escrow_refund, is_status, is_post_status,
}
use telegram_ads_market.Repository.Database.{Db}
use telegram_ads_market.Repository.Deals.{has_id, is_for_deal, update_deals}

-- The INSERT ... ON CONFLICT (deal_id) DO NOTHING.
unfoldable pub insert_post : DealPostMessage → ℕ → Db → Db
insert_post m now db =
    if Rows.exists (is_for_deal m.deal_id) db.posts
    then db
    else record db { posts = db.posts ++ row ∷ []; next_post = suc db.next_post }
  where
    row : DealPostMessage
    row = record m { id = db.next_post; created_at = now; updated_at = now }

-- The UPDATE that follows a successful INSERT.
unfoldable pub set_deal_in_progress : ℕ → ℕ → Db → Db
set_deal_in_progress deal_id =
    update_deals (λ d. has_id deal_id d && is_status d.status escrow_deposit_confirmed)
      λ d. record d { status = in_progress }

-- The transaction of CreateDealPostMessageAndSetDealInProgress, which ends after a conflict.
unfoldable pub create_post_and_set_in_progress : DealPostMessage → ℕ → Db → Db
unfolding insert_post set_deal_in_progress
create_post_and_set_in_progress m now db =
    if Rows.exists (is_for_deal m.deal_id) db.posts
    then db
    else set_deal_in_progress m.deal_id now (insert_post m now db)

abbrev pub has_post_id : ℕ → DealPostMessage → Bool
has_post_id id m = m.id == id

abbrev pub to_post_status : DealPostMessageStatus → ℕ → DealPostMessage → DealPostMessage
to_post_status s now m = record m { status = s; updated_at = now }

unfoldable pub update_deal_post_message_status : ℕ → DealPostMessageStatus → ℕ → Db → Db
update_deal_post_message_status id s now db = record db {
  posts = update (has_post_id id) (to_post_status s now) db.posts;
}

unfoldable pub update_deal_post_message_status_and_next_check :
    ℕ → DealPostMessageStatus → ℤ → ℕ → Db → Db
update_deal_post_message_status_and_next_check id s next_check now db = record db {
  posts =
      update (has_post_id id) (λ m. record (to_post_status s now m) { next_check = next_check })
        db.posts;
}

unfoldable pub list_deal_post_message_exists_with_next_check_before : ℤ → Db → List DealPostMessage
list_deal_post_message_exists_with_next_check_before before db =
    select (λ m. is_post_status m.status DealPostMessageStatus.exists && leb_ℤ m.next_check before)
      db.posts

unfoldable pub list_deal_post_message_by_status : DealPostMessageStatus → Db → List DealPostMessage
list_deal_post_message_by_status s db = select (λ m. is_post_status m.status s) db.posts

-- x = ANY(ids)
abbrev pub is_any : List ℕ → ℕ → Bool
is_any [] x = false
is_any (y ∷ ys) x = if y == x then true else is_any ys x

-- id IN (SELECT deal_id FROM market.deal_post_message WHERE id = ANY(@ids))
abbrev pub is_deal_of : List ℕ → List DealPostMessage → ℕ → Bool
is_deal_of ids [] deal_id = false
is_deal_of ids (m ∷ ms) deal_id =
    if is_any ids m.id && (m.deal_id == deal_id) then true else is_deal_of ids ms deal_id

-- Both UPDATEs of the transactions below.
abbrev settle : DealPostMessageStatus → DealStatus → List ℕ → ℕ → Db → Db
settle s t ids now db =
    update_deals (λ d. is_deal_of ids db.posts d.id) (λ d. record d { status = t }) now
      (record db { posts = update (λ m. is_any ids m.id) (to_post_status s now) db.posts })

unfoldable pub complete_posts_and_set_deals_waiting_escrow_release : List ℕ → ℕ → Db → Db
complete_posts_and_set_deals_waiting_escrow_release =
    settle DealPostMessageStatus.completed waiting_escrow_release

unfoldable pub fail_posts_and_set_deals_waiting_escrow_refund : List ℕ → ℕ → Db → Db
fail_posts_and_set_deals_waiting_escrow_refund =
    settle DealPostMessageStatus.failed waiting_escrow_refund
