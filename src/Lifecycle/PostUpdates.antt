-- ===== src/Lifecycle/PostUpdates.antt =====
-- The transactions on market.deal_post_message keep the database sound and move deals lawfully.
use telegram_ads_market.Common.{
  ℕ, ◌<◌, ◌≡◌, refl, sym, subst, ◌⊎◌, inl, inr, Bool, true, false, ◌&&◌, List, [], ◌∷◌, All,
  All-update, All-update-with, All-append, All-zip, update, arith, Bool-cases,
}
use telegram_ads_market.Common.Rows
use telegram_ads_market.Common.Int.{ℤ}
use telegram_ads_market.Entity.{
  Deal, DealStatus, escrow_deposit_confirmed, in_progress, waiting_escrow_release,
  waiting_escrow_refund, is_status, DealPostMessage, DealPostMessageStatus, exists, deleted, passed,
}
use telegram_ads_market.External.{External}
use telegram_ads_market.Repository.{Db}
use telegram_ads_market.Repository.Deals.{has_id, is_for_deal}
use telegram_ads_market.Repository.Posts.{
  create_post_and_set_in_progress, update_deal_post_message_status,
  update_deal_post_message_status_and_next_check, has_post_id, is_any, is_deal_of, to_post_status,
  complete_posts_and_set_deals_waiting_escrow_release,
  fail_posts_and_set_deals_waiting_escrow_refund,
}
use telegram_ads_market.Lifecycle.Diagram.{◌⟶◌, publish, pass, break}
use telegram_ads_market.Lifecycle.Lawful.{Evolves-refl, Evolves-update}
use telegram_ads_market.Lifecycle.Sound.{
  RowSound, IsSound, InProgress, is_pending, is_agreed, is_before_escrow,
}
use telegram_ads_market.Lifecycle.Step.{StillExists, AllAre, AwaitsPost}
use telegram_ads_market.Lifecycle.Rows.{Follows, move-Follows}
use telegram_ads_market.Lifecycle.Busy.{
  Busy-judge, OnePerDeal-update, OnePerDeal-append, settled-in_progress, Busy-settle,
}
use telegram_ads_market.Lifecycle.DealUpdates.{Kept, deals-Kept}

-- The deals that waited for the post are in progress after the UPDATE that follows the INSERT.
published :
    (id now : ℕ) (deals : List Deal)
    → AwaitsPost id deals
    → InProgress id (
        update
          (λ d. has_id id d && is_status d.status escrow_deposit_confirmed)
          (λ d. record d { status = in_progress; updated_at = now })
          deals)
published id now [] a = tt
published id now (d ∷ ds) a = (λ e. ground (arith, a.0), published id now ds a.1)

module _ (ext : External) where
  new_post-Kept :
      (m : DealPostMessage) (now : ℕ) (db : Db)
      → m.deal_id < db.next_deal
      → Rows.exists (is_for_deal m.deal_id) db.posts ≡ false
      → AwaitsPost m.deal_id db.deals
      → IsSound ext db
      → Kept ext db (create_post_and_set_in_progress m now db)
  unfolding create_post_and_set_in_progress
  new_post-Kept m now db below e a h =
      let (s, v) =
        deals-Kept ext (λ d. has_id m.deal_id d && is_status d.status escrow_deposit_confirmed)
          (λ d. record d { status = in_progress; updated_at = now })
          (λ d r t. move-Follows ext d now publish (λ _. refl) refl r (ground arith))
          (λ d t. (ground arith, refl)) db h in
      rw e (
        record {
          rows = s.rows;
          busy = All-append _ db.posts _ s.busy ((λ _. published m.deal_id now db.deals a), tt);
          known = All-append _ db.posts _ h.known (below, tt);
          one_per_deal = OnePerDeal-append db.posts _ e h.one_per_deal;
        },
        v,
      )

  pub post-Kept :
      (m : DealPostMessage) (now : ℕ) (db : Db)
      → m.deal_id < db.next_deal
      → (Rows.exists (is_for_deal m.deal_id) db.posts ≡ true) ⊎ AwaitsPost m.deal_id db.deals
      → IsSound ext db
      → Kept ext db (create_post_and_set_in_progress m now db)
  unfolding create_post_and_set_in_progress
  post-Kept m now db below (inl taken) h = rw taken (h, Evolves-refl db.deals)
  post-Kept m now db below (inr a) h =
      elim (Bool-cases (Rows.exists (is_for_deal m.deal_id) db.posts)) [
        | inl taken ↦ rw taken (h, Evolves-refl db.deals)
        | inr e ↦ new_post-Kept m now db below e a h
      ]

  posts-IsSound :
      (test : DealPostMessage → Bool) (change : DealPostMessage → DealPostMessage)
      → ((m : DealPostMessage) → (change m).deal_id ≡ m.deal_id)
      → (db : Db) → All (λ m. test m ≡ true → m.status ≡ exists) db.posts
      → IsSound ext db
      → IsSound ext (record db { posts = update test change db.posts })
  posts-IsSound test change same db still h = record {
    rows = h.rows;
    busy = Busy-judge db.deals test change same db.posts still h.busy;
    known =
        All-update (λ m. m.deal_id < db.next_deal) test change
          (λ m _ below. subst (λ i. i < db.next_deal) (sym (same m)) below) db.posts h.known;
    one_per_deal = OnePerDeal-update test change same db.posts h.one_per_deal;
  }

  pub judge-Kept :
      (id now : ℕ) (s : DealPostMessageStatus) (db : Db)
      → StillExists id db.posts
      → IsSound ext db
      → Kept ext db (update_deal_post_message_status id s now db)
  unfolding update_deal_post_message_status
  judge-Kept id now s db still h =
      (posts-IsSound (has_post_id id) _ (λ m. refl) db still h, Evolves-refl db.deals)

  pub recheck-Kept :
      (id now : ℕ) (next_check : ℤ) (db : Db)
      → StillExists id db.posts
      → IsSound ext db
      → Kept ext db (update_deal_post_message_status_and_next_check id exists next_check now db)
  unfolding update_deal_post_message_status_and_next_check
  recheck-Kept id now next_check db still h =
      (posts-IsSound (has_post_id id) _ (λ m. refl) db still h, Evolves-refl db.deals)

  settle-Kept :
      (s r : DealPostMessageStatus) (t : DealStatus) (ids : List ℕ) (now : ℕ) (db : Db)
      → is_pending s ≡ true
      → is_pending r ≡ false
      → in_progress ⟶ t
      → is_agreed t ≡ true
      → is_before_escrow t ≡ false
      → AllAre s ids db.posts
      → IsSound ext db
      → Kept ext db (record db {
        posts = update (λ m. is_any ids m.id) (to_post_status r now) db.posts;
        deals =
            update
              (λ d. is_deal_of ids db.posts d.id)
              (λ d. record d { status = t; updated_at = now })
              db.deals;
      })
  settle-Kept s r t ids now db pending over edge agreed escrowed are h = (
    record {
      rows =
          All-update-with busy_row (RowSound ext) test change (λ d b k x. (follows d b k x).0)
            db.deals worked h.rows;
      busy = Busy-settle ids r t now db.deals db.posts over h.one_per_deal h.busy;
      known =
          All-update (λ m. m.deal_id < db.next_deal) (λ m. is_any ids m.id) (to_post_status r now)
            (λ m _ below. below) db.posts h.known;
      one_per_deal = OnePerDeal-update (λ m. is_any ids m.id) _ (λ m. refl) db.posts h.one_per_deal;
    },
    Evolves-update (λ d. busy_row d × RowSound ext d) test change (λ d x k. (follows d x.0 k x.1).1)
        db.deals (All-zip busy_row (RowSound ext) _ (λ d b x. (b, x)) db.deals worked h.rows),
  )
    where
      test : Deal → Bool
      test d = is_deal_of ids db.posts d.id

      change : Deal → Deal
      change d = record d { status = t; updated_at = now }

      busy_row : Deal → Type 0
      busy_row d = is_deal_of ids db.posts d.id ≡ true → is_status d.status in_progress ≡ true

      worked : All busy_row db.deals
      worked = settled-in_progress s ids db.deals db.posts pending are h.busy

      follows : (d : Deal) → busy_row d → test d ≡ true → RowSound ext d → Follows ext d (change d)
      follows d b k x = move-Follows ext d now edge (λ _. refl) escrowed x (b k)

  pub settle_passed-Kept :
      (ids : List ℕ) (now : ℕ) (db : Db)
      → AllAre passed ids db.posts
      → IsSound ext db
      → Kept ext db (complete_posts_and_set_deals_waiting_escrow_release ids now db)
  unfolding complete_posts_and_set_deals_waiting_escrow_release
  settle_passed-Kept ids now db =
      settle-Kept passed DealPostMessageStatus.completed waiting_escrow_release ids now db refl refl
        pass refl refl

  pub settle_deleted-Kept :
      (ids : List ℕ) (now : ℕ) (db : Db)
      → AllAre deleted ids db.posts
      → IsSound ext db
      → Kept ext db (fail_posts_and_set_deals_waiting_escrow_refund ids now db)
  unfolding fail_posts_and_set_deals_waiting_escrow_refund
  settle_deleted-Kept ids now db =
      settle-Kept deleted DealPostMessageStatus.failed waiting_escrow_refund ids now db refl refl
        break refl refl
