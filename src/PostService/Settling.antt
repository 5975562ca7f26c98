-- ===== src/PostService/Settling.antt =====
-- The worker that settles posts moves the database by lifecycle steps only. The posts that it lists
-- are settled by their ids, and the ids are keys.
use telegram_ads_market.Common.{ℕ, ◌≡◌, true, List, [], ◌∷◌, map, All-map, arith}
use telegram_ads_market.Entity.{DealPostMessage, DealPostMessageStatus, is_post_status}
use telegram_ads_market.External.{External}
use telegram_ads_market.Repository.{Db}
use telegram_ads_market.Repository.Posts
use telegram_ads_market.Lifecycle.Step
use telegram_ads_market.Lifecycle.Step.{Reach, stays, goes, Reach-trans, AllAre}
use telegram_ads_market.Lifecycle.Keys.{Keyed, Reach-Keyed}
use telegram_ads_market.Lifecycle.Unique.{unique, All-selected, any_of}
use telegram_ads_market.Effects.{World, Result, arrive, ignore}
use telegram_ads_market.Effects.Laws.{then_call, then_query, call_cases, transaction_cases}
use telegram_ads_market.Escrow.Laws.{then_ignored}
use telegram_ads_market.PostService.Operations.{settle_all, settle_with, settle_posts}

pub is_post_status→eq : (a b : DealPostMessageStatus) → is_post_status a b ≡ true → a ≡ b
is_post_status→eq a b h = ground arith

-- The posts with the ids of the listed ones have the status that was listed.
listed_are :
    (s : DealPostMessageStatus) (db : Db)
    → Keyed db
    → AllAre s (map (λ m. m.id) (Posts.list_deal_post_message_by_status s db)) db.posts
unfolding Posts.list_deal_post_message_by_status
listed_are s db k =
    any_of (λ m. m.id) (λ m. m.status ≡ s) _ db.posts
      (All-map _ _ (λ m h. h.1 (is_post_status→eq m.status s h.0)) _
        (All-selected (λ m. m.id) _ _ db.posts
          (unique (λ m. m.id) (λ m. m.status ≡ s) db.posts k.posts.distinct)))

module _ (ext : External) where
  settle_with-Refines :
      (s : DealPostMessageStatus) (change : List ℕ → ℕ → Db → Db)
      → ((ids : List ℕ) (now : ℕ) (db : Db)
          → AllAre s ids db.posts
          → Step.Step ext db (change ids now db))
      → (w : World) → Keyed w.db
      → Reach ext w.db (settle_with s change w).1.db
  unfolding settle_with settle_all
  settle_with-Refines s change step w k = then_query Gone _ _ w (go _ (listed_are s w.db k)) stays
    where
      Gone : {A : Type 0} → Result A × World → Type 0
      Gone o = Reach ext w.db o.1.db

      go :
          (list : List DealPostMessage)
          → AllAre s (map (λ m. m.id) list) w.db.posts
          → Reach ext w.db (settle_all change list (arrive w)).1.db
      go [] are = stays
      go (m ∷ ms) are = transaction_cases (Reach ext w.db) _ (arrive w) stays (
          then_call Gone _ _ _ _
            (call_cases Gone _ _ _ (goes stays (step _ _ _ are)) stays
              (goes stays (step _ _ _ are)))
            stays stays)

  -- Whatever fails, a tick of the settling worker takes lifecycle steps only, where the keys are
  -- distinct.
  pub settle_posts-Refines : (w : World) → Keyed w.db → Reach ext w.db (settle_posts w).1.db
  unfolding settle_posts ignore
  settle_posts-Refines w k =
      then_ignored (λ v. Reach ext w.db v.db) (λ v. Reach ext w.db v.db) (settle_with _ _) _ w
        (settle_with-Refines DealPostMessageStatus.passed _ Step.settles_passed w k)
        (λ v r. Reach-trans ext r (
          settle_with-Refines DealPostMessageStatus.deleted _ Step.settles_deleted v
            (Reach-Keyed ext r k)))
