-- ===== src/PostService/Checking.antt =====
-- The checker of posts moves the database by lifecycle steps only. A post that it judges has been
-- listed as existing, and nobody but this pass has judged it since: the operation runs alone, and
-- the pass judges each of its posts once.
use telegram_ads_market.Common.{
  ℕ, ◌≡◌, ◌≢◌, refl, sym, ◌∙◌, update, true, false, List, [], ◌∷◌, map, All, All-map, All-update,
  ==→eq, ◌&&◌, Bool, arith,
}
use telegram_ads_market.Common.Int.{ℤ, pos, leb_ℤ, ltb_ℤ, ◌+ℤ◌}
use telegram_ads_market.Entity.{DealPostMessage, DealPostMessageStatus, is_post_status}
use telegram_ads_market.External.{External}
use telegram_ads_market.Repository.{Db}
use telegram_ads_market.Repository.Posts
use telegram_ads_market.Repository.Posts.{has_post_id}
use telegram_ads_market.Lifecycle.Step
use telegram_ads_market.Lifecycle.Step.{Reach, stays, goes, Reach-trans, StillExists}
use telegram_ads_market.Lifecycle.Keys.{Keyed, Distinct}
use telegram_ads_market.Lifecycle.Unique.{unique, All-selected, Distinct-select}
use telegram_ads_market.Effects.{World, Result, Done, arrive, for_each, ignore, ◌>>=◌}
use telegram_ads_market.Effects.Laws.{then_query, then_fail_if, if_cases, last_ignore}
use telegram_ads_market.Effects.Steps.{then_does}
use telegram_ads_market.PostService.Settling.{is_post_status→eq}
use telegram_ads_market.PostService.Operations.{
  hour, get_channel_message_exists, judge_post, check_deal_post, run_deal_post_checker_once,
}

-- An UPDATE of the post with one id leaves the posts with another as they were.
others_exist :
    (id other : ℕ) (change : DealPostMessage → DealPostMessage)
    → ((m : DealPostMessage) → (change m).id ≡ m.id)
    → other ≢ id
    → (ms : List DealPostMessage) → StillExists other ms
    → StillExists other (update (has_post_id id) change ms)
others_exist id other change same ne ms =
    All-update _ (has_post_id id) change
      (λ m e h t. absurd (ne (sym (==→eq _ other t) ∙ same m ∙ ==→eq m.id id e))) ms

module _ (ext : External) where
  -- What the check of the post with an id does: lifecycle steps, and nothing to the other posts.
  record Judged (id : ℕ) (a b : Db) : Type 0 where
    went : Reach ext a b
    others : (other : ℕ) → other ≢ id → StillExists other a.posts → StillExists other b.posts

  unjudged : (id : ℕ) (db : Db) → Judged id db db
  unjudged id db = record { went = stays; others = λ other ne h. h }

  status_set :
      (id now : ℕ) (s : DealPostMessageStatus) (db : Db)
      → StillExists id db.posts
      → Judged id db (Posts.update_deal_post_message_status id s now db)
  unfolding Posts.update_deal_post_message_status
  status_set id now s db still = record {
    went = goes stays (Step.judges id now s db still);
    others = λ other ne. others_exist id other _ (λ m. refl) ne db.posts;
  }

  rechecked :
      (id now : ℕ) (next_check : ℤ) (db : Db)
      → StillExists id db.posts
      → Judged id db (
          Posts.update_deal_post_message_status_and_next_check id DealPostMessageStatus.exists
            next_check now db)
  unfolding Posts.update_deal_post_message_status_and_next_check
  rechecked id now next_check db still = record {
    went = goes stays (Step.rechecks id now next_check db still);
    others = λ other ne. others_exist id other _ (λ m. refl) ne db.posts;
  }

  judge_judges :
      (m : DealPostMessage) (there : Bool) (w : World)
      → StillExists m.id w.db.posts
      → Judged m.id w.db (judge_post m there w).1.db
  unfolding judge_post
  judge_judges m false w still =
      last_ignore (λ o. Judged m.id w.db o.1.db) _ _ w (status_set m.id _ _ w.db still)
        (unjudged m.id w.db)
  judge_judges m true w still =
      if_cases (λ (o : Result Done × World). Judged m.id w.db o.1.db)
        (ltb_ℤ m.until_ts (m.next_check +ℤ pos hour)) _ _ w
        (λ _.
          last_ignore (λ o. Judged m.id w.db o.1.db) _ _ w (status_set m.id _ _ w.db still)
            (unjudged m.id w.db))
        (λ _.
          last_ignore (λ o. Judged m.id w.db o.1.db) _ _ w (rechecked m.id _ _ w.db still)
            (unjudged m.id w.db))

  module _ (is_known_channel : ℕ → Bool) where
    check_judges :
        (m : DealPostMessage) (w : World)
        → StillExists m.id w.db.posts
        → Judged m.id w.db (check_deal_post ext is_known_channel m w).1.db
    unfolding check_deal_post get_channel_message_exists
    check_judges m w still =
        then_query Gone _ _ w
          (then_fail_if Gone _ _ _ _ (λ _. unjudged m.id w.db)
            (λ _. then_query Gone _ _ _ (judge_judges m _ _ still) (unjudged m.id w.db)))
          (unjudged m.id w.db)
      where
        Gone : {A : Type 0} → Result A × World → Type 0
        Gone o = Judged m.id w.db o.1.db

    -- Each post of the list still exists when its turn comes, since the ids are distinct.
    each_judges :
        (ms : List DealPostMessage) (w : World)
        → Distinct (map (λ m. m.id) ms)
        → All (λ m. StillExists m.id w.db.posts) ms
        → Reach ext w.db (for_each ms (check_deal_post ext is_known_channel) w).1.db
    unfolding for_each ◌>>=◌ ignore
    each_judges [] w d still = stays
    each_judges (m ∷ ms) w d still =
        let judged = check_judges m w still.0 in
        Reach-trans ext judged.went (
          each_judges ms (check_deal_post ext is_known_channel m w).1 d.1
            (others ms d.0 still.1 judged))
      where
        others :
            (xs : List DealPostMessage)
            → All (λ k. k ≢ m.id) (map (λ x. x.id) xs)
            → All (λ x. StillExists x.id w.db.posts) xs
            → {db : Db} → Judged m.id w.db db
            → All (λ x. StillExists x.id db.posts) xs
        others [] ne h judged = tt
        others (x ∷ xs) ne h judged = (judged.others x.id ne.0 h.0, others xs ne.1 h.1 judged)

    -- Whatever fails, a pass of the checker over the posts that are due takes lifecycle steps only,
    -- where the keys are distinct.
    pub run_deal_post_checker_once-Refines :
        (w : World)
        → Keyed w.db
        → Reach ext w.db (run_deal_post_checker_once ext is_known_channel w).1.db
    unfolding run_deal_post_checker_once Posts.list_deal_post_message_exists_with_next_check_before
    run_deal_post_checker_once-Refines w k = then_does Gone _ _ _ _ (
        then_query Gone _ _ w
          (each_judges _ (arrive w) (Distinct-select (λ m. m.id) _ w.db.posts k.posts.distinct) (
            All-map _ _ listed _ (
              All-selected (λ m. m.id) _ (due (pos w.now)) w.db.posts
                (unique (λ m. m.id) (λ m. m.status ≡ DealPostMessageStatus.exists) w.db.posts
                  k.posts.distinct))))
          stays)
      where
        Gone : {A : Type 0} → Result A × World → Type 0
        Gone o = Reach ext w.db o.1.db

        due : ℤ → DealPostMessage → Bool
        due before m =
            is_post_status m.status DealPostMessageStatus.exists && leb_ℤ m.next_check before

        listed :
            (m : DealPostMessage)
            → (due (pos w.now) m ≡ true)
              × (m.status ≡ DealPostMessageStatus.exists
                  → All (λ b. b.id ≡ m.id → b.status ≡ DealPostMessageStatus.exists) w.db.posts)
            → StillExists m.id w.db.posts
        listed m h =
            All-map _ _ (λ b f t. f (==→eq b.id m.id t)) w.db.posts
              (h.1 (is_post_status→eq m.status DealPostMessageStatus.exists (ground (arith, h.0))))
