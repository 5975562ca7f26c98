-- ===== src/PostService/Recording.antt =====
-- The sender of posts moves the database by lifecycle steps only: a post is recorded for a deal that
-- still waits for one, or that has one already, which leaves the database as it was.
use telegram_ads_market.Common.{
  ℕ, ◌<◌, ◌≡◌, ◌⊎◌, inl, inr, sym, subst, Bool, true, false, not, some, List, [], ◌∷◌, ◌++◌, ◌==◌,
  ◌&&◌, if◌then◌else◌, exists, update, All-update, arith, Bool-cases,
}
use telegram_ads_market.Entity.{
  Deal, DealPostMessage, DealPostMessageStatus, DealActionLockStatus, DealActionType, is_status,
  escrow_deposit_confirmed, in_progress,
}
use telegram_ads_market.External.{External}
use telegram_ads_market.Repository.{Db}
use telegram_ads_market.Repository.Deals.{has_id, is_for_deal}
use telegram_ads_market.Repository.Posts
use telegram_ads_market.Repository.Locks.{insert_lock, release_deal_action_lock}
use telegram_ads_market.Lifecycle.Step
use telegram_ads_market.Lifecycle.Step.{Reach, stays, goes, Reach-trans, AwaitsPost}
use telegram_ads_market.Effects.{World, arrive, statement, pure}
use telegram_ads_market.Effects.Laws.{call_cases, then_call}
use telegram_ads_market.Effects.Steps.{OnOk, transaction_on_ok}
use telegram_ads_market.PostService.Operations.{create_deal_post_message}

-- A post for this deal may be recorded.
pub record Ready (id : ℕ) (db : Db) : Type 0 where
  pub below : id < db.next_deal
  pub waits : (exists (is_for_deal id) db.posts ≡ true) ⊎ AwaitsPost id db.deals

exists-append :
    (test : DealPostMessage → Bool) (ms : List DealPostMessage) (m : DealPostMessage)
    → (exists test ms ≡ true) ⊎ (test m ≡ true)
    → exists test (ms ++ m ∷ []) ≡ true
exists-append test [] m (inl h) = absurd (cc)
exists-append test [] m (inr h) = rw h
exists-append test (x ∷ xs) m h = elim (Bool-cases (test x)) [
  | inl e ↦ rw e
  | inr e ↦ rw e (exists-append test xs m (rest h e))
]
  where
    rest :
        (exists test (x ∷ xs) ≡ true) ⊎ (test m ≡ true)
        → test x ≡ false
        → (exists test xs ≡ true) ⊎ (test m ≡ true)
    rest (inl g) e = inl (ground (arith, g, e))
    rest (inr g) e = inr g

-- After the post for one deal is recorded, the others are ready as before.
recorded-Ready :
    (m : DealPostMessage) (now id : ℕ) (db : Db)
    → exists (is_for_deal m.deal_id) db.posts ≡ false
    → Ready id db
    → Ready id (Posts.set_deal_in_progress m.deal_id now (Posts.insert_post m now db))
unfolding Posts.insert_post Posts.set_deal_in_progress
recorded-Ready m now id db new r = rw new (record { below = r.below; waits = later r.waits })
  where
    row : DealPostMessage
    row = record m { id = db.next_post; created_at = now; updated_at = now }

    moved : Deal → Bool
    moved d = has_id m.deal_id d && is_status d.status escrow_deposit_confirmed

    later :
        (exists (is_for_deal id) db.posts ≡ true) ⊎ AwaitsPost id db.deals
        → (exists (is_for_deal id) (db.posts ++ row ∷ []) ≡ true)
          ⊎ AwaitsPost id
              (update moved (λ d. record d { status = in_progress; updated_at = now }) db.deals)
    later (inl old) = inl (exists-append (is_for_deal id) db.posts row (inl old))
    later (inr waits) = elim (Bool-cases (m.deal_id == id)) [
      | inl e ↦ inl (exists-append (is_for_deal id) db.posts row (inr e))
      | inr e ↦ inr (All-update _ moved _ (λ d t w same. ground (arith, same, t, e)) db.deals waits)
    ]

-- Without an earlier post the transaction runs both statements.
both_statements :
    (m : DealPostMessage) (now : ℕ) (db : Db)
    → exists (is_for_deal m.deal_id) db.posts ≡ false
    → Posts.create_post_and_set_in_progress m now db
      ≡ Posts.set_deal_in_progress m.deal_id now (Posts.insert_post m now db)
unfolding Posts.create_post_and_set_in_progress Posts.insert_post Posts.set_deal_in_progress
both_statements m now db new = rw new

one_post :
    (m : DealPostMessage) (now : ℕ) (db : Db)
    → exists (is_for_deal m.deal_id) db.posts ≡ true
    → Posts.insert_post m now db ≡ db
unfolding Posts.insert_post
one_post m now db old = rw old

module _ (ext : External) where
  -- Lifecycle steps after which every deal that was ready for a post still is.
  pub record Advances (a b : Db) : Type 0 where
    pub went : Reach ext a b
    pub ready : (id : ℕ) → Ready id a → Ready id b

  pub Advances-refl : (a : Db) → Advances a a
  Advances-refl a = record { went = stays; ready = λ id r. r }

  pub Advances-trans : {a b c : Db} → Advances a b → Advances b c → Advances a c
  Advances-trans p q = record {
    went = Reach-trans ext p.went q.went;
    ready = λ id r. q.ready id (p.ready id r);
  }

  pub lock_taken :
      (deal_id expire_at now : ℕ) (action : DealActionType) (db : Db)
      → Advances db (insert_lock deal_id action expire_at now db)
  unfolding insert_lock
  lock_taken deal_id expire_at now action db = record {
    went = goes stays (Step.takes_lock deal_id expire_at now action db);
    ready = λ id r. record { below = r.below; waits = r.waits };
  }

  pub lock_released :
      (lock_id now : ℕ) (s : DealActionLockStatus) (db : Db)
      → Advances db (release_deal_action_lock lock_id s now db)
  unfolding release_deal_action_lock
  lock_released lock_id now s db = record {
    went = goes stays (Step.releases_lock lock_id now s db);
    ready = λ id r. record { below = r.below; waits = r.waits };
  }

  created :
      (m : DealPostMessage) (now : ℕ) (db : Db)
      → exists (is_for_deal m.deal_id) db.posts ≡ false
      → m.status ≡ DealPostMessageStatus.exists
      → Ready m.deal_id db
      → Advances db (Posts.set_deal_in_progress m.deal_id now (Posts.insert_post m now db))
  created m now db new status r = record {
    went =
        subst (λ b. Reach ext db b) (both_statements m now db new)
          (goes stays (Step.posts m now db status r.below r.waits));
    ready = λ id. recorded-Ready m now id db new;
  }

  pub create_advances :
      (m : DealPostMessage) (w : World)
      → m.status ≡ DealPostMessageStatus.exists
      → Ready m.deal_id w.db
      → Advances w.db (create_deal_post_message m w).1.db
  unfolding create_deal_post_message
  create_advances m w status r = transaction_on_ok (Advances w.db) _ w (Advances-refl w.db) (
      then_call (OnOk (Advances w.db)) _ _ _ _
        (after (Bool-cases (exists (is_for_deal m.deal_id) w.db.posts)) _ (arrive (arrive w))) tt
        tt)
    where
      after :
          ((exists (is_for_deal m.deal_id) w.db.posts ≡ true)
            ⊎ (exists (is_for_deal m.deal_id) w.db.posts ≡ false))
          → (now : ℕ) (v : World)
          → OnOk (Advances w.db) (
              (if not (exists (is_for_deal m.deal_id) w.db.posts)
                  then statement (Posts.set_deal_in_progress m.deal_id)
                  else pure tt)
                (record v { db = Posts.insert_post m now w.db; tx_start = some now }))
      after (inl old) now v =
          rw old (subst (Advances w.db) (sym (one_post m now w.db old)) (Advances-refl w.db))
      after (inr new) now v =
          rw new (call_cases (OnOk (Advances w.db)) _ _ _ (created m now w.db new status r) tt tt)
