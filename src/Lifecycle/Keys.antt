-- ===== src/Lifecycle/Keys.antt =====
-- The primary keys of the deals and of the posts: every history keeps them distinct and below the
-- sequences that new ones are drawn from.
use telegram_ads_market.Common.{
  ℕ, suc, ◌<◌, ◌≡◌, ◌≢◌, refl, sym, ap, subst, Bool, List, [], ◌∷◌, ◌++◌, map, update, exists, All,
  arith, Bool-cases, inl, inr,
}
use telegram_ads_market.Entity.{Deal, DealPostMessage}
use telegram_ads_market.External.{External}
use telegram_ads_market.Repository.{Db}
use telegram_ads_market.Repository.Deals
use telegram_ads_market.Repository.Deals.{has_id, is_for_deal}
use telegram_ads_market.Repository.Posts
use telegram_ads_market.Repository.Locks.{insert_lock, release_deal_action_lock}
use telegram_ads_market.Lifecycle.Step.{
  Step, creates, edits, signs_as_lessor, signs_as_lessee, approves, sets_payout, rejects,
  opens_escrow, expires_address, expires, confirms_deposit, confirms_release, confirms_refund,
  completes, posts, judges, rechecks, settles_passed, settles_deleted, takes_lock, releases_lock,
  Reach, stays, goes,
}
use telegram_ads_market.Lifecycle.History.{empty_db}

abbrev pub Distinct : List ℕ → Type 0
Distinct [] = Unit
Distinct (x ∷ xs) = All (λ y. y ≢ x) xs × Distinct xs

-- Keys drawn from a sequence that goes on with `next`.
pub record Drawn (keys : List ℕ) (next : ℕ) : Type 0 where
  pub distinct : Distinct keys
  pub below : All (λ k. k < next) keys

abbrev pub deal_keys : Db → List ℕ
deal_keys db = map (λ d. d.id) db.deals

abbrev pub post_keys : Db → List ℕ
post_keys db = map (λ m. m.id) db.posts

pub record Keyed (db : Db) : Type 0 where
  pub deals : Drawn (deal_keys db) db.next_deal
  pub posts : Drawn (post_keys db) db.next_post

-- An update that keeps the ids keeps the keys.
keys-update :
    {A : Type 0} (key : A → ℕ) (test : A → Bool) (change : A → A)
    → ((x : A) → key (change x) ≡ key x)
    → (xs : List A) → map key (update test change xs) ≡ map key xs
keys-update key test change same [] = refl
keys-update key test change same (x ∷ xs) =
    ground (arith, same x, keys-update key test change same xs)

Distinct-append :
    (xs : List ℕ) (n : ℕ) → Distinct xs → All (λ k. k < n) xs → Distinct (xs ++ n ∷ [])
Distinct-append [] n d b = (tt, tt)
Distinct-append (x ∷ xs) n d b = (All-snoc xs d.0 (omega arith), Distinct-append xs n d.1 b.1)
  where
    All-snoc : (ys : List ℕ) → All (λ y. y ≢ x) ys → n ≢ x → All (λ y. y ≢ x) (ys ++ n ∷ [])
    All-snoc [] a e = (e, tt)
    All-snoc (y ∷ ys) a e = (a.0, All-snoc ys a.1 e)

below-append : (xs : List ℕ) (n : ℕ) → All (λ k. k < n) xs → All (λ k. k < suc n) (xs ++ n ∷ [])
below-append [] n b = (omega arith, tt)
below-append (x ∷ xs) n b = (omega arith, below-append xs n b.1)

keys-append :
    {A : Type 0} (key : A → ℕ) (xs : List A) (x : A)
    → map key (xs ++ x ∷ []) ≡ map key xs ++ key x ∷ []
keys-append key [] x = refl
keys-append key (y ∷ ys) x = ap (λ r. key y ∷ r) (keys-append key ys x)

-- The next key of the sequence joins the others.
Drawn-next :
    {A : Type 0} (key : A → ℕ) (xs : List A) (x : A) (n : ℕ)
    → key x ≡ n
    → Drawn (map key xs) n
    → Drawn (map key (xs ++ x ∷ [])) (suc n)
Drawn-next key xs x n e d =
    rw (keys-append key xs x, e)
      (record {
        distinct = Distinct-append (map key xs) n d.distinct d.below;
        below = below-append (map key xs) n d.below;
      })

Drawn-update :
    {A : Type 0} (key : A → ℕ) (test : A → Bool) (change : A → A)
    → ((x : A) → key (change x) ≡ key x)
    → (xs : List A) (n : ℕ) → Drawn (map key xs) n
    → Drawn (map key (update test change xs)) n
Drawn-update key test change same xs n d =
    subst (λ ks. Drawn ks n) (sym (keys-update key test change same xs)) d

-- An UPDATE of the deals that keeps their ids.
deals-Keyed :
    (test : Deal → Bool) (change : Deal → Deal)
    → ((d : Deal) → (change d).id ≡ d.id)
    → (db : Db) → Keyed db
    → Keyed (record db { deals = update test change db.deals })
deals-Keyed test change same db k = record {
  deals = Drawn-update (λ d. d.id) test change same db.deals db.next_deal k.deals;
  posts = k.posts;
}

posts-Keyed :
    (test : DealPostMessage → Bool) (change : DealPostMessage → DealPostMessage)
    → ((m : DealPostMessage) → (change m).id ≡ m.id)
    → (db : Db) → Keyed db
    → Keyed (record db { posts = update test change db.posts })
posts-Keyed test change same db k = record {
  deals = k.deals;
  posts = Drawn-update (λ m. m.id) test change same db.posts db.next_post k.posts;
}

create-Keyed : (d : Deal) (now : ℕ) (db : Db) → Keyed db → Keyed (Deals.create_deal d now db)
unfolding Deals.create_deal
create-Keyed d now db k = record {
  deals = Drawn-next (λ e. e.id) db.deals _ db.next_deal refl k.deals;
  posts = k.posts;
}

post-Keyed :
    (m : DealPostMessage) (now : ℕ) (db : Db)
    → Keyed db
    → Keyed (Posts.create_post_and_set_in_progress m now db)
unfolding Posts.create_post_and_set_in_progress Posts.insert_post Posts.set_deal_in_progress
post-Keyed m now db k = elim (Bool-cases (exists (is_for_deal m.deal_id) db.posts)) [
  | inl e ↦ rw e k
  | inr e ↦ rw e (
      deals-Keyed _ _ (λ d. refl) _
        (record {
          deals = k.deals;
          posts = Drawn-next (λ p. p.id) db.posts _ db.next_post refl k.posts;
        }))
]

module _ (ext : External) where
  pub Step-Keyed : {db db' : Db} → Step ext db db' → Keyed db → Keyed db'
  unfolding Deals.update_deal_draft_fields_and_clear_signatures Deals.set_deal_lessor_signature
      Deals.set_deal_lessee_signature Deals.set_deal_status_approved Deals.set_deal_payout_address
      Deals.set_deal_status_rejected Deals.set_deal_escrow_address
      Deals.set_deal_status_expired_by_escrow_address Deals.set_deal_status_expired_by_deal_id
      Deals.set_deal_status_escrow_deposit_confirmed Deals.set_deal_status_escrow_release_confirmed
      Deals.set_deal_status_escrow_refund_confirmed Deals.set_deal_status_completed
      Posts.update_deal_post_message_status Posts.update_deal_post_message_status_and_next_check
      Posts.complete_posts_and_set_deals_waiting_escrow_release
      Posts.fail_posts_and_set_deals_waiting_escrow_refund insert_lock release_deal_action_lock
  Step-Keyed (creates d now db s) k = create-Keyed d now db k
  Step-Keyed (edits e now db) k = deals-Keyed _ _ (λ d. refl) db k
  Step-Keyed (signs_as_lessor id now sig db d e s p) k = deals-Keyed _ _ (λ d. refl) db k
  Step-Keyed (signs_as_lessee id now sig db d e s p) k = deals-Keyed _ _ (λ d. refl) db k
  Step-Keyed (approves id now db d e s m) k = deals-Keyed _ _ (λ d. refl) db k
  Step-Keyed (sets_payout id user_id now payout db p) k = deals-Keyed _ _ (λ d. refl) db k
  Step-Keyed (rejects id now db) k = deals-Keyed _ _ (λ d. refl) db k
  Step-Keyed (opens_escrow id now address db) k = deals-Keyed _ _ (λ d. refl) db k
  Step-Keyed (expires_address address now db) k = deals-Keyed _ _ (λ d. refl) db k
  Step-Keyed (expires id now db) k = deals-Keyed _ _ (λ d. refl) db k
  Step-Keyed (confirms_deposit id now db) k = deals-Keyed _ _ (λ d. refl) db k
  Step-Keyed (confirms_release id now db) k = deals-Keyed _ _ (λ d. refl) db k
  Step-Keyed (confirms_refund id now db) k = deals-Keyed _ _ (λ d. refl) db k
  Step-Keyed (completes id now db) k = deals-Keyed _ _ (λ d. refl) db k
  Step-Keyed (posts m now db s b w) k = post-Keyed m now db k
  Step-Keyed (judges id now s db still) k = posts-Keyed _ _ (λ m. refl) db k
  Step-Keyed (rechecks id now next_check db still) k = posts-Keyed _ _ (λ m. refl) db k
  Step-Keyed (settles_passed ids now db are) k =
      deals-Keyed _ _ (λ d. refl) _ (posts-Keyed _ _ (λ m. refl) db k)
  Step-Keyed (settles_deleted ids now db are) k =
      deals-Keyed _ _ (λ d. refl) _ (posts-Keyed _ _ (λ m. refl) db k)
  Step-Keyed (takes_lock deal_id expire_at now action db) k = record {
    deals = k.deals;
    posts = k.posts;
  }
  Step-Keyed (releases_lock lock_id now s db) k = record { deals = k.deals; posts = k.posts }

  pub Reach-Keyed : {db db' : Db} → Reach ext db db' → Keyed db → Keyed db'
  Reach-Keyed stays k = k
  Reach-Keyed (goes r s) k = Step-Keyed s (Reach-Keyed r k)

  pub empty_db-Keyed : Keyed empty_db
  empty_db-Keyed = record {
    deals = record { distinct = tt; below = tt };
    posts = record { distinct = tt; below = tt };
  }
