-- ===== src/Lifecycle/Step.antt =====
-- One committed change of the database by any of the processes: the SQL statement of a service,
-- under the facts that its transaction or its service has established before it. Statements with a
-- guard of their own in the WHERE clause need none.
use telegram_ads_market.Common.{ℕ, ◌<◌, String, ◌≡◌, ◌⊎◌, true, false, List, [], ◌∷◌, All}
use telegram_ads_market.Common.Text.{str_eq}
use telegram_ads_market.Common.Rows
use telegram_ads_market.Common.Int.{ℤ}
use telegram_ads_market.Entity.{
  Deal, draft, escrow_deposit_confirmed, is_status, DealPostMessage, DealPostMessageStatus, exists,
  deleted, passed, DealActionType, DealActionLockStatus,
}
use telegram_ads_market.External.{External}
use telegram_ads_market.Signature.{deal_signatures_match}
use telegram_ads_market.Repository.{Db}
use telegram_ads_market.Repository.Deals.{
  create_deal, get_deal_by_id, update_deal_draft_fields_and_clear_signatures,
  set_deal_lessor_signature, set_deal_lessee_signature, set_deal_payout_address,
  set_deal_status_approved, set_deal_escrow_address, set_deal_status_expired_by_escrow_address,
  set_deal_status_expired_by_deal_id, set_deal_status_completed,
  set_deal_status_escrow_deposit_confirmed, set_deal_status_escrow_release_confirmed,
  set_deal_status_escrow_refund_confirmed, set_deal_status_rejected, is_for_deal,
}
use telegram_ads_market.Repository.Posts.{
  create_post_and_set_in_progress, update_deal_post_message_status,
  update_deal_post_message_status_and_next_check, has_post_id, is_any,
  complete_posts_and_set_deals_waiting_escrow_release,
  fail_posts_and_set_deals_waiting_escrow_refund,
}
use telegram_ads_market.Repository.Locks.{insert_lock, release_deal_action_lock}
use telegram_ads_market.Lifecycle.Sound.{HasPayouts}

-- The posts with this id still exist as far as the checker knows.
abbrev pub StillExists : ℕ → List DealPostMessage → Type 0
StillExists id = All (λ m. has_post_id id m ≡ true → m.status ≡ exists)

-- The posts with these ids have this status.
abbrev pub AllAre : DealPostMessageStatus → List ℕ → List DealPostMessage → Type 0
AllAre s ids = All (λ m. is_any ids m.id ≡ true → m.status ≡ s)

-- The deals that a post is for wait for it.
abbrev pub AwaitsPost : ℕ → List Deal → Type 0
AwaitsPost id = All (λ d. d.id ≡ id → is_status d.status escrow_deposit_confirmed ≡ true)

module _ (ext : External) where
  pub data Step : Db → Db → Type 0 where
    creates :
        (d : Deal) (now : ℕ) (db : Db)
        → is_status d.status draft ≡ true
        → Step db (create_deal d now db)
    edits :
        (e : Deal) (now : ℕ) (db : Db)
        → Step db (update_deal_draft_fields_and_clear_signatures e now db)
    signs_as_lessor :
        (id now : ℕ) (sig : String) (db : Db) (d : Deal)
        → get_deal_by_id id db ≡ d ∷ []
        → is_status d.status draft ≡ true
        → HasPayouts d
        → Step db (set_deal_lessor_signature id sig now db)
    signs_as_lessee :
        (id now : ℕ) (sig : String) (db : Db) (d : Deal)
        → get_deal_by_id id db ≡ d ∷ []
        → is_status d.status draft ≡ true
        → HasPayouts d
        → Step db (set_deal_lessee_signature id sig now db)
    approves :
        (id now : ℕ) (db : Db) (d : Deal)
        → get_deal_by_id id db ≡ d ∷ []
        → is_status d.status draft ≡ true
        → deal_signatures_match ext d ≡ true
        → Step db (set_deal_status_approved id now db)
    sets_payout :
        (id user_id now : ℕ) (payout : String) (db : Db)
        → str_eq payout "" ≡ false
        → Step db (set_deal_payout_address id user_id payout now db)
    rejects : (id now : ℕ) (db : Db) → Step db (set_deal_status_rejected id now db)
    opens_escrow :
        (id now : ℕ) (address : String) (db : Db)
        → Step db (set_deal_escrow_address id address now db)
    expires_address :
        (address : String) (now : ℕ) (db : Db)
        → Step db (set_deal_status_expired_by_escrow_address address now db)
    expires : (id now : ℕ) (db : Db) → Step db (set_deal_status_expired_by_deal_id id now db)
    confirms_deposit :
        (id now : ℕ) (db : Db) → Step db (set_deal_status_escrow_deposit_confirmed id now db)
    confirms_release :
        (id now : ℕ) (db : Db) → Step db (set_deal_status_escrow_release_confirmed id now db)
    confirms_refund :
        (id now : ℕ) (db : Db) → Step db (set_deal_status_escrow_refund_confirmed id now db)
    completes : (id now : ℕ) (db : Db) → Step db (set_deal_status_completed id now db)
    posts :
        (m : DealPostMessage) (now : ℕ) (db : Db)
        → m.status ≡ exists
        → m.deal_id < db.next_deal
        → (Rows.exists (is_for_deal m.deal_id) db.posts ≡ true) ⊎ AwaitsPost m.deal_id db.deals
        → Step db (create_post_and_set_in_progress m now db)
    judges :
        (id now : ℕ) (s : DealPostMessageStatus) (db : Db)
        → StillExists id db.posts
        → Step db (update_deal_post_message_status id s now db)
    rechecks :
        (id now : ℕ) (next_check : ℤ) (db : Db)
        → StillExists id db.posts
        → Step db (update_deal_post_message_status_and_next_check id exists next_check now db)
    settles_passed :
        (ids : List ℕ) (now : ℕ) (db : Db)
        → AllAre passed ids db.posts
        → Step db (complete_posts_and_set_deals_waiting_escrow_release ids now db)
    settles_deleted :
        (ids : List ℕ) (now : ℕ) (db : Db)
        → AllAre deleted ids db.posts
        → Step db (fail_posts_and_set_deals_waiting_escrow_refund ids now db)
    takes_lock :
        (deal_id expire_at now : ℕ) (action : DealActionType) (db : Db)
        → Step db (insert_lock deal_id action expire_at now db)
    releases_lock :
        (lock_id now : ℕ) (s : DealActionLockStatus) (db : Db)
        → Step db (release_deal_action_lock lock_id s now db)

  -- Any number of such changes, in any order and by any processes.
  pub data Reach (db : Db) : Db → Type 0 where
    stays : Reach db db
    goes : {db' db'' : Db} → Reach db db' → Step db' db'' → Reach db db''

  pub Reach-trans : {a b c : Db} → Reach a b → Reach b c → Reach a c
  Reach-trans p stays = p
  Reach-trans p (goes q s) = goes (Reach-trans p q) s
