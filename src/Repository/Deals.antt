-- ===== src/Repository/Deals.antt =====
-- internal/market/repository/deal/repository.go.
use telegram_ads_market.Common.{
  ℕ, suc, String, Bool, ◌&&◌, ◌||◌, none, some, List, [], ◌∷◌, ◌++◌, ◌==◌, ltb, if◌then◌else◌,
  holds_text, is_none, select, update, exists,
}
use telegram_ads_market.Entity.{
  Deal, DealStatus, draft, approved, waiting_escrow_deposit, escrow_deposit_confirmed,
  waiting_escrow_release, escrow_release_confirmed, waiting_escrow_refund, escrow_refund_confirmed,
  expired, rejected, is_status, DealPostMessage,
}
use telegram_ads_market.Repository.Database.{Db}

-- INSERT: the columns given by the caller, the key from the sequence, NULL for the rest. The
-- caller's struct receives the key and the times. The text of the details, a JSONB column, is
-- that of the value as Postgres prints it.
unfoldable pub create_deal : Deal → ℕ → Db → Db
create_deal d now db = record db { deals = db.deals ++ row ∷ []; next_deal = suc db.next_deal }
  where
    row : Deal
    row = record d {
      id = db.next_deal;
      lessor_signature = none;
      lessee_signature = none;
      escrow_address = none;
      escrow_release_time = none;
      lessor_payout_address = none;
      lessee_payout_address = none;
      created_at = now;
      updated_at = now;
    }

abbrev pub has_id : ℕ → Deal → Bool
has_id id d = d.id == id

unfoldable pub get_deal_by_id : ℕ → Db → List Deal
get_deal_by_id id db = select (has_id id) db.deals

unfoldable pub list_deals_approved_without_escrow : Db → List Deal
list_deals_approved_without_escrow db =
    select (λ d. is_status d.status approved && is_none d.escrow_address) db.deals

unfoldable pub list_deals_by_status : DealStatus → Db → List Deal
list_deals_by_status s db = select (λ d. is_status d.status s) db.deals

unfoldable pub list_deals_waiting_escrow_release : Db → List Deal
unfolding list_deals_by_status
list_deals_waiting_escrow_release = list_deals_by_status waiting_escrow_release

unfoldable pub list_deals_waiting_escrow_refund : Db → List Deal
unfolding list_deals_by_status
list_deals_waiting_escrow_refund = list_deals_by_status waiting_escrow_refund

abbrev pub is_for_deal : ℕ → DealPostMessage → Bool
is_for_deal id m = m.deal_id == id

-- LEFT JOIN deal_post_message ... WHERE dpm.id IS NULL
unfoldable pub list_deals_escrow_deposit_confirmed_without_post_message : Db → List Deal
list_deals_escrow_deposit_confirmed_without_post_message db =
    select
      (λ d.
        is_status d.status escrow_deposit_confirmed
        && (if exists (is_for_deal d.id) db.posts then Bool.false else Bool.true))
      db.deals

unfoldable pub list_deals_waiting_escrow_deposit_older_than : ℕ → Db → List Deal
list_deals_waiting_escrow_deposit_older_than before db =
    select (λ d. is_status d.status waiting_escrow_deposit && ltb d.updated_at before) db.deals

unfoldable pub list_deals_escrow_confirmed_to_complete : Db → List Deal
list_deals_escrow_confirmed_to_complete db =
    select
      (λ d.
        is_status d.status escrow_release_confirmed || is_status d.status escrow_refund_confirmed)
      db.deals

unfoldable pub get_deal_by_escrow_address : String → Db → List Deal
get_deal_by_escrow_address a db =
    select (λ d. holds_text d.escrow_address a && is_status d.status waiting_escrow_deposit)
      db.deals

-- UPDATE market.deal SET ..., updated_at = NOW() WHERE ...
abbrev pub update_deals : (Deal → Bool) → (Deal → Deal) → ℕ → Db → Db
update_deals test change now db = record db {
  deals = update test (λ d. record (change d) { updated_at = now }) db.deals;
}

abbrev to_status : DealStatus → Deal → Deal
to_status s d = record d { status = s }

unfoldable pub update_deal_draft_fields_and_clear_signatures : Deal → ℕ → Db → Db
update_deal_draft_fields_and_clear_signatures e =
    update_deals (λ d. has_id e.id d && is_status d.status draft)
      λ d. record d {
        type = e.type;
        duration = e.duration;
        price = e.price;
        escrow_amount = e.escrow_amount;
        details = e.details;
        lessor_signature = none;
        lessee_signature = none;
      }

unfoldable pub set_deal_lessor_signature : ℕ → String → ℕ → Db → Db
set_deal_lessor_signature id sig =
    update_deals (has_id id) λ d. record d { lessor_signature = some sig }

unfoldable pub set_deal_lessee_signature : ℕ → String → ℕ → Db → Db
set_deal_lessee_signature id sig =
    update_deals (has_id id) λ d. record d { lessee_signature = some sig }

unfoldable pub set_deal_payout_address : ℕ → ℕ → String → ℕ → Db → Db
set_deal_payout_address id user_id payout =
    update_deals
      (λ d.
        has_id id d
        && is_status d.status draft
        && (user_id == d.lessor_id || user_id == d.lessee_id))
      λ d. record d {
        lessor_payout_address =
            if user_id == d.lessor_id then some payout else d.lessor_payout_address;
        lessee_payout_address =
            if user_id == d.lessee_id then some payout else d.lessee_payout_address;
      }

unfoldable pub set_deal_status_approved : ℕ → ℕ → Db → Db
set_deal_status_approved id = update_deals (has_id id) (to_status approved)

unfoldable pub set_deal_escrow_address : ℕ → String → ℕ → Db → Db
set_deal_escrow_address id address =
    update_deals (λ d. has_id id d && is_status d.status approved)
      λ d. record d { escrow_address = some address; status = waiting_escrow_deposit }

unfoldable pub set_deal_status_expired_by_escrow_address : String → ℕ → Db → Db
set_deal_status_expired_by_escrow_address a =
    update_deals (λ d. holds_text d.escrow_address a && is_status d.status waiting_escrow_deposit)
      (to_status expired)

-- UPDATE ... SET status = @status WHERE id = @id AND status = @from
abbrev move_deal : DealStatus → DealStatus → ℕ → ℕ → Db → Db
move_deal from to id = update_deals (λ d. has_id id d && is_status d.status from) (to_status to)

unfoldable pub set_deal_status_expired_by_deal_id : ℕ → ℕ → Db → Db
set_deal_status_expired_by_deal_id = move_deal waiting_escrow_deposit expired

unfoldable pub set_deal_status_completed : ℕ → ℕ → Db → Db
set_deal_status_completed id =
    update_deals
      (λ d.
        has_id id d
        && (is_status d.status escrow_release_confirmed
            || is_status d.status escrow_refund_confirmed))
      (to_status DealStatus.completed)

unfoldable pub set_deal_status_escrow_deposit_confirmed : ℕ → ℕ → Db → Db
set_deal_status_escrow_deposit_confirmed = move_deal waiting_escrow_deposit escrow_deposit_confirmed

unfoldable pub set_deal_status_escrow_release_confirmed : ℕ → ℕ → Db → Db
set_deal_status_escrow_release_confirmed = move_deal waiting_escrow_release escrow_release_confirmed

unfoldable pub set_deal_status_escrow_refund_confirmed : ℕ → ℕ → Db → Db
set_deal_status_escrow_refund_confirmed = move_deal waiting_escrow_refund escrow_refund_confirmed

unfoldable pub set_deal_status_rejected : ℕ → ℕ → Db → Db
set_deal_status_rejected = move_deal draft rejected

-- `RowsAffected() > 0` of the UPDATE to rejected.
unfoldable pub rejects_some : ℕ → Db → Bool
rejects_some id db = exists (λ d. has_id id d && is_status d.status draft) db.deals
