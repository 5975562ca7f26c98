-- ===== src/DealService/Operations.antt =====
-- internal/market/service/deal/deal.go, and SignDealInTx of the deal repository.
use telegram_ads_market.Common.{
  ℕ, String, Bool, not, ◌&&◌, ◌||◌, Option, none, some, List, ◌∷◌, ◌==◌, if◌then◌else◌, is_unset,
  text_or_empty, select,
}
use telegram_ads_market.Common.Int.{ℤ, pos}
use telegram_ads_market.Common.Text.{str_eq, ◌<>◌, show_ℤ}
use telegram_ads_market.Entity.{Deal, draft, is_status, User}
use telegram_ads_market.External.{External}
use telegram_ads_market.Signature.{compute_deal_signature, deal_signatures_match}
use telegram_ads_market.Details.{get_message_from_details, is_blank}
use telegram_ads_market.Repository.Deals
use telegram_ads_market.Effects.{
  World, M, Done, pure, ◌>>=◌, ◌>>◌, ignore, fail_if, call, exec, statement, read, read_one, found,
  require, transaction, for_each, sql_now, not_found, deal_not_draft, unauthorized_side,
  wallet_not_set, payout_not_set, details_message_required,
}

-- notificationAdder.AddTelegramNotificationEvent
abbrev pub notify : ℕ → String → M Done
notify chat_id message = exec λ w. record w { notifications = (chat_id, message) ∷ w.notifications }

abbrev pub deal_with_id : ℕ → World → List Deal
deal_with_id id w = Deals.get_deal_by_id id w.db

abbrev user_with_id : ℕ → World → List User
user_with_id id w = select (λ u. u.id == id) w.users

-- `userID != d.LessorID && userID != d.LesseeID`
abbrev pub is_stranger : ℕ → Deal → Bool
is_stranger user_id d = not (user_id == d.lessor_id) && not (user_id == d.lessee_id)

-- The party that is told: the lessor if the lessee acts, else the lessee.
abbrev other_side : ℕ → Deal → ℕ
other_side user_id d = if user_id == d.lessee_id then d.lessor_id else d.lessee_id

abbrev about_deal : ℕ → String → String
about_deal id rest = "Deal #" <> (show_ℤ (pos id) <> rest)

unfoldable pub get_deal_for_user : ℕ → ℕ → M (Option Deal)
get_deal_for_user id user_id = do
  d ← read_one (deal_with_id id)
  elim d [ none ↦ pure none | some e ↦ pure (if is_stranger user_id e then none else some e) ]

unfoldable pub set_deal_payout_address : ℕ → ℕ → String → M Done
set_deal_payout_address user_id deal_id payout = do
  existing ← found (read_one (deal_with_id deal_id))
  fail_if (not (is_status existing.status draft)) deal_not_draft
  fail_if (is_stranger user_id existing) unauthorized_side
  fail_if (str_eq payout "") wallet_not_set
  statement (Deals.set_deal_payout_address deal_id user_id payout)

unfoldable pub reject_deal : ℕ → ℕ → M Done
reject_deal user_id deal_id = do
  existing ← found (read_one (deal_with_id deal_id))
  fail_if (is_stranger user_id existing) unauthorized_side
  updated ←
      call (λ w. Deals.rejects_some deal_id w.db)
        (λ w. record w { db = Deals.set_deal_status_rejected deal_id (sql_now w) w.db })
  fail_if (not updated) deal_not_draft
  ignore (notify (other_side user_id existing) (about_deal deal_id " was rejected."))

-- `time.Time` before `older_than`; the worker goes on after an error.
unfoldable pub expire_timed_out_deposits : ℕ → M Done
expire_timed_out_deposits older_than = do
  deals ← read (Deals.list_deals_waiting_escrow_deposit_older_than older_than)
  for_each deals (λ d. statement (Deals.set_deal_status_expired_by_deal_id d.id))

-- One tick of RunCompletedWorker.
unfoldable pub complete_confirmed_deals : M Done
complete_confirmed_deals = do
  deals ← read Deals.list_deals_escrow_confirmed_to_complete
  for_each deals (λ d. statement (Deals.set_deal_status_completed d.id))

-- `escrow_amount` is ComputeEscrowAmount of the escrow service.
module _ (compute_escrow_amount : ℤ → ℤ) where
  unfoldable pub create_deal : Deal → ℕ → M Deal
  create_deal d other_side_id = do
    let e = record d { status = draft; escrow_amount = compute_escrow_amount d.price }
    row ←
        call (λ w. record e { id = w.db.next_deal; created_at = sql_now w; updated_at = sql_now w })
          (λ w. record w { db = Deals.create_deal e (sql_now w) w.db })
    ignore (notify other_side_id ("New deal #" <> (show_ℤ (pos row.id) <> " on your listing.")))
    pure row

  unfoldable pub update_deal_draft : ℕ → Deal → M Done
  update_deal_draft user_id d = do
    existing ← found (read_one (deal_with_id d.id))
    fail_if (not (is_status existing.status draft)) deal_not_draft
    fail_if (is_stranger user_id existing) unauthorized_side
    statement (
        Deals.update_deal_draft_fields_and_clear_signatures (record d {
          lessor_id = existing.lessor_id;
          lessee_id = existing.lessee_id;
          listing_id = existing.listing_id;
          status = draft;
          escrow_amount = compute_escrow_amount d.price;
        }))

module _ (ext : External) where
  -- The statements of SignDealInTx, in their transaction.
  unfoldable pub sign_deal_in_tx : ℕ → ℕ → String → M Done
  sign_deal_in_tx deal_id user_id sig = transaction do
    existing ← require (read_one (deal_with_id deal_id)) not_found
    fail_if (not (is_status existing.status draft)) deal_not_draft
    fail_if (is_stranger user_id existing) unauthorized_side
    statement (
        if user_id == existing.lessor_id
        then Deals.set_deal_lessor_signature deal_id sig
        else Deals.set_deal_lessee_signature deal_id sig)
    again ← read_one (deal_with_id deal_id)
    elim again [
      | none ↦ pure tt
      | some updated ↦
          if deal_signatures_match ext updated
          then statement (Deals.set_deal_status_approved deal_id)
          else pure tt
    ]

  unfoldable pub sign_deal : ℕ → ℕ → M Done
  sign_deal user_id deal_id = do
    existing ← found (read_one (deal_with_id deal_id))
    user ← found (read_one (user_with_id user_id))
    fail_if (is_unset user.wallet_address) wallet_not_set
    fail_if (is_unset existing.lessor_payout_address || is_unset existing.lessee_payout_address)
        payout_not_set
    fail_if (is_blank (get_message_from_details ext existing.details)) details_message_required
    let lessor_payout = text_or_empty existing.lessor_payout_address
    let lessee_payout = text_or_empty existing.lessee_payout_address
    let my_payout = if user_id == existing.lessor_id then lessor_payout else lessee_payout
    fail_if (not (str_eq (text_or_empty user.wallet_address) my_payout)) wallet_not_set
    sign_deal_in_tx deal_id user_id (
        compute_deal_signature ext existing.type existing.duration existing.price existing.details
          user_id lessor_payout lessee_payout)
    ignore (
        notify (other_side user_id existing) (about_deal deal_id " was signed by the other party."))
