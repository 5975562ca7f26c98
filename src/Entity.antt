-- ===== src/Entity.antt =====
-- The entities of the market (internal/market/domain/entity): deals, the posts that fulfil them,
-- the locks on their actions, and the users. Ids are only compared and are naturals, money is an
-- int64, a point in time is a number of nanoseconds, a text is a native string.
use telegram_ads_market.Common.{ℕ, String, Bool, true, false, Option}
use telegram_ads_market.Common.Int.{ℤ}

pub data DealStatus : Type 0 where
  draft approved waiting_escrow_deposit escrow_deposit_confirmed in_progress : DealStatus
  waiting_escrow_release escrow_release_confirmed completed : DealStatus
  waiting_escrow_refund escrow_refund_confirmed expired rejected : DealStatus

pub record Deal : Type 0 where
  pub id : ℕ
  pub listing_id : ℕ
  pub lessor_id : ℕ
  pub lessee_id : ℕ
  pub channel_id : Option ℕ
  pub type : String
  pub duration : ℤ
  pub price : ℤ
  pub escrow_amount : ℤ
  pub details : String
  pub lessor_signature : Option String
  pub lessee_signature : Option String
  pub status : DealStatus
  pub escrow_address : Option String
  pub escrow_release_time : Option ℕ
  pub lessor_payout_address : Option String
  pub lessee_payout_address : Option String
  pub created_at : ℕ
  pub updated_at : ℕ

pub data DealActionType : Type 0 where
  escrow_release escrow_refund post_message : DealActionType

pub data DealActionLockStatus : Type 0 where
  locked completed failed : DealActionLockStatus

pub record DealActionLock : Type 0 where
  pub id : ℕ
  pub deal_id : ℕ
  pub action_type : DealActionType
  pub status : DealActionLockStatus
  pub expire_at : ℕ
  pub created_at : ℕ
  pub updated_at : ℕ

pub data DealPostMessageStatus : Type 0 where
  exists deleted passed completed failed : DealPostMessageStatus

pub record DealPostMessage : Type 0 where
  pub id : ℕ
  pub deal_id : ℕ
  pub channel_id : ℕ
  pub message_id : ℕ
  pub post_message : String
  pub status : DealPostMessageStatus
  pub next_check : ℤ
  pub until_ts : ℤ
  pub created_at : ℕ
  pub updated_at : ℕ

-- The columns of a user that signing reads.
pub record User : Type 0 where
  pub id : ℕ
  pub wallet_address : Option String

-- Status columns are compared as text; the names are distinct.
pub DealStatus-discrete : Discrete DealStatus
DealStatus-discrete = hlevel

abbrev pub is_status : DealStatus → DealStatus → Bool
is_status draft draft = true
is_status approved approved = true
is_status waiting_escrow_deposit waiting_escrow_deposit = true
is_status escrow_deposit_confirmed escrow_deposit_confirmed = true
is_status in_progress in_progress = true
is_status waiting_escrow_release waiting_escrow_release = true
is_status escrow_release_confirmed escrow_release_confirmed = true
is_status DealStatus.completed DealStatus.completed = true
is_status waiting_escrow_refund waiting_escrow_refund = true
is_status escrow_refund_confirmed escrow_refund_confirmed = true
is_status expired expired = true
is_status rejected rejected = true
is_status _ _ = false

abbrev pub is_action : DealActionType → DealActionType → Bool
is_action escrow_release escrow_release = true
is_action escrow_refund escrow_refund = true
is_action post_message post_message = true
is_action _ _ = false

abbrev pub is_locked : DealActionLockStatus → Bool
is_locked locked = true
is_locked _ = false

abbrev pub is_post_status : DealPostMessageStatus → DealPostMessageStatus → Bool
is_post_status exists exists = true
is_post_status deleted deleted = true
is_post_status passed passed = true
is_post_status DealPostMessageStatus.completed DealPostMessageStatus.completed = true
is_post_status DealPostMessageStatus.failed DealPostMessageStatus.failed = true
is_post_status _ _ = false

-- `ErrorCode` of internal/errors/errors.go; the empty one is the code of `ServiceError{}`.
pub data ErrorCode : Type 0 where
  too_many_requests init_data_required unauthorized not_found bad_request : ErrorCode
  internal_server_error forbidden empty_code : ErrorCode
