-- ===== src/Lifecycle/Sound.antt =====
-- The invariant of the database: what the tables satisfy after any transactions of the services.
use telegram_ads_market.Common.{
  ℕ, ◌<◌, ◌≡◌, ◌≢◌, Bool, true, false, ◌&&◌, List, [], ◌∷◌, All, is_none, is_unset,
}
use telegram_ads_market.Entity.{
  Deal, DealStatus, draft, approved, rejected, in_progress, is_status, DealPostMessage,
  DealPostMessageStatus, exists, deleted, passed,
}
use telegram_ads_market.External.{External}
use telegram_ads_market.Signature.{deal_signatures_match}
use telegram_ads_market.Repository.{Db}

-- Both parties have agreed: the deal is past draft and was not rejected.
abbrev pub is_agreed : DealStatus → Bool
is_agreed draft = false
is_agreed rejected = false
is_agreed _ = true

-- No escrow wallet has been made for the deal yet.
abbrev pub is_before_escrow : DealStatus → Bool
is_before_escrow draft = true
is_before_escrow approved = true
is_before_escrow rejected = true
is_before_escrow _ = false

-- The post is still watched, or its result has not been carried over to the deal yet.
abbrev pub is_pending : DealPostMessageStatus → Bool
is_pending exists = true
is_pending deleted = true
is_pending passed = true
is_pending _ = false

abbrev pub HasPayouts : Deal → Type 0
HasPayouts d =
    (is_unset d.lessor_payout_address ≡ false) × (is_unset d.lessee_payout_address ≡ false)

pub record RowSound (ext : External) (d : Deal) : Type 0 where
  -- An agreed deal bears the signatures of both parties over its present terms.
  pub signed : is_agreed d.status ≡ true → deal_signatures_match ext d ≡ true
  -- Nobody has signed before both payout addresses were set.
  pub payable : (is_none d.lessor_signature && is_none d.lessee_signature) ≡ false → HasPayouts d
  -- The deal has an escrow address exactly from `waiting_escrow_deposit` on.
  pub escrowed : is_none d.escrow_address ≡ is_before_escrow d.status

-- The deals with this id are in progress.
abbrev pub InProgress : ℕ → List Deal → Type 0
InProgress id = All (λ d. d.id ≡ id → is_status d.status in_progress ≡ true)

-- A pending post belongs to a deal in progress.
abbrev pub Busy : List Deal → DealPostMessage → Type 0
Busy deals m = is_pending m.status ≡ true → InProgress m.deal_id deals

-- No deal has two posts (the UNIQUE constraint of the table, kept by ON CONFLICT).
abbrev pub OnePerDeal : List DealPostMessage → Type 0
OnePerDeal [] = Unit
OnePerDeal (m ∷ ms) = All (λ n. n.deal_id ≢ m.deal_id) ms × OnePerDeal ms

pub record IsSound (ext : External) (db : Db) : Type 0 where
  pub rows : All (RowSound ext) db.deals
  pub busy : All (Busy db.deals) db.posts
  pub known : All (λ m. m.deal_id < db.next_deal) db.posts
  pub one_per_deal : OnePerDeal db.posts
