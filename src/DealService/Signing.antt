-- ===== src/DealService/Signing.antt =====
-- How signing leads to approval when every call works, and what happens when a COMMIT fails.
use telegram_ads_market.Common.{
  ℕ, ◌≡◌, ◌≢◌, refl, String, true, false, some, [], ◌∷◌, ◌==◌, is_unset, text_or_empty, select, map,
  arith,
}
use telegram_ads_market.Common.Text.{eq_refl}
use telegram_ads_market.Entity.{Deal, User, draft, approved, is_status}
use telegram_ads_market.External.{External}
use telegram_ads_market.Signature.{deal_signatures_match, expected_signature}
use telegram_ads_market.Details.{get_message_from_details, is_blank}
use telegram_ads_market.Repository.{Db}
use telegram_ads_market.Repository.Deals
use telegram_ads_market.Effects.{World, fine, lost, ok, monad}
use telegram_ads_market.DealService.Refines.{select-update}
use telegram_ads_market.DealService.Operations.{deal_with_id, sign_deal_in_tx, sign_deal}

module _ (ext : External) where
  -- The row after the lessor's signature.
  abbrev pub with_lessor : String → ℕ → Deal → Deal
  with_lessor sig now d = record d { lessor_signature = some sig; updated_at = now }

  abbrev pub with_lessee : String → ℕ → Deal → Deal
  with_lessee sig now d = record d { lessee_signature = some sig; updated_at = now }

  -- What the transaction reads after it has written the lessee's signature.
  reread_lessee :
      (id now : ℕ) (sig : String) (d : Deal) (db : Db)
      → Deals.get_deal_by_id id db ≡ d ∷ []
      → Deals.get_deal_by_id id (Deals.set_deal_lessee_signature id sig now db)
        ≡ with_lessee sig now d ∷ []
  unfolding Deals.get_deal_by_id Deals.set_deal_lessee_signature
  reread_lessee id now sig d db e = select-update id (with_lessee sig now) (λ _. refl) d db.deals e

  reread_approved :
      (id now : ℕ) (d : Deal) (db : Db)
      → Deals.get_deal_by_id id db ≡ d ∷ []
      → Deals.get_deal_by_id id (Deals.set_deal_status_approved id now db)
        ≡ record d { status = approved; updated_at = now } ∷ []
  unfolding Deals.get_deal_by_id Deals.set_deal_status_approved
  reread_approved id now d db e =
      select-update id (λ x. record x { status = approved; updated_at = now }) (λ _. refl) d
        db.deals e

  -- The lessor's signature stands, and the lessee adds the one that the present terms ask for.
  both_match :
      (d : Deal) (now : ℕ)
      → d.lessor_signature ≡ some (expected_signature ext d d.lessor_id)
      → deal_signatures_match ext (with_lessee (expected_signature ext d d.lessee_id) now d) ≡ true
  unfolding deal_signatures_match expected_signature
  both_match d now e = rw e (
      ground (
        arith,
        eq_refl (expected_signature ext d d.lessor_id),
        eq_refl (expected_signature ext d d.lessee_id),
      ))

  -- What SignDeal requires of the deal and of the user before the lessee signs.
  pub record LesseeMaySign (id : ℕ) (d : Deal) (u : User) (w : World) : Type 0 where
    pub deal_found : deal_with_id id w ≡ d ∷ []
    pub user_found : select (λ x. x.id == d.lessee_id) w.users ≡ u ∷ []
    pub is_draft : is_status d.status draft ≡ true
    pub other_party : d.lessor_id ≢ d.lessee_id
    pub lessor_payout_set : is_unset d.lessor_payout_address ≡ false
    pub lessee_payout_set : is_unset d.lessee_payout_address ≡ false
    pub wallet_matches : u.wallet_address ≡ d.lessee_payout_address
    pub has_message : is_blank (get_message_from_details ext d.details) ≡ false
    pub lessor_signed : d.lessor_signature ≡ some (expected_signature ext d d.lessor_id)

  -- If the lessor has signed the present terms and every call works, the lessee's signature
  -- approves the deal: the call succeeds, the row is approved and bears both signatures, and the
  -- lessor is told.
  pub second_signature_approves :
      (id : ℕ) (d : Deal) (u : User) (w : World)
      → w.schedule ≡ []
      → LesseeMaySign id d u w
      → ((sign_deal ext d.lessee_id id w).0 ≡ ok tt)
        × (deal_with_id id (sign_deal ext d.lessee_id id w).1
            ≡ record (with_lessee (expected_signature ext d d.lessee_id) w.now d) {
              status = approved;
            }
              ∷ [])
        × (map (λ n. n.0) (sign_deal ext d.lessee_id id w).1.notifications
            ≡ d.lessor_id ∷ map (λ n. n.0) w.notifications)
  unfolding sign_deal sign_deal_in_tx expected_signature monad
  second_signature_approves id d u w s may =
      let sig = expected_signature ext d d.lessee_id in
      let again = reread_lessee id w.now sig d w.db may.deal_found in
      let approved_row = reread_approved id w.now (with_lessee sig w.now d) _ again in
      let match = both_match d w.now may.lessor_signed in
      let own = eq_refl (text_or_empty d.lessee_payout_address) in
      (ground arith, ground arith, ground arith)

  -- When the COMMIT of that transaction fails, as it may under serializable isolation, the call
  -- still succeeds and the lessor is told, but the database is as it was before.
  pub failed_commit_is_reported_as_signed :
      (id : ℕ) (d : Deal) (u : User) (w : World)
      → w.schedule ≡ fine ∷ fine ∷ fine ∷ fine ∷ fine ∷ fine ∷ fine ∷ lost ∷ []
      → LesseeMaySign id d u w
      → ((sign_deal ext d.lessee_id id w).0 ≡ ok tt)
        × ((sign_deal ext d.lessee_id id w).1.db ≡ w.db)
        × (map (λ n. n.0) (sign_deal ext d.lessee_id id w).1.notifications
            ≡ d.lessor_id ∷ map (λ n. n.0) w.notifications)
  unfolding sign_deal sign_deal_in_tx expected_signature monad
  failed_commit_is_reported_as_signed id d u w s may =
      let sig = expected_signature ext d d.lessee_id in
      let again = reread_lessee id w.now sig d w.db may.deal_found in
      let match = both_match d w.now may.lessor_signed in
      let own = eq_refl (text_or_empty d.lessee_payout_address) in
      (ground arith, ground arith, ground arith)
