-- ===== src/Examples/Histories.antt =====
-- Short histories of the database.
use telegram_ads_market.Common.{
  ℕ, ◌≡◌, ◌⊎◌, refl, String, true, false, ◌&&◌, Option, none, some, [], ◌∷◌, is_none,
}
use telegram_ads_market.Entity.{Deal, draft, approved, waiting_escrow_release, DealStatus}
use telegram_ads_market.Common.Text.{show_ℤ}
use telegram_ads_market.Signature.{
  expected_signature, deal_signatures_match, compute_deal_signature, signed_text,
}
use telegram_ads_market.Repository.{Db}
use telegram_ads_market.Repository.Deals
use telegram_ads_market.Lifecycle.Diagram.{pays_lessor, pays_lessee}
use telegram_ads_market.Lifecycle.Lawful.{SameTerms, Evolves}
use telegram_ads_market.Lifecycle.Sound.{IsSound, HasPayouts}
use telegram_ads_market.Lifecycle.Step.{Step, Reach, stays, goes}
use telegram_ads_market.Lifecycle.History.{
  empty_db, row_at, transaction_keeps_IsSound, agreed_terms_frozen, agreed_by_both,
  escrow_goes_one_way, terminal_status_final,
}
use telegram_ads_market.Examples.Setup.{ext, terms, signed_by, holding_only}

abbrev waiting : Deal
waiting = signed_by waiting_escrow_release (some "0:escrow")

abbrev done : Deal
done = signed_by DealStatus.completed (some "0:escrow")

waiting-IsSound : IsSound ext (holding_only waiting)
unfolding deal_signatures_match expected_signature compute_deal_signature signed_text show_ℤ
waiting-IsSound = record {
  rows = (record { signed = λ _. refl; payable = λ _. (refl, refl); escrowed = refl }, tt);
  busy = tt;
  known = tt;
  one_per_deal = tt;
}

done-IsSound : IsSound ext (holding_only done)
unfolding deal_signatures_match expected_signature compute_deal_signature signed_text show_ℤ
done-IsSound = record {
  rows = (record { signed = λ _. refl; payable = λ _. (refl, refl); escrowed = refl }, tt);
  busy = tt;
  known = tt;
  one_per_deal = tt;
}

abbrev after_release : Db
after_release = Deals.set_deal_status_escrow_release_confirmed 1 5 (holding_only waiting)

release : Step ext (holding_only waiting) after_release
release = Step.confirms_release 1 5 (holding_only waiting)

transaction_keeps_IsSound_example :
    IsSound ext after_release × Evolves (waiting ∷ []) after_release.deals
transaction_keeps_IsSound_example = transaction_keeps_IsSound ext release waiting-IsSound

agreed_terms_frozen_example :
    (e : Deal) × (row_at after_release.deals 0 ≡ some e)
    × SameTerms waiting e
    × (e.id ≡ 1)
    × (e.lessor_id ≡ 10)
    × (e.lessee_id ≡ 20)
    × ((is_none waiting.escrow_address ≡ true) ⊎ (e.escrow_address ≡ waiting.escrow_address))
agreed_terms_frozen_example =
    agreed_terms_frozen ext 0 waiting waiting-IsSound (goes stays release) refl refl

escrow_goes_one_way_example :
    (e : Deal) × (row_at after_release.deals 0 ≡ some e)
    × ((pays_lessor waiting.status && pays_lessee e.status) ≡ false)
    × ((pays_lessee waiting.status && pays_lessor e.status) ≡ false)
escrow_goes_one_way_example =
    escrow_goes_one_way ext 0 waiting waiting-IsSound (goes stays release) refl

terminal_status_final_example :
    (e : Deal) × (row_at (Deals.set_deal_status_completed 1 5 (holding_only done)).deals 0 ≡ some e)
    × (e.status ≡ DealStatus.completed)
terminal_status_final_example =
    terminal_status_final ext 0 done done-IsSound
      (goes stays (Step.completes 1 5 (holding_only done))) refl refl

-- A deal is created, both sides set their payout addresses and sign, and it is approved.
abbrev created : Db
created = Deals.create_deal (terms draft none) 1 empty_db

abbrev payable : Db
payable =
    Deals.set_deal_payout_address 1 20 "lessee" 3
      (Deals.set_deal_payout_address 1 10 "lessor" 2 created)

abbrev sig : ℕ → String
sig = expected_signature ext (terms draft none)

abbrev one_signed : Db
one_signed = Deals.set_deal_lessor_signature 1 (sig 10) 4 payable

abbrev both_have_signed : Db
both_have_signed = Deals.set_deal_lessee_signature 1 (sig 20) 5 one_signed

abbrev agreed : Db
agreed = Deals.set_deal_status_approved 1 6 both_have_signed

abbrev row_of : DealStatus → Option String → Option String → ℕ → Deal
row_of s a b now = record (terms s none) {
  lessor_signature = a;
  lessee_signature = b;
  created_at = 1;
  updated_at = now;
}

agreement : Reach ext empty_db agreed
unfolding Deals.create_deal Deals.set_deal_payout_address Deals.set_deal_lessor_signature
    Deals.set_deal_lessee_signature Deals.get_deal_by_id deal_signatures_match expected_signature
    compute_deal_signature signed_text show_ℤ
agreement =
    goes
      (goes
        (goes
          (goes
            (goes (goes stays (Step.creates (terms draft none) 1 empty_db refl))
              (Step.sets_payout 1 10 2 "lessor" created refl))
            (Step.sets_payout 1 20 3 "lessee" _ refl))
          (Step.signs_as_lessor 1 4 (sig 10) payable (row_of draft none none 3) refl refl
            (refl, refl)))
        (Step.signs_as_lessee 1 5 (sig 20) one_signed (row_of draft (some (sig 10)) none 4) refl
          refl (refl, refl)))
      (Step.approves 1 6 both_have_signed (row_of draft (some (sig 10)) (some (sig 20)) 5) refl refl
        refl)

abbrev agreed_row : Deal
agreed_row = row_of approved (some (sig 10)) (some (sig 20)) 6

agreed_row-is_there : row_at agreed.deals 0 ≡ some agreed_row
unfolding Deals.create_deal Deals.set_deal_payout_address Deals.set_deal_lessor_signature
    Deals.set_deal_lessee_signature Deals.set_deal_status_approved
agreed_row-is_there = refl

agreed_by_both_example :
    (agreed_row.lessor_signature ≡ some (expected_signature ext agreed_row 10))
    × (agreed_row.lessee_signature ≡ some (expected_signature ext agreed_row 20))
    × HasPayouts agreed_row
agreed_by_both_example = agreed_by_both ext 0 agreed_row agreement agreed_row-is_there refl
