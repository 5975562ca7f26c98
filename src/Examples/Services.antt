-- ===== src/Examples/Services.antt =====
-- Short runs of the deal service and of the sender of posts.
use telegram_ads_market.Common.{
  none, ℕ, Bool, ◌≡◌, refl, true, some, [], ◌∷◌, ◌==◌, arith, map, ap, select,
}
use telegram_ads_market.Common.Int.{ℤ}
use telegram_ads_market.Entity.{
  Deal, User, draft, approved, waiting_escrow_deposit, escrow_deposit_confirmed,
}
use telegram_ads_market.Signature.{expected_signature}
use telegram_ads_market.Details.{get_message_from_details, is_blank}
use telegram_ads_market.Repository.Deals
use telegram_ads_market.Lifecycle.Step.{Reach}
use telegram_ads_market.Tables.{Listing}
use telegram_ads_market.Effects.{World, fine, lost, ok}
use telegram_ads_market.DealService.{deal_with_id, sign_deal}
use telegram_ads_market.DealService.Refines.{sign_deal-Refines}
use telegram_ads_market.DealService.Signing.{
  LesseeMaySign, with_lessee, second_signature_approves, failed_commit_is_reported_as_signed,
}
use telegram_ads_market.PostService.{send_deal_post}
use telegram_ads_market.PostService.Sending.{Posted, sender_sends_one_message}
use telegram_ads_market.Examples.Setup.{
  listing, listed, ext, signed_by, signed_by_lessor, holding_only, around,
}

abbrev same_amount : ℤ → ℤ
same_amount a = a

abbrev awaited : Deal
awaited = signed_by waiting_escrow_deposit (some "escrow")

-- The deal service, before the lessee signs.
abbrev half_signed : Deal
half_signed = signed_by_lessor draft

abbrev at_signing : World
at_signing = around (holding_only half_signed)

abbrev lessee : User
lessee = record { id = 20; wallet_address = some "lessee" }

lessee-LesseeMaySign :
    (w : World)
    → w.db ≡ holding_only half_signed
    → w.users ≡ lessee ∷ []
    → LesseeMaySign ext 1 half_signed lessee w
unfolding Deals.get_deal_by_id get_message_from_details is_blank expected_signature
lessee-LesseeMaySign w db users = record {
  deal_found = ap (λ b. select (λ d. d.id == 1) b.deals) db;
  user_found = ap (select (λ x. x.id == 20)) users;
  is_draft = refl;
  other_party = λ e. omega (arith, e);
  lessor_payout_set = refl;
  lessee_payout_set = refl;
  wallet_matches = refl;
  has_message = refl;
  lessor_signed = refl;
}

second_signature_approves_example :
    ((sign_deal ext 20 1 at_signing).0 ≡ ok tt)
    × (deal_with_id 1 (sign_deal ext 20 1 at_signing).1
        ≡ record (with_lessee ext (expected_signature ext half_signed 20) 100 half_signed) {
          status = approved;
        }
          ∷ [])
    × (map (λ n. n.0) (sign_deal ext 20 1 at_signing).1.notifications ≡ 10 ∷ [])
second_signature_approves_example =
    second_signature_approves ext 1 half_signed lessee at_signing refl
      (lessee-LesseeMaySign at_signing refl refl)

abbrev at_failed_commit : World
at_failed_commit = record at_signing {
  schedule = fine ∷ fine ∷ fine ∷ fine ∷ fine ∷ fine ∷ fine ∷ lost ∷ [];
}

failed_commit_is_reported_as_signed_example :
    ((sign_deal ext 20 1 at_failed_commit).0 ≡ ok tt)
    × ((sign_deal ext 20 1 at_failed_commit).1.db ≡ holding_only half_signed)
    × (map (λ n. n.0) (sign_deal ext 20 1 at_failed_commit).1.notifications ≡ 10 ∷ [])
failed_commit_is_reported_as_signed_example =
    failed_commit_is_reported_as_signed ext 1 half_signed lessee at_failed_commit refl
      (lessee-LesseeMaySign at_failed_commit refl refl)

sign_deal-Refines_example :
    Reach ext (holding_only half_signed) (sign_deal ext 20 1 at_failed_commit).1.db
sign_deal-Refines_example = sign_deal-Refines ext 20 1 at_failed_commit

-- A paid deal, whose text is sent to channel 5 of listing 7.
abbrev confirmed : Deal
confirmed = signed_by escrow_deposit_confirmed (some "escrow")

abbrev to_post : World
to_post = listed (around (holding_only confirmed))

abbrev is_any_channel : ℕ → Bool
is_any_channel n = true

sender_sends_one_message_example :
    Posted ext is_any_channel confirmed to_post
      (send_deal_post ext is_any_channel confirmed to_post).1.messages
sender_sends_one_message_example = sender_sends_one_message ext is_any_channel confirmed to_post

-- The listing has no channel; the deal names channel 5.
abbrev for_lessee : Listing
for_lessee = record listing { type = "lessee"; channel_id = none }

abbrev without_channel : World
without_channel = record to_post { tables = record to_post.tables { listings = for_lessee ∷ [] } }
