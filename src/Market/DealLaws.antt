-- ===== src/Market/DealLaws.antt =====
-- What the handler that creates a deal puts into the table.
use telegram_ads_market.Common.{ℕ, ◌≡◌, ◌≢◌, String, false, Option, some, [], ◌∷◌, ◌==◌, arith}
use telegram_ads_market.Common.Int.{ℤ}
use telegram_ads_market.Entity.{Deal, draft}
use telegram_ads_market.External.{External}
use telegram_ads_market.Tables.{Listing}
use telegram_ads_market.Repository.{Db}
use telegram_ads_market.Repository.Deals
use telegram_ads_market.Effects.{World}
use telegram_ads_market.Effects.Laws.{Outcomes, then_call, then_ignore, then_fail_if, then_or_raise}
use telegram_ads_market.DealService
use telegram_ads_market.Market.Prices.{PriceJson, ton_to_nanoton}
use telegram_ads_market.Market.PriceLaws.{IsOffered, deal_price_matches_listing-iff-IsOffered}
use telegram_ads_market.Market.Listings.{get_listing, listing_with_id}
use telegram_ads_market.Market.Http.{require_user_id, decode_body}
use telegram_ads_market.Market.HttpLaws.{then_not_found, served_keeps}
use telegram_ads_market.Market.DealHandlers.{
  resolve_lessor_lessee, CreateDealRequest, build_deal_from_create_request, handle_create_deal,
}

-- The deal service inserts the deal as a draft, or nothing.
create_deal_inserts :
    (R : Db → Type 0) (compute : ℤ → ℤ) (d : Deal) (other : ℕ) (w : World)
    → R w.db
    → ((now : ℕ)
        → R (
            Deals.create_deal
              (record d { status = draft; escrow_amount = compute d.price })
              now
              w.db))
    → R (DealService.create_deal compute d other w).1.db
unfolding DealService.create_deal
create_deal_inserts R compute d other w before after =
    then_call Gone _ _ _ w (then_ignore Gone _ _ _ _ (after _) (after _)) before (after _)
  where
    Gone : {A : Type 0} → Outcomes A → Type 0
    Gone o = R o.1.db

-- Whoever applies to a listing of another user is the other side of the deal.
sides_differ :
    (listing : Listing) (user_id : ℕ) (sides : ℕ × ℕ)
    → (listing.user_id == user_id) ≡ false
    → resolve_lessor_lessee listing user_id ≡ some sides
    → sides.0 ≢ sides.1
unfolding resolve_lessor_lessee
sides_differ listing user_id sides other e = ground (arith, other, e)

module _ (ext : External) (json : PriceJson) (marshal_details : String → String → String)
    (compute : ℤ → ℤ) where
  abbrev Request : Type 0
  Request = CreateDealRequest ext json marshal_details compute

  -- The deals after the handler: as before, or with one more.
  pub data Created (user : Option ℕ) (body : Option Request) (w : World) : Db → Type 0 where
    no_deal : Created user body w w.db
    one_deal :
        (user_id now : ℕ) (req : Request) (listing : Listing) (sides : ℕ × ℕ)
        (channel_id : Option ℕ) (details : String)
        → user ≡ some user_id
        → body ≡ some req
        → listing_with_id req.listing_id w ≡ listing ∷ []
        → IsOffered json listing.prices req.type req.duration (ton_to_nanoton json req.price)
        → resolve_lessor_lessee listing user_id ≡ some sides
        → sides.0 ≢ sides.1
        → Created user body w (
            Deals.create_deal
              (record (build_deal_from_create_request ext json marshal_details compute req sides
                channel_id details) {
                  status = draft;
                  escrow_amount = compute (ton_to_nanoton json req.price);
                })
              now
              w.db)

  -- The handler that creates a deal changes the deals only by one new draft: of the authenticated
  -- user and the other user whose listing it names, on the sides that the type of the listing gives
  -- them, with a type, a duration and a price that one slot of the listing offers, and with the
  -- escrow amount for this price. It does so or not, whatever fails.
  pub handle_create_deal_follows_listing :
      (user : Option ℕ) (body : Option Request) (w : World)
      → Created user body w (handle_create_deal ext json marshal_details compute user body w).1.db
  unfolding handle_create_deal require_user_id decode_body get_listing
      build_deal_from_create_request
  handle_create_deal_follows_listing user body w =
      then_or_raise Gone _ _ _ _ (λ _. no_deal)
        (λ user_id u.
          then_or_raise Gone _ _ _ _ (λ _. no_deal)
            (λ req b.
              then_not_found Gone _ _ _
                (λ listing row.
                  then_fail_if Gone _ _ _ _ (λ _. no_deal)
                    (λ other.
                      then_fail_if Gone _ _ _ _ (λ _. no_deal)
                        (λ priced.
                          then_or_raise Gone _ _ _ _ (λ _. no_deal)
                            (λ sides given.
                              then_or_raise Gone _ _ _ _ (λ _. no_deal)
                                (λ channel_id _.
                                  then_or_raise Gone _ _ _ _ (λ _. no_deal)
                                    (λ details _.
                                      served_keeps (λ v. Created user body w v.db) _ _
                                        (create_deal_inserts (Created user body w) compute _ _ _
                                          no_deal
                                          (λ now.
                                            one_deal user_id now req listing sides channel_id
                                              details u b row
                                              ((deal_price_matches_listing-iff-IsOffered json _ _ _
                                                  _).0
                                                (ground (arith, priced)))
                                              given
                                              (sides_differ listing user_id sides other
                                                given)))))))))
                (λ e. no_deal)))
    where
      Gone : {A : Type 0} → Outcomes A → Type 0
      Gone o = Created user body w o.1.db
