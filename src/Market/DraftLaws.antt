-- ===== src/Market/DraftLaws.antt =====
-- What the handler that edits a draft puts into the table.
use telegram_ads_market.Common.{
  ℕ, ◌≡◌, refl, String, Bool, true, false, not, Option, some, [], ◌∷◌, ◌==◌, if◌then◌else◌, select,
  subst, sym, ap, ◌∙◌, arith,
}
use telegram_ads_market.Common.Int.{ℤ}
use telegram_ads_market.Entity.{Deal, draft, is_status}
use telegram_ads_market.External.{External}
use telegram_ads_market.Tables.{Listing, Tables}
use telegram_ads_market.Repository.{Db}
use telegram_ads_market.Repository.Deals
use telegram_ads_market.Effects.{World, Error, err, M, pure, ◌>>=◌, ◌>>◌, fail_if, arrive, read_one}
use telegram_ads_market.Effects.Laws.{Outcomes, call_cases, then_found, then_fail_if, then_or_raise}
use telegram_ads_market.Effects.Steps.{then_steps, then_pure, read_one_cases}
use telegram_ads_market.Escrow.Laws.{then_from, then_attempt}
use telegram_ads_market.DealService
use telegram_ads_market.DealService.{deal_with_id, is_stranger}
use telegram_ads_market.Market.Prices.{PriceJson, deal_price_matches_listing}
use telegram_ads_market.Market.PriceLaws.{IsOffered, deal_price_matches_listing-iff-IsOffered}
use telegram_ads_market.Market.Listings.{get_listing}
use telegram_ads_market.Market.Http.{
  require_user_id, PathId, read_path_id, parse_path_id, decode_body, served, served_or_not_found,
}
use telegram_ads_market.Market.HttpLaws.{then_not_found, then_empty, served_keeps}
use telegram_ads_market.Market.DealHandlers.{
  UpdateDealDraftRequest, apply_update_deal_draft_request, keeps_terms,
  validate_deal_price_matches_listing, updated_or_nothing, handle_update_deal_draft, bad,
}

-- The edit that the deal service makes of a draft.
abbrev pub edit_of : (ℤ → ℤ) → Deal → Deal → Deal
edit_of compute d existing = record d {
  lessor_id = existing.lessor_id;
  lessee_id = existing.lessee_id;
  listing_id = existing.listing_id;
  status = draft;
  escrow_amount = compute d.price;
}

update_deal_draft_edits :
    (R : Db → Type 0) (compute : ℤ → ℤ) (user_id : ℕ) (d : Deal) (w : World)
    → R w.db
    → ((existing : Deal) (now : ℕ)
        → deal_with_id d.id w ≡ existing ∷ []
        → is_status existing.status draft ≡ true
        → is_stranger user_id existing ≡ false
        → R (
            Deals.update_deal_draft_fields_and_clear_signatures
              (edit_of compute d existing)
              now
              w.db))
    → R (DealService.update_deal_draft compute user_id d w).1.db
unfolding DealService.update_deal_draft
update_deal_draft_edits R compute user_id d w before after =
    then_found Gone _ _ w
      (λ existing row.
        then_fail_if Gone _ _ _ _ (λ _. before)
          (λ is_draft.
            then_fail_if Gone _ _ _ _ (λ _. before)
              (λ side.
                call_cases Gone _ _ _ (after existing _ row (ground (arith, is_draft)) side) before
                  (after existing _ row (ground (arith, is_draft)) side))))
      before
  where
    Gone : {A : Type 0} → Outcomes A → Type 0
    Gone o = R o.1.db

module _ (ext : External) (json : PriceJson) (marshal_details : String → String → String)
    (compute : ℤ → ℤ) where
  abbrev Request : Type 0
  Request = UpdateDealDraftRequest ext json marshal_details compute

  -- The request leaves the terms alone, or a slot of the deal's listing offers the new ones.
  pub data TermsHold (tables : Tables) (existing d : Deal) (req : Request) : Type 0 where
    same_terms :
        keeps_terms ext json marshal_details compute req ≡ true → TermsHold tables existing d req
    offered :
        (listing : Listing)
        → select (λ l. l.id == existing.listing_id) tables.listings ≡ listing ∷ []
        → IsOffered json listing.prices d.type d.duration d.price
        → TermsHold tables existing d req

  then_validated :
      {B : Type 0} (P : Outcomes B → Type 0) (existing d : Deal) (req : Request) (k : M B)
      (w : World)
      → (TermsHold w.tables existing d req → P (k w))
      → (TermsHold w.tables existing d req → P (k (arrive w)))
      → ((e : Error) → P (err e, arrive w))
      → P (
          (validate_deal_price_matches_listing ext json marshal_details compute existing d req >> k)
            w)
  unfolding validate_deal_price_matches_listing get_listing
  then_validated P existing d req k w kept checked failed =
      go (keeps_terms ext json marshal_details compute req) refl
    where
      go :
          (b : Bool)
          → keeps_terms ext json marshal_details compute req ≡ b
          → P (
              ((if b then pure tt else do
                listing ← served_or_not_found (get_listing existing.listing_id)
                fail_if
                    (not (deal_price_matches_listing json listing.prices d.type d.duration d.price))
                    bad)
                  >> k)
                w)
      go true e = then_pure P tt (λ _. k) w (kept (same_terms e))
      go false e =
          then_steps P (served_or_not_found (get_listing existing.listing_id)) _ (λ _. k) w
            (then_not_found P _ _ w
              (λ listing row.
                then_fail_if P _ _ _ _ (λ _. failed _)
                  (λ priced. checked (
                    offered listing row (
                      (deal_price_matches_listing-iff-IsOffered json _ _ _ _).0
                        (ground (arith, priced))))))
              failed)

  -- The deals after the handler: as before, or with one draft edited.
  pub data Edited (user : Option ℕ) (path : PathId) (body : Option Request) (w : World)
      : Db → Type 0 where
    no_edit : Edited user path body w w.db
    one_edit :
        (user_id id now : ℕ) (req : Request) (existing d : Deal)
        → user ≡ some user_id
        → read_path_id path ≡ some id
        → body ≡ some req
        → deal_with_id id w ≡ existing ∷ []
        → is_status existing.status draft ≡ true
        → is_stranger user_id existing ≡ false
        → apply_update_deal_draft_request ext json marshal_details compute existing id req ≡ some d
        → TermsHold w.tables existing d req
        → Edited user path body w (
            Deals.update_deal_draft_fields_and_clear_signatures
              (edit_of compute d existing)
              now
              w.db)

  -- The edited deal has the id of the path.
  applied_id :
      (existing d : Deal) (id : ℕ) (req : Request)
      → apply_update_deal_draft_request ext json marshal_details compute existing id req ≡ some d
      → d.id ≡ id
  unfolding apply_update_deal_draft_request
  applied_id existing d id req e = ground (arith, e)

  -- Reading the deal again changes nothing.
  reads_again : (id : ℕ) (R : Db → Type 0) (w : World) → R w.db → R (updated_or_nothing id w).1.db
  unfolding updated_or_nothing
  reads_again id R w h =
      then_attempt (λ v. R v.db) (λ v. R v.db) (read_one (deal_with_id id)) _ w
        (read_one_cases (λ o. R o.1.db) (deal_with_id id) w (λ e. h) (λ d e. h) (λ e. h))
        (λ r v i. i)

  -- The handler that edits a deal changes the deals only by one edit of the draft with the id of the
  -- path, for the authenticated user, who is one of its sides. Where the request gives a type, a
  -- duration or a price, a slot of the deal's listing offers the terms that result. It does so or
  -- not, whatever fails.
  pub handle_update_deal_draft_follows_listing :
      (user : Option ℕ) (path : PathId) (body : Option Request) (w : World)
      → Edited user path body w
          (handle_update_deal_draft ext json marshal_details compute user path body w).1.db
  unfolding handle_update_deal_draft require_user_id parse_path_id decode_body
  handle_update_deal_draft_follows_listing user path body w =
      then_or_raise Gone _ _ _ _ (λ _. no_edit)
        (λ user_id u.
          then_or_raise Gone _ _ _ _ (λ _. no_edit)
            (λ id p.
              then_empty Gone _ _ _
                (λ existing row.
                  then_or_raise Gone _ _ _ _ (λ _. no_edit)
                    (λ req b.
                      then_or_raise Gone _ _ _ _ (λ _. no_edit)
                        (λ d applied.
                          then_validated Gone existing d req _ _
                            (λ holds.
                              rest user_id id existing req d u p b row applied holds (arrive w))
                            (λ holds.
                              rest user_id id existing req d u p b row applied holds
                                (arrive (arrive w)))
                            (λ e. no_edit))))
                (λ e. no_edit)))
    where
      Gone : {A : Type 0} → Outcomes A → Type 0
      Gone o = Edited user path body w o.1.db

      rest :
          (user_id id : ℕ) (existing : Deal) (req : Request) (d : Deal)
          → user ≡ some user_id
          → read_path_id path ≡ some id
          → body ≡ some req
          → deal_with_id id w ≡ existing ∷ []
          → apply_update_deal_draft_request ext json marshal_details compute existing id req
            ≡ some d
          → TermsHold w.tables existing d req
          → (x : World)
          → Edited user path body w
              ((served (DealService.update_deal_draft compute user_id d) >> updated_or_nothing id)
                (record x { db = w.db })).1.db
      rest user_id id existing req d u p b row applied holds x =
          then_from (λ v. Edited user path body w v.db) (λ v. Edited user path body w v.db)
            (served (DealService.update_deal_draft compute user_id d)) _ (record x { db = w.db })
            (served_keeps (λ v. Edited user path body w v.db) _ _
              (update_deal_draft_edits (Edited user path body w) compute user_id d
                (record x { db = w.db }) no_edit edit))
            (λ _ v i. reads_again id (Edited user path body w) v i) (λ v i. i)
        where
          edit :
              (row' : Deal) (now : ℕ)
              → deal_with_id d.id w ≡ row' ∷ []
              → is_status row'.status draft ≡ true
              → is_stranger user_id row' ≡ false
              → Edited user path body w (
                  Deals.update_deal_draft_fields_and_clear_signatures
                    (edit_of compute d row')
                    now
                    w.db)
          edit row' now again is_draft side =
              let rows : row' ∷ [] ≡ existing ∷ [] =
                sym again
                ∙ ap (λ n. deal_with_id n w) (applied_id existing d id req applied)
                ∙ row in
              let same : row' ≡ existing = cc rows in
              subst
                (λ e. Edited user path body w (
                  Deals.update_deal_draft_fields_and_clear_signatures (edit_of compute d e) now
                    w.db))
                (sym same)
                (one_edit user_id id now req existing d u p b row
                  (subst (λ e. is_status e.status draft ≡ true) same is_draft)
                  (subst (λ e. is_stranger user_id e ≡ false) same side) applied holds)
