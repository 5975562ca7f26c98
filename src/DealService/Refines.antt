-- ===== src/DealService/Refines.antt =====
-- Whatever becomes of its calls, an operation of the deal service moves the database by
-- transactions of the lifecycle only.
use telegram_ads_market.Common.{
  ℕ, ◌≡◌, refl, sym, ap, ◌∙◌, String, Bool, true, false, not, ◌||◌, some, List, [], ◌∷◌, ◌==◌,
  if◌then◌else◌, is_unset, map, select, update, All-of, arith,
}
use telegram_ads_market.Common.Int.{ℤ}
use telegram_ads_market.Common.Text.{str_eq}
use telegram_ads_market.Entity.{Deal, draft, is_status}
use telegram_ads_market.External.{External}
use telegram_ads_market.Signature.{deal_signatures_match}
use telegram_ads_market.Repository.{Db}
use telegram_ads_market.Repository.Deals
use telegram_ads_market.Repository.Deals.{has_id}
use telegram_ads_market.Lifecycle.Sound.{HasPayouts}
use telegram_ads_market.Lifecycle.Step
use telegram_ads_market.Lifecycle.Step.{Reach, stays, goes, Reach-trans}
use telegram_ads_market.Effects.{World, M, Result, statement, arrive, for_each}
use telegram_ads_market.Effects.Laws.{
  call_cases, then_call, then_query, then_ignore, then_found, then_fail_if, then_require,
  then_read_one, transaction_cases, if_cases, for_each_inv, then_ignored, last_ignore,
}
use telegram_ads_market.DealService.Operations.{
  deal_with_id, set_deal_payout_address, reject_deal, expire_timed_out_deposits,
  complete_confirmed_deals, create_deal, update_deal_draft, sign_deal_in_tx, sign_deal,
}

-- The rows with an id, after an update of them that keeps their ids.
pub select-update :
    (id : ℕ) (change : Deal → Deal)
    → ((d : Deal) → (change d).id ≡ d.id)
    → (d : Deal) (xs : List Deal) → select (has_id id) xs ≡ d ∷ []
    → select (has_id id) (update (has_id id) change xs) ≡ change d ∷ []
select-update id change same d xs e = sym (mapped xs) ∙ ap (map change) e
  where
    mapped :
        (ys : List Deal)
        → map change (select (has_id id) ys) ≡ select (has_id id) (update (has_id id) change ys)
    mapped [] = refl
    mapped (y ∷ ys) = ground (arith, mapped ys, same y)

module _ (ext : External) where
  -- Between its calls an operation may only take lifecycle steps.
  abbrev pub Refines : {A : Type 0} → M A → Type 0
  Refines m = (w : World) → Reach ext w.db (m w).1.db

  -- Writing each of some deals by a step, whatever fails.
  pub each-Refines :
      (s : Deal → ℕ → Db → Db)
      → ((d : Deal) (now : ℕ) (db : Db) → Step.Step ext db (s d now db))
      → (xs : List Deal) (db : Db) (w : World) → Reach ext db w.db
      → Reach ext db (for_each xs (λ d. statement (s d)) w).1.db
  each-Refines s step xs db w =
      for_each_inv (λ v. Reach ext db v.db) (λ d. statement (s d)) (λ _. Unit {0})
        (λ d v _ h.
          call_cases (λ o. Reach ext db o.1.db) (λ _. tt) _ v (goes h (step d _ _)) h
            (goes h (step d _ _)))
        xs w (All-of _ (λ _. tt) xs)

  -- Whatever fails, the expiry of unpaid deals takes lifecycle steps only.
  pub expire_timed_out_deposits-Refines :
      (older_than : ℕ) → Refines (expire_timed_out_deposits older_than)
  unfolding expire_timed_out_deposits
  expire_timed_out_deposits-Refines older_than w =
      then_query (λ o. Reach ext w.db o.1.db) _ _ w
        (each-Refines _ (λ d now db. Step.expires d.id now db) _ w.db (arrive w) stays) stays

  -- Whatever fails, a pass of the completion worker takes lifecycle steps only.
  pub complete_confirmed_deals-Refines : Refines complete_confirmed_deals
  unfolding complete_confirmed_deals
  complete_confirmed_deals-Refines w =
      then_query (λ o. Reach ext w.db o.1.db) _ _ w
        (each-Refines _ (λ d now db. Step.completes d.id now db) _ w.db (arrive w) stays) stays

  -- Where the database has got to, for a proof that goes on from `db`.
  abbrev Gone : Db → {A : Type 0} → Result A × World → Type 0
  Gone db o = Reach ext db o.1.db

  -- Whatever fails, a rejection takes lifecycle steps only.
  pub reject_deal-Refines : (user_id deal_id : ℕ) → Refines (reject_deal user_id deal_id)
  unfolding reject_deal
  reject_deal-Refines user_id deal_id w =
      then_found (Gone w.db) _ _ w
        (λ d e.
          then_fail_if (Gone w.db) _ _ _ _ (λ _. stays)
            (λ side.
              then_call (Gone w.db) _ _ _ _
                (then_fail_if (Gone w.db) _ _ _ _ (λ _. rejected _)
                  (λ _. last_ignore (Gone w.db) _ _ _ (rejected _) (rejected _)))
                stays (rejected _)))
        stays
    where
      rejected : (now : ℕ) → Reach ext w.db (Deals.set_deal_status_rejected deal_id now w.db)
      rejected now = goes stays (Step.rejects deal_id now w.db)

  -- Whatever fails, setting a payout address takes lifecycle steps only.
  pub set_deal_payout_address-Refines :
      (user_id deal_id : ℕ) (payout : String)
      → Refines (set_deal_payout_address user_id deal_id payout)
  unfolding set_deal_payout_address
  set_deal_payout_address-Refines user_id deal_id payout w =
      then_found (Gone w.db) _ _ w
        (λ d e.
          then_fail_if (Gone w.db) _ _ _ _ (λ _. stays)
            (λ _.
              then_fail_if (Gone w.db) _ _ _ _ (λ _. stays)
                (λ _.
                  then_fail_if (Gone w.db) _ _ _ _ (λ _. stays)
                    (λ set. call_cases (Gone w.db) _ _ _ (done set _) stays (done set _)))))
        stays
    where
      done :
          str_eq payout "" ≡ false
          → (now : ℕ)
          → Reach ext w.db (Deals.set_deal_payout_address deal_id user_id payout now w.db)
      done set now = goes stays (Step.sets_payout deal_id user_id now payout w.db set)

  -- Whatever fails, an edit of a draft takes lifecycle steps only.
  pub update_deal_draft-Refines :
      (compute : ℤ → ℤ) (user_id : ℕ) (d : Deal) → Refines (update_deal_draft compute user_id d)
  unfolding update_deal_draft
  update_deal_draft-Refines compute user_id d w =
      then_found (Gone w.db) _ _ w
        (λ x e.
          then_fail_if (Gone w.db) _ _ _ _ (λ _. stays)
            (λ _.
              then_fail_if (Gone w.db) _ _ _ _ (λ _. stays)
                (λ _.
                  call_cases (Gone w.db) _ _ _ (goes stays (Step.edits _ _ w.db)) stays
                    (goes stays (Step.edits _ _ w.db)))))
        stays

  -- Whatever fails, the creation of a deal takes lifecycle steps only.
  pub create_deal-Refines :
      (compute : ℤ → ℤ) (d : Deal) (other_side_id : ℕ)
      → Refines (create_deal compute d other_side_id)
  unfolding create_deal
  create_deal-Refines compute d other_side_id w =
      then_call (Gone w.db) _ _ _ w
        (then_ignore (Gone w.db) _ _ _ _ (goes stays (Step.creates _ _ w.db refl))
          (goes stays (Step.creates _ _ w.db refl)))
        stays (goes stays (Step.creates _ _ w.db refl))

  -- The statement that signs for either side.
  abbrev sign : Bool → ℕ → String → ℕ → Db → Db
  sign as_lessor id sig =
      if as_lessor
      then Deals.set_deal_lessor_signature id sig
      else Deals.set_deal_lessee_signature id sig

  sign-Step :
      (b : Bool) (id now : ℕ) (sig : String) (db : Db) (d : Deal)
      → Deals.get_deal_by_id id db ≡ d ∷ []
      → is_status d.status draft ≡ true
      → HasPayouts d
      → Step.Step ext db (sign b id sig now db)
  sign-Step true id now sig db d e k p = Step.signs_as_lessor id now sig db d e k p
  sign-Step false id now sig db d e k p = Step.signs_as_lessee id now sig db d e k p

  -- The signed row is the only one with its id, and still a draft.
  signed_draft :
      (b : Bool) (id now : ℕ) (sig : String) (db : Db) (d u : Deal)
      → Deals.get_deal_by_id id db ≡ d ∷ []
      → is_status d.status draft ≡ true
      → Deals.get_deal_by_id id (sign b id sig now db) ≡ u ∷ []
      → is_status u.status draft ≡ true
  unfolding Deals.get_deal_by_id Deals.set_deal_lessor_signature Deals.set_deal_lessee_signature
  signed_draft true id now sig db d u e k found =
      let after =
        select-update id (λ (x : Deal). record x { lessor_signature = some sig; updated_at = now })
          (λ _. refl) d db.deals e in
      ground (arith, after)
  signed_draft false id now sig db d u e k found =
      let after =
        select-update id (λ (x : Deal). record x { lessee_signature = some sig; updated_at = now })
          (λ _. refl) d db.deals e in
      ground (arith, after)

  -- Approval in the same transaction, if both signatures match now.
  approval :
      (b : Bool) (id now then_now : ℕ) (sig : String) (db : Db) (d u : Deal)
      → Deals.get_deal_by_id id db ≡ d ∷ []
      → is_status d.status draft ≡ true
      → HasPayouts d
      → Deals.get_deal_by_id id (sign b id sig now db) ≡ u ∷ []
      → deal_signatures_match ext u ≡ true
      → Reach ext db (Deals.set_deal_status_approved id then_now (sign b id sig now db))
  approval b id now then_now sig db d u e k p found m =
      goes (goes stays (sign-Step b id now sig db d e k p))
        (Step.approves id then_now _ u found (signed_draft b id now sig db d u e k found) m)

  pub sign_deal_in_tx-Refines :
      (deal_id user_id : ℕ) (sig : String) (w : World)
      → ((d : Deal) → deal_with_id deal_id w ≡ d ∷ [] → HasPayouts d)
      → Reach ext w.db (sign_deal_in_tx ext deal_id user_id sig w).1.db
  unfolding sign_deal_in_tx
  sign_deal_in_tx-Refines deal_id user_id sig w payable =
      transaction_cases (Reach ext w.db) _ w stays (
        then_require (Gone w.db) _ _ _ _
          (λ d e.
            then_fail_if (Gone w.db) _ _ _ _ (λ _. stays)
              (λ k.
                then_fail_if (Gone w.db) _ _ _ _ (λ _. stays)
                  (λ side.
                    then_call (Gone w.db) _ _ _ _
                      (then_read_one (Gone w.db) _ _ _ (λ _. signed d e k _)
                        (λ u found.
                          if_cases (Gone w.db) _ _ _ _
                            (λ m.
                              call_cases (Gone w.db) _ _ _ (approved d e k u _ found m _)
                                (signed d e k _) (approved d e k u _ found m _))
                            (λ _. signed d e k _))
                        (λ _. signed d e k _))
                      stays (signed d e k _))))
          (λ e. stays))
    where
      drafted :
          (d : Deal) → not (is_status d.status draft) ≡ false → is_status d.status draft ≡ true
      drafted d k = ground arith

      signed :
          (d : Deal)
          → deal_with_id deal_id w ≡ d ∷ []
          → not (is_status d.status draft) ≡ false
          → (now : ℕ) → Reach ext w.db (sign (user_id == d.lessor_id) deal_id sig now w.db)
      signed d e k now =
          goes stays (
            sign-Step (user_id == d.lessor_id) deal_id now sig w.db d e (drafted d k) (payable d e))

      approved :
          (d : Deal)
          → deal_with_id deal_id w ≡ d ∷ []
          → not (is_status d.status draft) ≡ false
          → (u : Deal) (now : ℕ)
          → Deals.get_deal_by_id deal_id (sign (user_id == d.lessor_id) deal_id sig now w.db)
            ≡ u ∷ []
          → deal_signatures_match ext u ≡ true
          → (then_now : ℕ)
          → Reach ext w.db (
              Deals.set_deal_status_approved deal_id then_now
                (sign (user_id == d.lessor_id) deal_id sig now w.db))
      approved d e k u now found m then_now =
          approval (user_id == d.lessor_id) deal_id now then_now sig w.db d u e (drafted d k)
            (payable d e) found m

  -- Whatever fails, a signature, with the approval that may follow it, takes lifecycle steps only:
  -- the service has checked both payout addresses before the transaction begins.
  pub sign_deal-Refines : (user_id deal_id : ℕ) → Refines (sign_deal ext user_id deal_id)
  unfolding sign_deal
  sign_deal-Refines user_id deal_id w =
      then_found (Gone w.db) _ _ w
        (λ d e.
          then_found (Gone w.db) _ _ _
            (λ u f.
              then_fail_if (Gone w.db) _ _ _ _ (λ _. stays)
                (λ _.
                  then_fail_if (Gone w.db) _ _ _ _ (λ _. stays)
                    (λ set.
                      then_fail_if (Gone w.db) _ _ _ _ (λ _. stays)
                        (λ _.
                          then_fail_if (Gone w.db) _ _ _ _ (λ _. stays)
                            (λ _.
                              then_ignored (Reach ext w.db) _ _ _ _ (λ v h. h)
                                (sign_deal_in_tx-Refines deal_id user_id _ _ (payable d e set)))))))
            stays)
        stays
    where
      payable :
          (d : Deal)
          → deal_with_id deal_id w ≡ d ∷ []
          → (is_unset d.lessor_payout_address || is_unset d.lessee_payout_address) ≡ false
          → (x : Deal) → deal_with_id deal_id w ≡ x ∷ []
          → HasPayouts x
      payable d e set x f = let same : d ∷ [] ≡ x ∷ [] = sym e ∙ f in ground arith
