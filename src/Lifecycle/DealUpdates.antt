-- ===== src/Lifecycle/DealUpdates.antt =====
-- Every statement on market.deal keeps the database sound and moves every deal lawfully.
use telegram_ads_market.Common.{
  ℕ, ◌<◌, String, ◌≡◌, refl, ap, inl, inr, Bool, true, false, not, ◌&&◌, ◌||◌, some, List, [], ◌∷◌,
  All, All-update, All-append, All-map, All-zip, update, select, is_unset, arith, Bool-cases,
}
use telegram_ads_market.Common.Text.{str_eq}
use telegram_ads_market.Entity.{
  Deal, DealStatus, draft, approved, in_progress, escrow_release_confirmed, escrow_refund_confirmed,
  is_status,
}
use telegram_ads_market.External.{External}
use telegram_ads_market.Signature.{deal_signatures_match}
use telegram_ads_market.Repository.{Db}
use telegram_ads_market.Repository.Deals.{
  has_id, create_deal, get_deal_by_id, update_deal_draft_fields_and_clear_signatures,
  set_deal_lessor_signature, set_deal_lessee_signature, set_deal_payout_address,
  set_deal_status_approved, set_deal_escrow_address, set_deal_status_expired_by_escrow_address,
  set_deal_status_expired_by_deal_id, set_deal_status_completed,
  set_deal_status_escrow_deposit_confirmed, set_deal_status_escrow_release_confirmed,
  set_deal_status_escrow_refund_confirmed, set_deal_status_rejected,
}
use telegram_ads_market.Lifecycle.Diagram.{
  reject, expire, deposit, release, refund, complete_release, complete_refund,
}
use telegram_ads_market.Lifecycle.Lawful.{Evolves, Evolves-append, Evolves-update}
use telegram_ads_market.Lifecycle.Sound.{RowSound, IsSound, HasPayouts, Busy}
use telegram_ads_market.Lifecycle.Rows.{
  Follows, move-Follows, open_escrow-Follows, clear-Follows, sign_as_lessor-Follows,
  sign_as_lessee-Follows, set_payout-Follows, approve-Follows, new-RowSound, only_row,
}
use telegram_ads_market.Lifecycle.Busy.{Busy-update}

module _ (ext : External) where
  abbrev pub Kept : Db → Db → Type 0
  Kept db db' = IsSound ext db' × Evolves db.deals db'.deals

  -- An UPDATE of market.deal whose WHERE clause selects no deal in progress.
  pub deals-Kept :
      (test : Deal → Bool) (change : Deal → Deal)
      → ((d : Deal) → RowSound ext d → test d ≡ true → Follows ext d (change d))
      → ((d : Deal)
          → test d ≡ true
          → (is_status d.status in_progress ≡ false) × ((change d).id ≡ d.id))
      → (db : Db) → IsSound ext db
      → Kept db (record db { deals = update test change db.deals })
  deals-Kept test change follows idle db h = (
    record {
      rows = All-update (RowSound ext) test change (λ d t r. (follows d r t).0) db.deals h.rows;
      busy = Busy-update test change idle db.deals db.posts h.busy;
      known = h.known;
      one_per_deal = h.one_per_deal;
    },
    Evolves-update (RowSound ext) test change (λ d r t. (follows d r t).1) db.deals h.rows,
  )

  -- A statement with WHERE id = @id after its transaction has read the only row with the id: the
  -- facts about that row are as good as a guard.
  narrow :
      (id : ℕ) (extra : Deal → Bool) (change : Deal → Deal) (d : Deal) (xs : List Deal)
      → select (has_id id) xs ≡ d ∷ []
      → extra d ≡ true
      → update (has_id id) change xs ≡ update (λ x. has_id id x && extra x) change xs
  narrow id extra change d xs e p = widen xs (only_row (λ x. extra x ≡ true) id d xs e p)
    where
      widen :
          (ys : List Deal)
          → All (λ x. has_id id x ≡ true → extra x ≡ true) ys
          → update (has_id id) change ys ≡ update (λ x. has_id id x && extra x) change ys
      widen [] h = refl
      widen (y ∷ ys) h = ground (arith, h.0, widen ys h.1)

  pub create_deal-Kept :
      (d : Deal) (now : ℕ) (db : Db)
      → is_status d.status draft ≡ true
      → IsSound ext db
      → Kept db (create_deal d now db)
  unfolding create_deal
  create_deal-Kept d now db k h = (
    record {
      rows = All-append (RowSound ext) db.deals _ h.rows (new-RowSound ext _ k refl refl refl, tt);
      busy =
          All-zip (λ m. m.deal_id < db.next_deal) (Busy db.deals) _
            (λ m below b p.
              All-append (λ x. x.id ≡ m.deal_id → is_status x.status in_progress ≡ true) db.deals _
                (b p) ((λ same. absurd (omega (arith, ap (λ (n : ℕ). n) same))), tt))
            db.posts h.known h.busy;
      known = All-map _ _ (λ m below. omega arith) db.posts h.known;
      one_per_deal = h.one_per_deal;
    },
    Evolves-append db.deals _,
  )

  pub update_deal_draft-Kept :
      (e : Deal) (now : ℕ) (db : Db)
      → IsSound ext db
      → Kept db (update_deal_draft_fields_and_clear_signatures e now db)
  unfolding update_deal_draft_fields_and_clear_signatures
  update_deal_draft-Kept e now db h =
      deals-Kept _ _ (λ d r t. clear-Follows ext d e now r (ground arith))
        (λ d t. (ground arith, refl)) db h

  -- The columns that signing sets are written only to a draft whose payout addresses are set.
  abbrev is_signable : Deal → Bool
  is_signable d =
      is_status d.status draft
      && (not (is_unset d.lessor_payout_address) && not (is_unset d.lessee_payout_address))

  signable : (d : Deal) → is_status d.status draft ≡ true → HasPayouts d → is_signable d ≡ true
  signable d k p = rw (k, p.0, p.1) refl

  has_payouts : (d : Deal) → is_signable d ≡ true → HasPayouts d
  has_payouts d k = (ground arith, ground arith)

  pub sign_as_lessor-Kept :
      (id now : ℕ) (sig : String) (db : Db) (d : Deal)
      → get_deal_by_id id db ≡ d ∷ []
      → is_status d.status draft ≡ true
      → HasPayouts d
      → IsSound ext db
      → Kept db (set_deal_lessor_signature id sig now db)
  unfolding set_deal_lessor_signature get_deal_by_id
  sign_as_lessor-Kept id now sig db d e k p h =
      rw
        (narrow id is_signable (λ x. record x { lessor_signature = some sig; updated_at = now }) d
          db.deals e (signable d k p))
        (deals-Kept (λ x. has_id id x && is_signable x) _
          (λ x r t.
            sign_as_lessor-Follows ext x sig now r (ground arith) (has_payouts x (ground arith)))
          (λ x t. (ground arith, refl)) db h)

  pub sign_as_lessee-Kept :
      (id now : ℕ) (sig : String) (db : Db) (d : Deal)
      → get_deal_by_id id db ≡ d ∷ []
      → is_status d.status draft ≡ true
      → HasPayouts d
      → IsSound ext db
      → Kept db (set_deal_lessee_signature id sig now db)
  unfolding set_deal_lessee_signature get_deal_by_id
  sign_as_lessee-Kept id now sig db d e k p h =
      rw
        (narrow id is_signable (λ x. record x { lessee_signature = some sig; updated_at = now }) d
          db.deals e (signable d k p))
        (deals-Kept (λ x. has_id id x && is_signable x) _
          (λ x r t.
            sign_as_lessee-Follows ext x sig now r (ground arith) (has_payouts x (ground arith)))
          (λ x t. (ground arith, refl)) db h)

  pub approve-Kept :
      (id now : ℕ) (db : Db) (d : Deal)
      → get_deal_by_id id db ≡ d ∷ []
      → is_status d.status draft ≡ true
      → deal_signatures_match ext d ≡ true
      → IsSound ext db
      → Kept db (set_deal_status_approved id now db)
  unfolding set_deal_status_approved get_deal_by_id
  approve-Kept id now db d e k m h =
      rw
        (narrow id (λ x. is_status x.status draft && deal_signatures_match ext x)
          (λ x. record x { status = approved; updated_at = now }) d db.deals e (rw (k, m) refl))
        (deals-Kept (λ x. has_id id x && (is_status x.status draft && deal_signatures_match ext x))
          _ (λ x r t. approve-Follows ext x now r (ground arith) (ground arith))
          (λ x t. (ground arith, refl)) db h)

  pub set_payout-Kept :
      (id user_id now : ℕ) (payout : String) (db : Db)
      → str_eq payout "" ≡ false
      → IsSound ext db
      → Kept db (set_deal_payout_address id user_id payout now db)
  unfolding set_deal_payout_address
  set_payout-Kept id user_id now payout db p h =
      deals-Kept _ _ (λ d r t. set_payout-Follows ext d user_id payout now p r (ground arith))
        (λ d t. (ground arith, refl)) db h

  pub reject-Kept :
      (id now : ℕ) (db : Db) → IsSound ext db → Kept db (set_deal_status_rejected id now db)
  unfolding set_deal_status_rejected
  reject-Kept id now db h =
      deals-Kept _ _ (λ d r t. move-Follows ext d now reject (λ a. cc) refl r (ground arith))
        (λ d t. (ground arith, refl)) db h

  pub open_escrow-Kept :
      (id now : ℕ) (address : String) (db : Db)
      → IsSound ext db
      → Kept db (set_deal_escrow_address id address now db)
  unfolding set_deal_escrow_address
  open_escrow-Kept id now address db h =
      deals-Kept _ _ (λ d r t. open_escrow-Follows ext d address now r (ground arith))
        (λ d t. (ground arith, refl)) db h

  pub expire_address-Kept :
      (address : String) (now : ℕ) (db : Db)
      → IsSound ext db
      → Kept db (set_deal_status_expired_by_escrow_address address now db)
  unfolding set_deal_status_expired_by_escrow_address
  expire_address-Kept address now db h =
      deals-Kept _ _ (λ d r t. move-Follows ext d now expire (λ a. refl) refl r (ground arith))
        (λ d t. (ground arith, refl)) db h

  pub expire-Kept :
      (id now : ℕ) (db : Db)
      → IsSound ext db
      → Kept db (set_deal_status_expired_by_deal_id id now db)
  unfolding set_deal_status_expired_by_deal_id
  expire-Kept id now db h =
      deals-Kept _ _ (λ d r t. move-Follows ext d now expire (λ a. refl) refl r (ground arith))
        (λ d t. (ground arith, refl)) db h

  pub confirm_deposit-Kept :
      (id now : ℕ) (db : Db)
      → IsSound ext db
      → Kept db (set_deal_status_escrow_deposit_confirmed id now db)
  unfolding set_deal_status_escrow_deposit_confirmed
  confirm_deposit-Kept id now db h =
      deals-Kept _ _ (λ d r t. move-Follows ext d now deposit (λ a. refl) refl r (ground arith))
        (λ d t. (ground arith, refl)) db h

  pub confirm_release-Kept :
      (id now : ℕ) (db : Db)
      → IsSound ext db
      → Kept db (set_deal_status_escrow_release_confirmed id now db)
  unfolding set_deal_status_escrow_release_confirmed
  confirm_release-Kept id now db h =
      deals-Kept _ _ (λ d r t. move-Follows ext d now release (λ a. refl) refl r (ground arith))
        (λ d t. (ground arith, refl)) db h

  pub confirm_refund-Kept :
      (id now : ℕ) (db : Db)
      → IsSound ext db
      → Kept db (set_deal_status_escrow_refund_confirmed id now db)
  unfolding set_deal_status_escrow_refund_confirmed
  confirm_refund-Kept id now db h =
      deals-Kept _ _ (λ d r t. move-Follows ext d now refund (λ a. refl) refl r (ground arith))
        (λ d t. (ground arith, refl)) db h

  completed-Follows :
      (d : Deal) (now : ℕ)
      → RowSound ext d
      → (is_status d.status escrow_release_confirmed || is_status d.status escrow_refund_confirmed)
        ≡ true
      → Follows ext d (record d { status = DealStatus.completed; updated_at = now })
  completed-Follows d now r t = elim (Bool-cases (is_status d.status escrow_release_confirmed)) [
    | inl a ↦ move-Follows ext d now complete_release (λ _. refl) refl r a
    | inr b ↦ move-Follows ext d now complete_refund (λ _. refl) refl r (ground arith)
  ]

  pub complete-Kept :
      (id now : ℕ) (db : Db) → IsSound ext db → Kept db (set_deal_status_completed id now db)
  unfolding set_deal_status_completed
  complete-Kept id now db h =
      deals-Kept _ _ (λ d r t. completed-Follows d now r (ground arith))
        (λ d t. (ground arith, refl)) db h
