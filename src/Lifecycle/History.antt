-- ===== src/Lifecycle/History.antt =====
-- Every transaction keeps the database sound and moves every deal lawfully; what follows for all
-- histories, that is for any transactions of any processes in any order.
use telegram_ads_market.Common.{
  ℕ, suc, zero, ◌≡◌, ◌⊎◌, inl, inr, refl, Bool, true, false, ◌&&◌, ◌||◌, String, ap, holds_text,
  if◌then◌else◌, Option, none, some, is_none, List, [], ◌∷◌, All, arith, subst,
}
use telegram_ads_market.Common.Text.{eq_iff}
use telegram_ads_market.Entity.{Deal, draft, is_status, DealActionType, DealActionLockStatus}
use telegram_ads_market.External.{External}
use telegram_ads_market.Signature.{deal_signatures_match, expected_signature}
use telegram_ads_market.Repository.{Db}
use telegram_ads_market.Lifecycle.Diagram.{
  ⟶*-terminal, ⟶*-one_way, is_terminal, pays_lessor, pays_lessee,
}
use telegram_ads_market.Lifecycle.Lawful.{Lawful, SameTerms, Evolves, Evolves-refl, Evolves-trans}
use telegram_ads_market.Lifecycle.Sound.{RowSound, IsSound, HasPayouts, is_agreed}
use telegram_ads_market.Lifecycle.Step.{
  Step, creates, edits, signs_as_lessor, signs_as_lessee, approves, sets_payout, rejects,
  opens_escrow, expires_address, expires, confirms_deposit, confirms_release, confirms_refund,
  completes, posts, judges, rechecks, settles_passed, settles_deleted, takes_lock, releases_lock,
  Reach, stays, goes,
}
use telegram_ads_market.Repository.Locks.{insert_lock, release_deal_action_lock}
use telegram_ads_market.Lifecycle.DealUpdates.{
  Kept, create_deal-Kept, update_deal_draft-Kept, sign_as_lessor-Kept, sign_as_lessee-Kept,
  approve-Kept, set_payout-Kept, reject-Kept, open_escrow-Kept, expire_address-Kept, expire-Kept,
  confirm_deposit-Kept, confirm_release-Kept, confirm_refund-Kept, complete-Kept,
}
use telegram_ads_market.Lifecycle.PostUpdates.{
  post-Kept, judge-Kept, recheck-Kept, settle_passed-Kept, settle_deleted-Kept,
}

-- The tables after the migrations.
abbrev pub empty_db : Db
empty_db = record {
  deals = [];
  posts = [];
  locks = [];
  next_deal = 1;
  next_post = 1;
  next_lock = 1;
}

abbrev pub row_at : List Deal → ℕ → Option Deal
row_at [] i = none
row_at (d ∷ ds) zero = some d
row_at (d ∷ ds) (suc i) = row_at ds i

Evolves-row_at :
    (xs ys : List Deal) (i : ℕ) (d : Deal)
    → Evolves xs ys
    → row_at xs i ≡ some d
    → (e : Deal) × (row_at ys i ≡ some e) × Lawful d e
Evolves-row_at [] ys i d v h = absurd (cc)
Evolves-row_at (x ∷ xs) [] i d v h = absurd v
Evolves-row_at (x ∷ xs) (y ∷ ys) zero d v h = (y, refl, subst (λ z. Lawful z y) (same h) v.0)
  where
    same : some x ≡ some d → x ≡ d
    same p = cc
Evolves-row_at (x ∷ xs) (y ∷ ys) (suc i) d v h = Evolves-row_at xs ys i d v.1 h

All-row_at {κ} :
    (P : Deal → Type κ) (xs : List Deal) (i : ℕ) (d : Deal) → All P xs → row_at xs i ≡ some d → P d
All-row_at P [] i d a h = absurd (cc)
All-row_at P (x ∷ xs) zero d a h = subst P (same h) a.0
  where
    same : some x ≡ some d → x ≡ d
    same p = cc
All-row_at P (x ∷ xs) (suc i) d a h = All-row_at P xs i d a.1 h

-- Two signatures that match are those that the present terms ask for.
pub both_signed :
    (ext : External) (d : Deal)
    → deal_signatures_match ext d ≡ true
    → (d.lessor_signature ≡ some (expected_signature ext d d.lessor_id))
      × (d.lessee_signature ≡ some (expected_signature ext d d.lessee_id))
unfolding deal_signatures_match
both_signed ext d h = go d.lessor_signature d.lessee_signature h
  where
    go :
        (a b : Option String)
        → (if is_none a || is_none b
            then false
            else (holds_text a (expected_signature ext d d.lessor_id)
                && holds_text b (expected_signature ext d d.lessee_id)))
          ≡ true
        → (a ≡ some (expected_signature ext d d.lessor_id))
          × (b ≡ some (expected_signature ext d d.lessee_id))
    go none b k = cc
    go (some a) none k = cc
    go (some a) (some b) k =
        (ap some ((eq_iff a _).0 (ground arith)), ap some ((eq_iff b _).0 (ground arith)))

module _ (ext : External) where
  take_lock-Kept :
      (deal_id expire_at now : ℕ) (action : DealActionType) (db : Db)
      → IsSound ext db
      → Kept ext db (insert_lock deal_id action expire_at now db)
  unfolding insert_lock
  take_lock-Kept deal_id expire_at now action db h = (
    record { rows = h.rows; busy = h.busy; known = h.known; one_per_deal = h.one_per_deal },
    Evolves-refl db.deals,
  )

  release_lock-Kept :
      (lock_id now : ℕ) (s : DealActionLockStatus) (db : Db)
      → IsSound ext db
      → Kept ext db (release_deal_action_lock lock_id s now db)
  unfolding release_deal_action_lock
  release_lock-Kept lock_id now s db h = (
    record { rows = h.rows; busy = h.busy; known = h.known; one_per_deal = h.one_per_deal },
    Evolves-refl db.deals,
  )

  pub Step-Kept : {db db' : Db} → Step ext db db' → IsSound ext db → Kept ext db db'
  Step-Kept (creates d now db k) h = create_deal-Kept ext d now db k h
  Step-Kept (edits e now db) h = update_deal_draft-Kept ext e now db h
  Step-Kept (signs_as_lessor id now sig db d e k p) h =
      sign_as_lessor-Kept ext id now sig db d e k p h
  Step-Kept (signs_as_lessee id now sig db d e k p) h =
      sign_as_lessee-Kept ext id now sig db d e k p h
  Step-Kept (approves id now db d e k m) h = approve-Kept ext id now db d e k m h
  Step-Kept (sets_payout id user_id now payout db p) h =
      set_payout-Kept ext id user_id now payout db p h
  Step-Kept (rejects id now db) h = reject-Kept ext id now db h
  Step-Kept (opens_escrow id now address db) h = open_escrow-Kept ext id now address db h
  Step-Kept (expires_address address now db) h = expire_address-Kept ext address now db h
  Step-Kept (expires id now db) h = expire-Kept ext id now db h
  Step-Kept (confirms_deposit id now db) h = confirm_deposit-Kept ext id now db h
  Step-Kept (confirms_release id now db) h = confirm_release-Kept ext id now db h
  Step-Kept (confirms_refund id now db) h = confirm_refund-Kept ext id now db h
  Step-Kept (completes id now db) h = complete-Kept ext id now db h
  Step-Kept (posts m now db s below w) h = post-Kept ext m now db below w h
  Step-Kept (judges id now s db still) h = judge-Kept ext id now s db still h
  Step-Kept (rechecks id now next_check db still) h = recheck-Kept ext id now next_check db still h
  Step-Kept (settles_passed ids now db are) h = settle_passed-Kept ext ids now db are h
  Step-Kept (settles_deleted ids now db are) h = settle_deleted-Kept ext ids now db are h
  Step-Kept (takes_lock deal_id expire_at now action db) h =
      take_lock-Kept deal_id expire_at now action db h
  Step-Kept (releases_lock lock_id now s db) h = release_lock-Kept lock_id now s db h

  pub Reach-Kept : {db db' : Db} → Reach ext db db' → IsSound ext db → Kept ext db db'
  Reach-Kept {db} stays h = (h, Evolves-refl db.deals)
  Reach-Kept {db} {db' = c} (goes {db' = b} r s) h =
      let (sound, before) = Reach-Kept r h in
      let (sound', after) = Step-Kept s sound in
      (sound', Evolves-trans db.deals b.deals c.deals before after)

  pub empty_db-IsSound : IsSound ext empty_db
  empty_db-IsSound = record { rows = tt; busy = tt; known = tt; one_per_deal = tt }

  -- Every single transaction of the services, under the facts that precede it, keeps a sound
  -- database sound and gives every row of market.deal a lawful successor in its place.
  pub transaction_keeps_IsSound :
      {db db' : Db}
      → Step ext db db'
      → IsSound ext db
      → IsSound ext db' × Evolves db.deals db'.deals
  transaction_keeps_IsSound = Step-Kept

  -- In any history from a sound database, a deal that has left draft keeps its parties, its terms,
  -- its payout addresses, its signatures, and its escrow address once it has one.
  pub agreed_terms_frozen :
      {db db' : Db} (i : ℕ) (d : Deal)
      → IsSound ext db
      → Reach ext db db'
      → row_at db.deals i ≡ some d
      → is_status d.status draft ≡ false
      → (e : Deal) × (row_at db'.deals i ≡ some e)
        × SameTerms d e
        × (e.id ≡ d.id)
        × (e.lessor_id ≡ d.lessor_id)
        × (e.lessee_id ≡ d.lessee_id)
        × ((is_none d.escrow_address ≡ true) ⊎ (e.escrow_address ≡ d.escrow_address))
  agreed_terms_frozen {db} {db'} i d sound r at left =
      let (e, found, law) = Evolves-row_at db.deals db'.deals i d (Reach-Kept r sound).1 at in
      (
        e,
        found,
        law.frozen left,
        law.same_id,
        law.same_lessor,
        law.same_lessee,
        unless (is_none d.escrow_address) law.escrow_kept,
      )
    where
      unless : {A : Type 0} → (b : Bool) → (b ≡ false → A) → (b ≡ true) ⊎ A
      unless true f = inl refl
      unless false f = inr (f refl)

  -- In any history from empty tables, a deal that is past draft and not rejected bears the
  -- signatures of both parties over its present terms, and both payout addresses are set.
  pub agreed_by_both :
      {db : Db} (i : ℕ) (d : Deal)
      → Reach ext empty_db db
      → row_at db.deals i ≡ some d
      → is_agreed d.status ≡ true
      → (d.lessor_signature ≡ some (expected_signature ext d d.lessor_id))
        × (d.lessee_signature ≡ some (expected_signature ext d d.lessee_id))
        × HasPayouts d
  agreed_by_both {db} i d r at agreed =
      let row = All-row_at (RowSound ext) db.deals i d (Reach-Kept r empty_db-IsSound).0.rows at in
      let (a, b) = both_signed ext d (row.signed agreed) in (a, b, row.payable (rw a refl))

  -- In any history from a sound database, a deal whose escrow goes to the lessor is never seen on
  -- the way of a refund, and the other way round.
  pub escrow_goes_one_way :
      {db db' : Db} (i : ℕ) (d : Deal)
      → IsSound ext db
      → Reach ext db db'
      → row_at db.deals i ≡ some d
      → (e : Deal) × (row_at db'.deals i ≡ some e)
        × ((pays_lessor d.status && pays_lessee e.status) ≡ false)
        × ((pays_lessee d.status && pays_lessor e.status) ≡ false)
  escrow_goes_one_way {db} {db'} i d sound r at =
      let (e, found, law) = Evolves-row_at db.deals db'.deals i d (Reach-Kept r sound).1 at in
      (
        e,
        found,
        both (pays_lessor d.status) (⟶*-one_way law.path).0,
        both (pays_lessee d.status) (⟶*-one_way law.path).1,
      )
    where
      both : {b : Bool} (a : Bool) → (a ≡ true → b ≡ false) → (a && b) ≡ false
      both true f = f refl
      both false f = refl

  -- In any history from a sound database, a completed, expired or rejected deal keeps its status.
  pub terminal_status_final :
      {db db' : Db} (i : ℕ) (d : Deal)
      → IsSound ext db
      → Reach ext db db'
      → row_at db.deals i ≡ some d
      → is_terminal d.status ≡ true
      → (e : Deal) × (row_at db'.deals i ≡ some e) × (e.status ≡ d.status)
  terminal_status_final {db} {db'} i d sound r at final =
      let (e, found, law) = Evolves-row_at db.deals db'.deals i d (Reach-Kept r sound).1 at in
      (e, found, ⟶*-terminal law.path final)
