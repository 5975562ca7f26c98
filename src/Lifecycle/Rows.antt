-- ===== src/Lifecycle/Rows.antt =====
-- What each statement does to a row of market.deal that it selects: the row stays sound, and its
-- successor is lawful.
use telegram_ads_market.Common
use telegram_ads_market.Common.{
  ℕ, String, ◌≡◌, refl, sym, ◌∙◌, Bool, true, false, ◌&&◌, ◌||◌, some, none, List, [], ◌∷◌, ◌==◌,
  All, select, is_unset, is_none, holds_text, arith, update, ==→eq, All-of-select, subst,
}
use telegram_ads_market.Common.Tests.{if◌then◌else◌}
use telegram_ads_market.Common.Text.{str_eq}
use telegram_ads_market.Entity.{
  Deal, DealStatus, draft, approved, waiting_escrow_deposit, is_status,
}
use telegram_ads_market.External.{External}
use telegram_ads_market.Signature.{deal_signatures_match, expected_signature}
use telegram_ads_market.Repository.Deals.{has_id}
use telegram_ads_market.Lifecycle.Diagram.{◌⟶◌, approve, open_escrow, is_status-eq}
use telegram_ads_market.Lifecycle.Lawful.{Lawful, Lawful-move, Lawful-edit}
use telegram_ads_market.Lifecycle.Sound.{RowSound, HasPayouts, is_agreed, is_before_escrow}

module _ (ext : External) where
  abbrev pub Follows : Deal → Deal → Type 0
  Follows d e = RowSound ext e × Lawful d e

  -- The row goes along an edge, and nothing else of it changes.
  pub move-Follows :
      {s t : DealStatus} (d : Deal) (now : ℕ)
      → s ⟶ t
      → (is_agreed t ≡ true → is_agreed s ≡ true)
      → is_before_escrow t ≡ is_before_escrow s
      → RowSound ext d
      → is_status d.status s ≡ true
      → Follows d (record d { status = t; updated_at = now })
  unfolding deal_signatures_match expected_signature
  move-Follows {s} {t} d now e agreed same h k = (
    record {
      signed = λ a. h.signed (rw (is_status-eq d.status s k) (agreed a));
      payable = h.payable;
      escrowed = h.escrowed ∙ rw (is_status-eq d.status s k) (sym same);
    },
    Lawful-move d now e k,
  )

  pub open_escrow-Follows :
      (d : Deal) (address : String) (now : ℕ)
      → RowSound ext d
      → is_status d.status approved ≡ true
      → Follows d (record d {
        escrow_address = some address;
        status = waiting_escrow_deposit;
        updated_at = now;
      })
  unfolding deal_signatures_match expected_signature
  open_escrow-Follows d address now h k = (
    record {
      signed = λ a. h.signed (rw (is_status-eq d.status approved k) refl);
      payable = h.payable;
      escrowed = refl;
    },
    record {
      same_id = refl;
      same_listing = refl;
      same_lessor = refl;
      same_lessee = refl;
      same_channel = refl;
      path = (Lawful-move d now open_escrow k).path;
      frozen = λ _. record {
        type_kept = refl;
        duration_kept = refl;
        price_kept = refl;
        escrow_amount_kept = refl;
        details_kept = refl;
        lessor_payout_kept = refl;
        lessee_payout_kept = refl;
        lessor_signature_kept = refl;
        lessee_signature_kept = refl;
      };
      escrow_kept = λ e. absurd (unset e);
    },
  )
    where
      unset : is_none d.escrow_address ≡ false → ⊥
      unset e =
          let before : is_before_escrow d.status ≡ true =
            rw (is_status-eq d.status approved k) refl in
          cc (h.escrowed)

  -- A draft that stays a draft, without an escrow address, has nothing else to keep.
  pub edit-Follows :
      (d e : Deal)
      → RowSound ext d
      → is_status d.status draft ≡ true
      → (e.id ≡ d.id)
        × (e.listing_id ≡ d.listing_id)
        × (e.lessor_id ≡ d.lessor_id)
        × (e.lessee_id ≡ d.lessee_id)
        × (e.channel_id ≡ d.channel_id)
        × (e.status ≡ d.status)
        × (e.escrow_address ≡ d.escrow_address)
      → ((is_none e.lessor_signature && is_none e.lessee_signature) ≡ false → HasPayouts e)
      → Follows d e
  edit-Follows d e h k same payable = (
    record {
      signed = λ a. absurd (still_draft a);
      payable = payable;
      escrowed = rw (same.6, same.5) h.escrowed;
    },
    Lawful-edit d e k same,
  )
    where
      still_draft : is_agreed e.status ≡ true → ⊥
      still_draft a =
          let drafted : is_agreed e.status ≡ false =
            rw (same.5, is_status-eq d.status draft k) refl in
          cc

  pub clear-Follows :
      (d e : Deal) (now : ℕ)
      → RowSound ext d
      → is_status d.status draft ≡ true
      → Follows d (record d {
        type = e.type;
        duration = e.duration;
        price = e.price;
        escrow_amount = e.escrow_amount;
        details = e.details;
        lessor_signature = none;
        lessee_signature = none;
        updated_at = now;
      })
  clear-Follows d e now h k =
      edit-Follows d _ h k (refl, refl, refl, refl, refl, refl, refl) (λ p. cc)

  pub sign_as_lessor-Follows :
      (d : Deal) (sig : String) (now : ℕ)
      → RowSound ext d
      → is_status d.status draft ≡ true
      → HasPayouts d
      → Follows d (record d { lessor_signature = some sig; updated_at = now })
  sign_as_lessor-Follows d sig now h k p =
      edit-Follows d _ h k (refl, refl, refl, refl, refl, refl, refl) (λ _. p)

  pub sign_as_lessee-Follows :
      (d : Deal) (sig : String) (now : ℕ)
      → RowSound ext d
      → is_status d.status draft ≡ true
      → HasPayouts d
      → Follows d (record d { lessee_signature = some sig; updated_at = now })
  sign_as_lessee-Follows d sig now h k p =
      edit-Follows d _ h k (refl, refl, refl, refl, refl, refl, refl) (λ _. p)

  -- Setting a payout address again keeps it set.
  payout_kept :
      (b : Bool) (payout : String) (old : Common.Option String)
      → str_eq payout "" ≡ false
      → is_unset old ≡ false
      → is_unset (if b then some payout else old) ≡ false
  payout_kept true payout old p h = p
  payout_kept false payout old p h = h

  pub set_payout-Follows :
      (d : Deal) (user_id : ℕ) (payout : String) (now : ℕ)
      → str_eq payout "" ≡ false
      → RowSound ext d
      → is_status d.status draft ≡ true
      → Follows d (record d {
        lessor_payout_address =
            if user_id == d.lessor_id then some payout else d.lessor_payout_address;
        lessee_payout_address =
            if user_id == d.lessee_id then some payout else d.lessee_payout_address;
        updated_at = now;
      })
  set_payout-Follows d user_id payout now p h k =
      edit-Follows d _ h k (refl, refl, refl, refl, refl, refl, refl)
        (λ s. (
          payout_kept (user_id == d.lessor_id) payout d.lessor_payout_address p (h.payable s).0,
          payout_kept (user_id == d.lessee_id) payout d.lessee_payout_address p (h.payable s).1,
        ))

  -- Approval, by the transaction that has seen both signatures match.
  pub approve-Follows :
      (d : Deal) (now : ℕ)
      → RowSound ext d
      → is_status d.status draft ≡ true
      → deal_signatures_match ext d ≡ true
      → Follows d (record d { status = approved; updated_at = now })
  unfolding deal_signatures_match expected_signature
  approve-Follows d now h k m = (
    record {
      signed = λ _. m;
      payable = h.payable;
      escrowed = h.escrowed ∙ rw (is_status-eq d.status draft k) refl;
    },
    Lawful-move d now approve k,
  )

  -- A new row has no signature, no escrow address, and is a draft.
  pub new-RowSound :
      (d : Deal)
      → is_status d.status draft ≡ true
      → d.lessor_signature ≡ none
      → d.lessee_signature ≡ none
      → d.escrow_address ≡ none
      → RowSound ext d
  new-RowSound d k a b w = record {
    signed = λ g. absurd (not_agreed g);
    payable = λ s. absurd (cc (Common.ap is_none a));
    escrowed = rw (w, is_status-eq d.status draft k) refl;
  }
    where
      not_agreed : is_agreed d.status ≡ true → ⊥
      not_agreed g =
          let drafted : is_agreed d.status ≡ false = rw (is_status-eq d.status draft k) refl in cc

-- Where the row with an id is the only one, what holds of it holds of all rows with the id.
pub only_row {κ} :
    (P : Deal → Type κ) (id : ℕ) (d : Deal) (xs : List Deal)
    → select (has_id id) xs ≡ d ∷ []
    → P d
    → All (λ x. has_id id x ≡ true → P x) xs
only_row P id d xs e p = All-of-select P (has_id id) xs (subst (All P) (sym e) (p, tt))
