-- ===== src/Lifecycle/Lawful.antt =====
-- What any transaction may do to a deal, and to the table of deals.
use telegram_ads_market.Common.{
  ℕ, ◌≡◌, refl, ◌∙◌, Bool, true, false, List, [], ◌∷◌, ◌++◌, update, All, is_none,
}
use telegram_ads_market.Common.Tests
use telegram_ads_market.Entity.{Deal, DealStatus, draft, is_status}
use telegram_ads_market.Lifecycle.Diagram.{
  ◌⟶◌, ◌⟶*◌, here, then, ⟶*-trans, ⟶*-ne-draft, is_status-eq,
}

-- What both parties have agreed on.
pub record SameTerms (d e : Deal) : Type 0 where
  pub type_kept : e.type ≡ d.type
  pub duration_kept : e.duration ≡ d.duration
  pub price_kept : e.price ≡ d.price
  pub escrow_amount_kept : e.escrow_amount ≡ d.escrow_amount
  pub details_kept : e.details ≡ d.details
  pub lessor_payout_kept : e.lessor_payout_address ≡ d.lessor_payout_address
  pub lessee_payout_kept : e.lessee_payout_address ≡ d.lessee_payout_address
  pub lessor_signature_kept : e.lessor_signature ≡ d.lessor_signature
  pub lessee_signature_kept : e.lessee_signature ≡ d.lessee_signature

-- `e` is a later state of the deal `d`: the same deal between the same parties, further along the
-- diagram, with the terms of `d` unless `d` was a draft, and with the escrow address of `d`.
pub record Lawful (d e : Deal) : Type 0 where
  pub same_id : e.id ≡ d.id
  pub same_listing : e.listing_id ≡ d.listing_id
  pub same_lessor : e.lessor_id ≡ d.lessor_id
  pub same_lessee : e.lessee_id ≡ d.lessee_id
  pub same_channel : e.channel_id ≡ d.channel_id
  pub path : d.status ⟶* e.status
  pub frozen : is_status d.status draft ≡ false → SameTerms d e
  pub escrow_kept : is_none d.escrow_address ≡ false → e.escrow_address ≡ d.escrow_address

SameTerms-refl : (d : Deal) → SameTerms d d
SameTerms-refl d = record {
  type_kept = refl;
  duration_kept = refl;
  price_kept = refl;
  escrow_amount_kept = refl;
  details_kept = refl;
  lessor_payout_kept = refl;
  lessee_payout_kept = refl;
  lessor_signature_kept = refl;
  lessee_signature_kept = refl;
}

SameTerms-trans : {d e f : Deal} → SameTerms d e → SameTerms e f → SameTerms d f
SameTerms-trans p q = record {
  type_kept = q.type_kept ∙ p.type_kept;
  duration_kept = q.duration_kept ∙ p.duration_kept;
  price_kept = q.price_kept ∙ p.price_kept;
  escrow_amount_kept = q.escrow_amount_kept ∙ p.escrow_amount_kept;
  details_kept = q.details_kept ∙ p.details_kept;
  lessor_payout_kept = q.lessor_payout_kept ∙ p.lessor_payout_kept;
  lessee_payout_kept = q.lessee_payout_kept ∙ p.lessee_payout_kept;
  lessor_signature_kept = q.lessor_signature_kept ∙ p.lessor_signature_kept;
  lessee_signature_kept = q.lessee_signature_kept ∙ p.lessee_signature_kept;
}

pub Lawful-refl : (d : Deal) → Lawful d d
Lawful-refl d = record {
  same_id = refl;
  same_listing = refl;
  same_lessor = refl;
  same_lessee = refl;
  same_channel = refl;
  path = here;
  frozen = λ _. SameTerms-refl d;
  escrow_kept = λ _. refl;
}

pub Lawful-trans : {d e f : Deal} → Lawful d e → Lawful e f → Lawful d f
Lawful-trans p q = record {
  same_id = q.same_id ∙ p.same_id;
  same_listing = q.same_listing ∙ p.same_listing;
  same_lessor = q.same_lessor ∙ p.same_lessor;
  same_lessee = q.same_lessee ∙ p.same_lessee;
  same_channel = q.same_channel ∙ p.same_channel;
  path = ⟶*-trans p.path q.path;
  frozen = λ h. SameTerms-trans (p.frozen h) (q.frozen (⟶*-ne-draft p.path h));
  escrow_kept = λ h. q.escrow_kept (rw (p.escrow_kept h) h) ∙ p.escrow_kept h;
}

-- A move along an edge that touches only the status and the time of the update.
pub Lawful-move :
    {s t : DealStatus} (d : Deal) (now : ℕ)
    → s ⟶ t
    → is_status d.status s ≡ true
    → Lawful d (record d { status = t; updated_at = now })
Lawful-move {s} {t} d now e h = record {
  same_id = refl;
  same_listing = refl;
  same_lessor = refl;
  same_lessee = refl;
  same_channel = refl;
  path = rw (is_status-eq d.status s h) (then e here);
  frozen = λ _. record {
    type_kept = refl;
    duration_kept = refl;
    price_kept = refl;
    escrow_amount_kept = refl;
    details_kept = refl;
    lessor_payout_kept = refl;
    lessee_payout_kept = refl;
    lessor_signature_kept = refl;
    lessee_signature_kept = refl;
  };
  escrow_kept = λ _. refl;
}

-- An edit of a draft: whatever becomes of its terms, it is still a draft of the same parties.
pub Lawful-edit :
    (d e : Deal)
    → is_status d.status draft ≡ true
    → (e.id ≡ d.id)
      × (e.listing_id ≡ d.listing_id)
      × (e.lessor_id ≡ d.lessor_id)
      × (e.lessee_id ≡ d.lessee_id)
      × (e.channel_id ≡ d.channel_id)
      × (e.status ≡ d.status)
      × (e.escrow_address ≡ d.escrow_address)
    → Lawful d e
Lawful-edit d e h (i, l, a, b, c, s, w) = record {
  same_id = i;
  same_listing = l;
  same_lessor = a;
  same_lessee = b;
  same_channel = c;
  path = rw s here;
  frozen = λ k. cc;
  escrow_kept = λ _. w;
}

-- Every row has a lawful successor in its place; rows may be added behind.
abbrev pub Evolves : List Deal → List Deal → Type 0
Evolves [] ys = Unit
Evolves (x ∷ xs) [] = ⊥
Evolves (x ∷ xs) (y ∷ ys) = Lawful x y × Evolves xs ys

pub Evolves-refl : (xs : List Deal) → Evolves xs xs
Evolves-refl [] = tt
Evolves-refl (x ∷ xs) = (Lawful-refl x, Evolves-refl xs)

pub Evolves-trans : (xs ys zs : List Deal) → Evolves xs ys → Evolves ys zs → Evolves xs zs
Evolves-trans [] ys zs p q = tt
Evolves-trans (x ∷ xs) [] zs p q = absurd p
Evolves-trans (x ∷ xs) (y ∷ ys) [] p q = q
Evolves-trans (x ∷ xs) (y ∷ ys) (z ∷ zs) p q =
    (Lawful-trans p.0 q.0, Evolves-trans xs ys zs p.1 q.1)

pub Evolves-append : (xs ys : List Deal) → Evolves xs (xs ++ ys)
Evolves-append [] ys = tt
Evolves-append (x ∷ xs) ys = (Lawful-refl x, Evolves-append xs ys)

-- An UPDATE of the table whose change is lawful on the rows that it selects.
pub Evolves-update {κ} :
    (P : Deal → Type κ) (test : Deal → Bool) (change : Deal → Deal)
    → ((d : Deal) → P d → test d ≡ true → Lawful d (change d))
    → (xs : List Deal) → All P xs
    → Evolves xs (update test change xs)
Evolves-update P test change law [] h = tt
Evolves-update P test change law (x ∷ xs) h =
    (one (test x) refl, Evolves-update P test change law xs h.1)
  where
    one : (b : Bool) → test x ≡ b → Lawful x (Tests.if◌then◌else◌ b (change x) x)
    one true e = law x h.0 e
    one false e = Lawful-refl x
