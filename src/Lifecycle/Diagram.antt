-- ===== src/Lifecycle/Diagram.antt =====
-- The statuses of internal/market/domain/entity/deal.go, and which may follow which.
use telegram_ads_market.Common.{◌≡◌, refl, Bool, true, false, ◌||◌, arith}
use telegram_ads_market.Entity.{
  DealStatus, draft, approved, waiting_escrow_deposit, escrow_deposit_confirmed, in_progress,
  waiting_escrow_release, escrow_release_confirmed, waiting_escrow_refund, escrow_refund_confirmed,
  expired, rejected, is_status,
}

infix 40 ◌⟶◌ ◌⟶*◌
pub data ◌⟶◌ : DealStatus → DealStatus → Type 0 where
  approve : draft ⟶ approved
  reject : draft ⟶ rejected
  open_escrow : approved ⟶ waiting_escrow_deposit
  expire : waiting_escrow_deposit ⟶ expired
  deposit : waiting_escrow_deposit ⟶ escrow_deposit_confirmed
  publish : escrow_deposit_confirmed ⟶ in_progress
  pass : in_progress ⟶ waiting_escrow_release
  break : in_progress ⟶ waiting_escrow_refund
  release : waiting_escrow_release ⟶ escrow_release_confirmed
  refund : waiting_escrow_refund ⟶ escrow_refund_confirmed
  complete_release : escrow_release_confirmed ⟶ DealStatus.completed
  complete_refund : escrow_refund_confirmed ⟶ DealStatus.completed

pub data ◌⟶*◌ : DealStatus → DealStatus → Type 0 where
  here : {s : DealStatus} → s ⟶* s
  then : {s t u : DealStatus} → s ⟶ t → t ⟶* u → s ⟶* u

pub ⟶*-trans : {s t u : DealStatus} → s ⟶* t → t ⟶* u → s ⟶* u
⟶*-trans here q = q
⟶*-trans (then e p) q = then e (⟶*-trans p q)

pub is_status-eq : (s t : DealStatus) → is_status s t ≡ true → s ≡ t
is_status-eq draft draft h = refl
is_status-eq s t h = ground arith

abbrev pub is_terminal : DealStatus → Bool
is_terminal DealStatus.completed = true
is_terminal expired = true
is_terminal rejected = true
is_terminal _ = false

-- The escrow goes to the lessor, or has gone.
abbrev pub pays_lessor : DealStatus → Bool
pays_lessor waiting_escrow_release = true
pays_lessor escrow_release_confirmed = true
pays_lessor _ = false

-- The escrow goes back to the lessee, or has gone.
abbrev pub pays_lessee : DealStatus → Bool
pays_lessee waiting_escrow_refund = true
pays_lessee escrow_refund_confirmed = true
pays_lessee _ = false

edge-live : {s t : DealStatus} → s ⟶ t → is_terminal s ≡ false
edge-live approve = refl
edge-live _ = refl

edge-ne-draft : {s t : DealStatus} → s ⟶ t → is_status t draft ≡ false
edge-ne-draft approve = refl
edge-ne-draft _ = refl

-- Nothing follows completed, expired and rejected.
pub ⟶*-terminal : {s t : DealStatus} → s ⟶* t → is_terminal s ≡ true → t ≡ s
⟶*-terminal here h = refl
⟶*-terminal (then e p) h = cc (edge-live e)

-- A deal that has left draft never comes back to it.
pub ⟶*-ne-draft :
    {s t : DealStatus} → s ⟶* t → is_status s draft ≡ false → is_status t draft ≡ false
⟶*-ne-draft here h = h
⟶*-ne-draft (then e p) h = ⟶*-ne-draft p (edge-ne-draft e)

abbrev for_lessor : DealStatus → Bool
for_lessor s = pays_lessor s || is_status s DealStatus.completed

abbrev for_lessee : DealStatus → Bool
for_lessee s = pays_lessee s || is_status s DealStatus.completed

edge-for_lessor : {s t : DealStatus} → s ⟶ t → for_lessor s ≡ true → for_lessor t ≡ true
edge-for_lessor approve h = cc
edge-for_lessor release h = refl
edge-for_lessor complete_release h = refl
edge-for_lessor complete_refund h = refl
edge-for_lessor _ h = cc

edge-for_lessee : {s t : DealStatus} → s ⟶ t → for_lessee s ≡ true → for_lessee t ≡ true
edge-for_lessee approve h = cc
edge-for_lessee refund h = refl
edge-for_lessee complete_release h = refl
edge-for_lessee complete_refund h = refl
edge-for_lessee _ h = cc

⟶*-for_lessor : {s t : DealStatus} → s ⟶* t → for_lessor s ≡ true → for_lessor t ≡ true
⟶*-for_lessor here h = h
⟶*-for_lessor (then e p) h = ⟶*-for_lessor p (edge-for_lessor e h)

⟶*-for_lessee : {s t : DealStatus} → s ⟶* t → for_lessee s ≡ true → for_lessee t ≡ true
⟶*-for_lessee here h = h
⟶*-for_lessee (then e p) h = ⟶*-for_lessee p (edge-for_lessee e h)

for_lessor-excludes : (t : DealStatus) → for_lessor t ≡ true → pays_lessee t ≡ false
for_lessor-excludes draft h = refl
for_lessor-excludes t h = ground arith

for_lessee-excludes : (t : DealStatus) → for_lessee t ≡ true → pays_lessor t ≡ false
for_lessee-excludes draft h = refl
for_lessee-excludes t h = ground arith

-- The two ways of an escrow exclude one another.
pub ⟶*-one_way :
    {s t : DealStatus}
    → s ⟶* t
    → (pays_lessor s ≡ true → pays_lessee t ≡ false)
      × (pays_lessee s ≡ true → pays_lessor t ≡ false)
⟶*-one_way {s} {t} p = (
  λ h. for_lessor-excludes t (⟶*-for_lessor p (rw h refl)),
  λ h. for_lessee-excludes t (⟶*-for_lessee p (rw h refl)),
)
