-- ===== src/Lifecycle/Busy.antt =====
-- Posts and the deals that they are for: a pending post keeps its deal in progress, and no deal has
-- two posts. What the updates of either table do to this.
use telegram_ads_market.Common.{
  ℕ, ◌≡◌, ◌≢◌, refl, sym, ◌∙◌, inl, inr, Bool, true, false, List, [], ◌∷◌, ◌++◌, ◌==◌,
  if◌then◌else◌, All, All-update, All-append, All-map, All-zip, update, All-of, All-updated, arith,
  Bool-cases, subst,
}
use telegram_ads_market.Common.Rows
use mathlib.Core.Bool.{false≢true}
use telegram_ads_market.Entity.{
  Deal, DealStatus, in_progress, is_status, DealPostMessage, DealPostMessageStatus, exists,
}
use telegram_ads_market.Repository.Deals.{is_for_deal}
use telegram_ads_market.Repository.Posts.{is_any, is_deal_of, to_post_status}
use telegram_ads_market.Lifecycle.Sound.{Busy, InProgress, OnePerDeal, is_pending}
use telegram_ads_market.Lifecycle.Step.{AllAre}

-- An update that selects no deal in progress leaves the deals in progress alone.
pub InProgress-update :
    (id : ℕ) (test : Deal → Bool) (change : Deal → Deal)
    → ((d : Deal)
        → test d ≡ true
        → (is_status d.status in_progress ≡ false) × ((change d).id ≡ d.id))
    → (xs : List Deal) → InProgress id xs
    → InProgress id (update test change xs)
InProgress-update id test change idle xs h =
    All-update (λ d. d.id ≡ id → is_status d.status in_progress ≡ true) test change
      (λ d t p e. absurd (clash d t (p (sym (idle d t).1 ∙ e)))) xs h
  where
    clash : (d : Deal) → test d ≡ true → is_status d.status in_progress ≡ true → ⊥
    clash d t p = cc (idle d t).0

pub Busy-update :
    (test : Deal → Bool) (change : Deal → Deal)
    → ((d : Deal)
        → test d ≡ true
        → (is_status d.status in_progress ≡ false) × ((change d).id ≡ d.id))
    → (deals : List Deal) (posts : List DealPostMessage) → All (Busy deals) posts
    → All (Busy (update test change deals)) posts
Busy-update test change idle deals =
    All-map (Busy deals) (Busy (update test change deals))
      (λ m b p. InProgress-update m.deal_id test change idle deals (b p))

-- A post that is judged was pending before.
pub Busy-judge :
    (deals : List Deal) (test : DealPostMessage → Bool) (change : DealPostMessage → DealPostMessage)
    → ((m : DealPostMessage) → (change m).deal_id ≡ m.deal_id)
    → (posts : List DealPostMessage) → All (λ m. test m ≡ true → m.status ≡ exists) posts
    → All (Busy deals) posts
    → All (Busy deals) (update test change posts)
Busy-judge deals test change same [] s b = tt
Busy-judge deals test change same (m ∷ ms) s b =
    (one (test m) refl, Busy-judge deals test change same ms s.1 b.1)
  where
    one : (t : Bool) → test m ≡ t → Busy deals (if t then change m else m)
    one true e p = subst (λ i. InProgress i deals) (sym (same m)) (b.0 (rw (s.0 e) refl))
    one false e p = b.0 p

pub OnePerDeal-update :
    (test : DealPostMessage → Bool) (change : DealPostMessage → DealPostMessage)
    → ((m : DealPostMessage) → (change m).deal_id ≡ m.deal_id)
    → (posts : List DealPostMessage) → OnePerDeal posts
    → OnePerDeal (update test change posts)
OnePerDeal-update test change same [] h = tt
OnePerDeal-update test change same (m ∷ ms) h = (
  subst (λ i. All (λ n. n.deal_id ≢ i) (update test change ms)) (sym (kept (test m)))
      (All-update (λ n. n.deal_id ≢ m.deal_id) test change (λ n _ p e. p (sym (same n) ∙ e)) ms
        h.0),
  OnePerDeal-update test change same ms h.1,
)
  where
    kept : (t : Bool) → (if t then change m else m).deal_id ≡ m.deal_id
    kept true = same m
    kept false = refl

pub OnePerDeal-append :
    (posts : List DealPostMessage) (m : DealPostMessage)
    → Rows.exists (is_for_deal m.deal_id) posts ≡ false
    → OnePerDeal posts
    → OnePerDeal (posts ++ m ∷ [])
OnePerDeal-append [] m e h = (tt, tt)
OnePerDeal-append (n ∷ ns) m e h = (
  All-append (λ k. k.deal_id ≢ n.deal_id) ns (m ∷ []) h.0 ((λ same. ground arith), tt),
  OnePerDeal-append ns m (ground arith) h.1,
)

-- The posts outside `ids` are for other deals than those inside.
apart :
    (ids : List ℕ) (posts : List DealPostMessage)
    → OnePerDeal posts
    → All (λ m. is_any ids m.id ≡ false → is_deal_of ids posts m.deal_id ≡ false) posts
apart ids [] h = tt
apart ids (m ∷ ms) h = (
  λ out. rw out (absent ms h.0),
  All-zip (λ n. n.deal_id ≢ m.deal_id)
      (λ n. is_any ids n.id ≡ false → is_deal_of ids ms n.deal_id ≡ false)
      (λ n. is_any ids n.id ≡ false → is_deal_of ids (m ∷ ms) n.deal_id ≡ false)
      (λ n p q out. other n p (q out)) ms h.0 (apart ids ms h.1),
)
  where
    absent :
        (ns : List DealPostMessage)
        → All (λ n. n.deal_id ≢ m.deal_id) ns
        → is_deal_of ids ns m.deal_id ≡ false
    absent [] a = refl
    absent (n ∷ ns) a = ground (arith, absent ns a.1, a.0)

    other :
        (n : DealPostMessage)
        → n.deal_id ≢ m.deal_id
        → is_deal_of ids ms n.deal_id ≡ false
        → is_deal_of ids (m ∷ ms) n.deal_id ≡ false
    other n p q = ground (arith, p)

-- The deals of settled posts are those that the posts kept in progress.
pub settled-in_progress :
    (s : DealPostMessageStatus) (ids : List ℕ) (deals : List Deal) (posts : List DealPostMessage)
    → is_pending s ≡ true
    → AllAre s ids posts
    → All (Busy deals) posts
    → All (λ d. is_deal_of ids posts d.id ≡ true → is_status d.status in_progress ≡ true) deals
settled-in_progress s ids deals [] p a b =
    All-of (λ d. false ≡ true → is_status d.status in_progress ≡ true) (λ d e. cc) deals
settled-in_progress s ids deals (m ∷ ms) p a b = elim (Bool-cases (is_any ids m.id)) [
  | inl inside ↦ rw inside (
      All-zip (λ d. d.id ≡ m.deal_id → is_status d.status in_progress ≡ true)
        (λ d. is_deal_of ids ms d.id ≡ true → is_status d.status in_progress ≡ true)
        (λ d.
          (if m.deal_id == d.id then true else is_deal_of ids ms d.id) ≡ true
          → is_status d.status in_progress ≡ true)
        (λ d q r e. ground arith) deals (b.0 (rw (a.0 inside) p))
        (settled-in_progress s ids deals ms p a.1 b.1))
  | inr outside ↦ rw outside (settled-in_progress s ids deals ms p a.1 b.1)
]

InProgress-other :
    (id : ℕ) (test : Deal → Bool) (change : Deal → Deal)
    → ((d : Deal) → (change d).id ≡ d.id)
    → ((d : Deal) → d.id ≡ id → test d ≡ false)
    → (xs : List Deal) → InProgress id xs
    → InProgress id (update test change xs)
InProgress-other id test change same missed xs h =
    All-update (λ d. d.id ≡ id → is_status d.status in_progress ≡ true) test change
      (λ d t p e. absurd (false≢true (sym (missed d (sym (same d) ∙ e)) ∙ t))) xs h

-- After the settlement the posts that are still pending keep their deals in progress.
pub Busy-settle :
    (ids : List ℕ) (s : DealPostMessageStatus) (t : DealStatus) (now : ℕ) (deals : List Deal)
    (posts : List DealPostMessage)
    → is_pending s ≡ false
    → OnePerDeal posts
    → All (Busy deals) posts
    → All
        (Busy (
          update
            (λ d. is_deal_of ids posts d.id)
            (λ d. record d { status = t; updated_at = now })
            deals))
        (update (λ m. is_any ids m.id) (to_post_status s now) posts)
Busy-settle ids s t now deals posts p one b =
    All-updated (Busy later) (λ m. is_any ids m.id) (to_post_status s now) posts
      (All-zip (λ m. is_any ids m.id ≡ false → is_deal_of ids posts m.deal_id ≡ false) (Busy deals)
        (λ m. Busy later (if is_any ids m.id then to_post_status s now m else m))
        (λ m. each m (is_any ids m.id) refl) posts (apart ids posts one) b)
  where
    later : List Deal
    later =
        update (λ d. is_deal_of ids posts d.id) (λ d. record d { status = t; updated_at = now })
          deals

    each :
        (m : DealPostMessage) (x : Bool)
        → is_any ids m.id ≡ x
        → (is_any ids m.id ≡ false → is_deal_of ids posts m.deal_id ≡ false)
        → Busy deals m
        → Busy later (if x then to_post_status s now m else m)
    each m true e q r = λ pending. absurd (false≢true (sym p ∙ pending))
    each m false e q r = λ pending.
        InProgress-other m.deal_id (λ d. is_deal_of ids posts d.id)
          (λ d. record d { status = t; updated_at = now }) (λ d. refl) (λ d same. rw same (q e))
          deals (r pending)
