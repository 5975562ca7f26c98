-- ===== src/Market/HttpLaws.antt =====
-- How a handler goes on after a lookup, and after a service.
use telegram_ads_market.Common.{◌≡◌, subst, List, [], ◌∷◌}
use telegram_ads_market.Entity.{ErrorCode}
use telegram_ads_market.Effects.{
  World, M, Error, service_error, ok, err, ◌>>=◌, or_raise, arrive, read_one,
}
use telegram_ads_market.Effects.Laws.{Outcomes, then_or_raise}
use telegram_ads_market.Effects.Steps.{then_steps, read_one_cases}
use telegram_ads_market.Market.Http.{
  served, served_or_empty, served_or_not_found, renamed, to_service_error,
}

-- An error is only renamed.
pub served_keeps :
    {A : Type 0} (I : World → Type 0) (m : M A) (w : World) → I (m w).1 → I (served m w).1
unfolding served
served_keeps {A} I m w h = go (m w) h
  where
    go : (o : Outcomes A) → I o.1 → I (renamed o).1
    go (ok a, v) h = h
    go (err e, v) h = h

module _ {A B : Type 0} where
  abbrev bound : (A → M B) → Outcomes A → Outcomes B
  bound k (ok a, v) = k a v
  bound k (err e, v) = (err (to_service_error e), v)

  then_served :
      (P : Outcomes B → Type 0) (m : M A) (k : A → M B) (w : World)
      → P (bound k (m w))
      → P ((served m >>= k) w)
  unfolding ◌>>=◌ served
  then_served P m k w h = go (m w) h
    where
      go :
          (o : Outcomes A)
          → P (bound k o)
          → P (let (r, w') = renamed o in elim r [ ok a ↦ k a w' | err e ↦ (err e, w') ])
      go (ok a, v) h = h
      go (err e, v) h = h

-- A lookup whose missing row is answered with a code.
then_row :
    {A B : Type 0} (P : Outcomes B → Type 0) (f : World → List A) (code : ErrorCode) (k : A → M B)
    (w : World)
    → ((d : A) → f (arrive w) ≡ d ∷ [] → P (k d (arrive w)))
    → ((e : Error) → P (err e, arrive w))
    → P (((served (read_one f) >>= λ found. or_raise found (service_error code)) >>= k) w)
then_row P f code k w a b = then_steps P (served (read_one f)) _ k w (
    then_served P (read_one f) _ w (
      read_one_cases (λ o. P (bound (λ found. or_raise found (service_error code) >>= k) o)) f w
        (λ e. then_or_raise P _ _ _ _ (λ _. b _) (λ x g. absurd (cc)))
        (λ d e.
          then_or_raise P _ _ _ _ (λ g. b _)
            (λ x g. let same : d ≡ x = cc in subst (λ y. P (k y (arrive w))) same (a d e)))
        (λ e. b _)))

pub then_not_found :
    {A B : Type 0} (P : Outcomes B → Type 0) (f : World → List A) (k : A → M B) (w : World)
    → ((d : A) → f (arrive w) ≡ d ∷ [] → P (k d (arrive w)))
    → ((e : Error) → P (err e, arrive w))
    → P ((served_or_not_found (read_one f) >>= k) w)
unfolding served_or_not_found
then_not_found P f k w a b = then_row P f _ k w a b

pub then_empty :
    {A B : Type 0} (P : Outcomes B → Type 0) (f : World → List A) (k : A → M B) (w : World)
    → ((d : A) → f (arrive w) ≡ d ∷ [] → P (k d (arrive w)))
    → ((e : Error) → P (err e, arrive w))
    → P ((served_or_empty (read_one f) >>= k) w)
unfolding served_or_empty
then_empty P f k w a b = then_row P f _ k w a b
