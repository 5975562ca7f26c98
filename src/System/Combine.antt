-- ===== src/System/Combine.antt =====
-- An operation that is put together from parts that take lifecycle steps only does so too.
use telegram_ads_market.Common.{
  if◌then◌else◌, ℕ, ◌≡◌, refl, sym, subst, Bool, true, false, Option, none, some, List,
}
use telegram_ads_market.External.{External}
use telegram_ads_market.Repository.{OneRow, one, no_rows, too_many_rows, exactly_one}
use telegram_ads_market.Lifecycle.Step.{Reach, stays, Reach-trans}
use telegram_ads_market.Effects.{
  World, M, Error, Result, not_found, ignore, ◌>>=◌, call, query, collect, read_one, or_raise,
  fail_if, found, require, ok, err, arrive,
}
use telegram_ads_market.DealService.Refines.{Refines}
use telegram_ads_market.Escrow.Laws.{then_from, call_keeps}
use telegram_ads_market.Market.Http.{
  served, served_or_empty, served_or_not_found, require_user_id, PathId, parse_path_id, decode_body,
}
use telegram_ads_market.Market.HttpLaws.{served_keeps}

-- How `found` and `require` end, once the look-up has answered.
abbrev present :
    {A : Type 0} → (Error → Error) → Error → Result (Option A) × World → Result A × World
present renamed missing (r, w) = elim r [
  | ok a ↦ elim a [ none ↦ (err missing, w) | some x ↦ (ok x, w) ]
  | err e ↦ (err (renamed e), w)
]

module _ (ext : External) where
  pub then-Refines :
      {A B : Type 0} (m : M A) (k : A → M B)
      → Refines ext m
      → ((a : A) → Refines ext (k a))
      → Refines ext (m >>= k)
  then-Refines m k h go w =
      then_from (λ v. Reach ext w.db v.db) (λ v. Reach ext w.db v.db) m k w (h w)
        (λ a v r. Reach-trans ext r (go a v)) (λ v r. r)

  -- A call that leaves the database alone.
  pub call-Refines :
      {A : Type 0} (value : World → A) (effect : World → World)
      → ((v : World) → (effect v).db ≡ v.db)
      → Refines ext (call value effect)
  call-Refines value effect same w =
      call_keeps (λ v. Reach ext w.db v.db) value effect w
        (subst (Reach ext w.db) (sym (same (arrive w))) stays) stays

  pub query-Refines : {A : Type 0} (value : World → A) → Refines ext (query value)
  query-Refines value = call-Refines value (λ v. v) (λ v. refl)

  pub or_raise-Refines : {A : Type 0} (a : Option A) (e : Error) → Refines ext (or_raise a e)
  unfolding or_raise
  or_raise-Refines none e w = stays
  or_raise-Refines (some a) e w = stays

  pub fail_if-Refines : (test : Bool) (e : Error) → Refines ext (fail_if test e)
  unfolding fail_if
  fail_if-Refines test e w = stays

  collect-Refines : {A : Type 0} (rows : OneRow A) → Refines ext (collect rows)
  unfolding collect
  collect-Refines (one a) w = stays
  collect-Refines no_rows w = stays
  collect-Refines too_many_rows w = stays

  pub read_one-Refines : {A : Type 0} (f : World → List A) → Refines ext (read_one f)
  unfolding read_one
  read_one-Refines f =
      then-Refines _ _ (query-Refines f) (λ rows. collect-Refines (exactly_one rows))

  pub found-Refines : {A : Type 0} (m : M (Option A)) → Refines ext m → Refines ext (found m)
  unfolding found
  found-Refines {A} m h w = go (m w) (h w)
    where
      go :
          (o : Result (Option A) × World)
          → Reach ext w.db o.1.db
          → Reach ext w.db (present (λ e. not_found) not_found o).1.db
      go (ok none, v) r = r
      go (ok (some a), v) r = r
      go (err e, v) r = r

  pub require-Refines :
      {A : Type 0} (m : M (Option A)) (f : Error) → Refines ext m → Refines ext (require m f)
  unfolding require
  require-Refines {A} m f h w = go (m w) (h w)
    where
      go :
          (o : Result (Option A) × World)
          → Reach ext w.db o.1.db
          → Reach ext w.db (present (λ e. e) f o).1.db
      go (ok none, v) r = r
      go (ok (some a), v) r = r
      go (err e, v) r = r

  pub served-Refines : {A : Type 0} (m : M A) → Refines ext m → Refines ext (served m)
  served-Refines m h w = served_keeps (λ v. Reach ext w.db v.db) m w (h w)

  pub served_or_empty-Refines :
      {A : Type 0} (m : M (Option A)) → Refines ext m → Refines ext (served_or_empty m)
  unfolding served_or_empty
  served_or_empty-Refines m h = then-Refines _ _ (served-Refines m h) (λ a. or_raise-Refines a _)

  pub served_or_not_found-Refines :
      {A : Type 0} (m : M (Option A)) → Refines ext m → Refines ext (served_or_not_found m)
  unfolding served_or_not_found
  served_or_not_found-Refines m h =
      then-Refines _ _ (served-Refines m h) (λ a. or_raise-Refines a _)

  pub require_user_id-Refines : (user : Option ℕ) → Refines ext (require_user_id user)
  unfolding require_user_id
  require_user_id-Refines user = or_raise-Refines user _

  pub parse_path_id-Refines : (path : PathId) → Refines ext (parse_path_id path)
  unfolding parse_path_id
  parse_path_id-Refines path = or_raise-Refines _ _

  pub decode_body-Refines : {A : Type 0} (body : Option A) → Refines ext (decode_body body)
  unfolding decode_body
  decode_body-Refines body = or_raise-Refines body _

  pub if-Refines :
      {A : Type 0} (b : Bool) (m n : M A)
      → Refines ext m
      → Refines ext n
      → Refines ext (if b then m else n)
  if-Refines true m n h k = h
  if-Refines false m n h k = k

  pub ignore-Refines : {A : Type 0} (m : M A) → Refines ext m → Refines ext (ignore m)
  unfolding ignore
  ignore-Refines m h w = h w
