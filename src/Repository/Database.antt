-- ===== src/Repository/Database.antt =====
-- The three tables of a deal's life, with the sequences of their keys. Lock ids are random UUIDs;
-- here they are drawn from a counter, so that no two are the same.
use telegram_ads_market.Common.{ℕ, List, [], ◌∷◌, Option, none, some}
use telegram_ads_market.Entity.{Deal, DealPostMessage, DealActionLock}

pub record Db : Type 0 where
  pub deals : List Deal
  pub posts : List DealPostMessage
  pub locks : List DealActionLock
  pub next_deal : ℕ
  pub next_post : ℕ
  pub next_lock : ℕ

-- `pgx.CollectExactlyOneRow`: the row, no row, or an error where there are more.
pub data OneRow {ℓ} (A : Type ℓ) : Type ℓ where
  one : A → OneRow A
  no_rows : OneRow A
  too_many_rows : OneRow A

abbrev pub exactly_one {ℓ} : {A : Type ℓ} → List A → OneRow A
exactly_one [] = no_rows
exactly_one (x ∷ []) = one x
exactly_one (x ∷ y ∷ xs) = too_many_rows

-- LIMIT 1
abbrev pub first {ℓ} : {A : Type ℓ} → List A → Option A
first [] = none
first (x ∷ xs) = some x
