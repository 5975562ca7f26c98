-- ===== src/Escrow/DepositEvents.antt =====
-- internal/market/service/escrow/deposit_worker.go.
use telegram_ads_market.Common.{
  String, Bool, true, false, not, Option, none, some, List, [], ◌∷◌, ◌++◌, if◌then◌else◌, is_unset,
  text_or_empty, select,
}
use telegram_ads_market.Common.Int.{ℤ, ltb_ℤ}
use telegram_ads_market.Common.Text.{str_eq}
use telegram_ads_market.Entity.{Deal}
use telegram_ads_market.Repository.Deals
use telegram_ads_market.Effects.{
  M, Done, Result, ok, err, pure, ◌>>=◌, ◌>>◌, ignore, attempt, exec, statement, read_one,
}

-- EventEscrowDeposit
pub record DepositEvent : Type 0 where
  pub id : String
  pub address : String
  pub amount : ℤ

-- Without the write the event is not acknowledged; with it the observer forgets the address.
unfoldable pub after_confirming : Deal → Result Done → M Bool
after_confirming deal (err e) = pure false
after_confirming deal (ok u) =
    if is_unset deal.escrow_address
    then pure true
    else ignore (
        exec λ w. record w {
          watched = select (λ a. not (str_eq a (text_or_empty deal.escrow_address))) w.watched;
        })
      >> pure true

-- The status write for a deposit, and what follows it.
unfoldable pub confirm_deposit : Deal → M Bool
confirm_deposit deal = do
  written ← attempt (statement (Deals.set_deal_status_escrow_deposit_confirmed deal.id))
  after_confirming deal written

-- One deposit event of the stream, once its deal is looked up: whether it is acknowledged.
unfoldable pub judge_deposit : DepositEvent → Result (Option Deal) → M Bool
judge_deposit ev (err e) = pure true
judge_deposit ev (ok none) = pure true
judge_deposit ev (ok (some deal)) =
    if ltb_ℤ ev.amount deal.escrow_amount then pure true else confirm_deposit deal

unfoldable pub process_deposit_event : DepositEvent → M Bool
process_deposit_event ev = do
  found ← attempt (read_one (λ w. Deals.get_deal_by_escrow_address ev.address w.db))
  judge_deposit ev found

unfoldable pub acknowledgements : List DepositEvent → M (List String)
acknowledgements [] = pure []
acknowledgements (ev ∷ evs) = do
  acked ← process_deposit_event ev
  ids ← acknowledgements evs
  pure (if acked then ev.id ∷ ids else ids)

unfoldable pub acknowledge : List String → M Done
acknowledge [] = pure tt
acknowledge (i ∷ is) = ignore (exec λ w. record w { acknowledged = (i ∷ is) ++ w.acknowledged })

-- processDepositEvents, for the events that the stream has returned.
unfoldable pub process_deposit_events : List DepositEvent → M Done
process_deposit_events events = do ids ← acknowledgements events; acknowledge ids
