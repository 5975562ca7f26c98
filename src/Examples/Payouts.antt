-- ===== src/Examples/Payouts.antt =====
-- Short runs of the escrow service.
use telegram_ads_market.Common.{
  ℕ, ◌≢◌, ◌⊎◌, ◌+◌, ◌*◌, ◌/◌, ◌^◌, ◌≡◌, refl, true, false, none, some, [], ◌∷◌, ◌==◌, arith, ap,
  select,
}
use telegram_ads_market.Common.Int.{ltb_ℤ, ℤ, pos}
use telegram_ads_market.Entity.{
  Deal, DealActionLock, DealActionLockStatus, approved, waiting_escrow_deposit,
  waiting_escrow_release, escrow_release_confirmed, escrow_release,
}
use telegram_ads_market.Repository.Deals
use telegram_ads_market.Repository.Locks.{has_active_lock, get_last_deal_action_lock, is_expired}
use telegram_ads_market.Effects.{
  World, arrive, Done, fine, lost, ChainTx, Result, ok, err, call_failed,
}
use telegram_ads_market.DealService.{deal_with_id}
use telegram_ads_market.Escrow.{
  DepositEvent, process_deposit_event, create_escrow, release_or_refund_escrow,
  take_deal_action_lock, seed_of,
}
use telegram_ads_market.Escrow.Amounts.{
  compute_escrow_amount, get_amount_without_gas_and_commission, Accurate, payout_is_the_price,
}
use telegram_ads_market.Escrow.Payout.{Payment, run_pays_once_and_right}
use telegram_ads_market.Escrow.Locking.{
  taken_lock_excludes, two_takers_both_lock, Race, Moves, BothHold, starts,
}
use telegram_ads_market.Escrow.Runs.{
  Payable, payout_completes, recovered_payout_is_not_repeated, failed_status_write_sends_twice,
}
use telegram_ads_market.Escrow.Deposits.{
  deposit_write, Deposit, deposit_confirms_only_if_paid, deposit_event_is_acknowledged,
  EscrowOpened, escrow_key_is_stored_first,
}
use telegram_ads_market.Examples.Setup.{ext, hundredths, signed_by, holding_only, around}

-- A deal that waits for its release, and the world around it.
abbrev waiting : Deal
waiting = signed_by waiting_escrow_release (some "escrow")

abbrev at_release : World
at_release = around (holding_only waiting)

abbrev same_amount : ℤ → ℤ
same_amount a = a

waiting-Payable :
    (w : World)
    → w.db.deals ≡ waiting ∷ []
    → w.seeds ≡ (1, "seed phrase") ∷ []
    → Payable ext same_amount 1 true waiting "seed phrase" "0:escrow" "0:lessor" "0:escrow" w
unfolding Deals.get_deal_by_id
waiting-Payable w deals seeds = record {
  deal_found = ap (select (λ d. d.id == 1)) deals;
  waits = refl;
  payee_set = refl;
  escrow_set = refl;
  payee_valid = refl;
  escrow_valid = refl;
  seed_stored = ap (λ s. seed_of 1 (record w { seeds = s })) seeds;
  seed_valid = refl;
}

run_pays_once_and_right_example :
    Payment ext same_amount 1 true at_release
      (release_or_refund_escrow ext same_amount 1 true at_release).1.chain
run_pays_once_and_right_example = run_pays_once_and_right ext same_amount 1 true at_release

abbrev paid : ChainTx
paid = record { account = "0:escrow"; outs = ("0:lessor", 1100) ∷ [] }

payout_completes_example :
    ((release_or_refund_escrow ext same_amount 1 true at_release).0 ≡ ok tt)
    × ((release_or_refund_escrow ext same_amount 1 true at_release).1.chain ≡ paid ∷ [])
    × (deal_with_id 1 (release_or_refund_escrow ext same_amount 1 true at_release).1
        ≡ record waiting { status = escrow_release_confirmed; updated_at = 100 } ∷ [])
unfolding has_active_lock get_last_deal_action_lock
payout_completes_example =
    payout_completes ext same_amount 1 true waiting "seed phrase" "0:escrow" "0:lessor" "0:escrow"
      at_release refl refl refl (waiting-Payable at_release refl refl)

abbrev expired_lock : DealActionLock
expired_lock = record {
  id = 1;
  deal_id = 1;
  action_type = escrow_release;
  status = DealActionLockStatus.locked;
  expire_at = 90;
  created_at = 10;
  updated_at = 10;
}

abbrev at_recovery : World
at_recovery = record (around (record (holding_only waiting) { locks = expired_lock ∷ [] })) {
  chain = paid ∷ [];
}

recovered_payout_is_not_repeated_example :
    ((release_or_refund_escrow ext same_amount 1 true at_recovery).0 ≡ ok tt)
    × ((release_or_refund_escrow ext same_amount 1 true at_recovery).1.chain ≡ paid ∷ [])
    × (deal_with_id 1 (release_or_refund_escrow ext same_amount 1 true at_recovery).1
        ≡ record waiting { status = escrow_release_confirmed; updated_at = 100 } ∷ [])
unfolding get_last_deal_action_lock is_expired
recovered_payout_is_not_repeated_example =
    recovered_payout_is_not_repeated ext same_amount 1 true waiting expired_lock "seed phrase"
      "0:escrow" "0:lessor" "0:escrow" at_recovery refl refl (waiting-Payable at_recovery refl refl)
      refl refl refl

abbrev at_refused_write : World
at_refused_write = record at_release {
  schedule = fine ∷ fine ∷ fine ∷ fine ∷ fine ∷ fine ∷ fine ∷ fine ∷ lost ∷ [];
}

abbrev first_run : Result Done × World
first_run = release_or_refund_escrow ext same_amount 1 true at_refused_write

failed_status_write_sends_twice_example :
    (first_run.0 ≡ err call_failed)
    × (first_run.1.chain ≡ paid ∷ [])
    × ((release_or_refund_escrow ext same_amount 1 true first_run.1).0 ≡ ok tt)
    × ((release_or_refund_escrow ext same_amount 1 true first_run.1).1.chain ≡ paid ∷ paid ∷ [])
failed_status_write_sends_twice_example =
    failed_status_write_sends_twice ext same_amount 1 true waiting "seed phrase" "0:escrow"
      "0:lessor" "0:escrow" at_refused_write refl refl (waiting-Payable at_refused_write refl refl)

abbrev taken : World
taken = (take_deal_action_lock 1 escrow_release at_release).1

taken_lock_excludes_example :
    ((take_deal_action_lock 1 escrow_release at_release).0 ≡ ok at_release.db.next_lock)
    × ((lock_id : ℕ)
        → (take_deal_action_lock 1 escrow_release (record at_release { db = taken.db })).0
          ≢ ok lock_id)
unfolding has_active_lock
taken_lock_excludes_example =
    taken_lock_excludes 1 escrow_release at_release (record at_release { db = taken.db }) refl refl
      refl (omega arith)

two_takers_both_lock_example :
    (r : Race) × Moves 1 100 escrow_release
      (record { db = holding_only waiting; one = starts; other = starts })
      r
    × BothHold 1 100 escrow_release (holding_only waiting) r
unfolding has_active_lock
two_takers_both_lock_example = two_takers_both_lock 1 100 escrow_release (holding_only waiting) refl

-- Deposits and new escrows.
abbrev awaited : Deal
awaited = signed_by waiting_escrow_deposit (some "escrow")

abbrev deposit : DepositEvent
deposit = record { id = "1-0"; address = "escrow"; amount = pos 1100 }

deposit_confirms_only_if_paid_example :
    Deposit deposit
      (holding_only awaited)
      (process_deposit_event deposit (around (holding_only awaited))).1.db
deposit_confirms_only_if_paid_example =
    deposit_confirms_only_if_paid deposit (around (holding_only awaited))

abbrev at_refused_confirmation : World
at_refused_confirmation = record (around (holding_only awaited)) { schedule = fine ∷ lost ∷ [] }

deposit_event_is_acknowledged_example :
    ((process_deposit_event deposit at_refused_confirmation).0 ≡ ok true)
    ⊎ (((process_deposit_event deposit at_refused_confirmation).0 ≡ ok false)
        × ((d : Deal) × (Deals.get_deal_by_escrow_address "escrow" (holding_only awaited) ≡ d ∷ [])
            × (ltb_ℤ (pos 1100) d.escrow_amount ≡ false)
            × ((deposit_write d (arrive at_refused_confirmation)).0 ≡ err call_failed)))
deposit_event_is_acknowledged_example =
    deposit_event_is_acknowledged deposit at_refused_confirmation

abbrev at_approval : World
at_approval = around (holding_only (signed_by approved none))

escrow_key_is_stored_first_example :
    EscrowOpened ext 1 at_approval.db (create_escrow ext 1 at_approval).1
escrow_key_is_stored_first_example = escrow_key_is_stored_first ext (λ n. refl) 1 at_approval

-- A commission of two hundredths.
abbrev two_percent : Accurate hundredths 102 102 100 (2 ^ 53)
two_percent = record {
  product = λ p. (102 * p + 50) / 100;
  quotient = λ a. (100 * a + 51) / 102;
  product_value = λ p h. refl;
  product_below = λ p h. omega arith;
  product_above = λ p h. omega arith;
  quotient_value = λ a h. refl;
  quotient_below = λ a h. omega arith;
  quotient_above = λ a h. omega arith;
}

payout_is_the_price_example :
    get_amount_without_gas_and_commission hundredths
      (pos 100)
      102
      (compute_escrow_amount hundredths (pos 100) 102 (pos 1234))
    ≡ pos 1234
payout_is_the_price_example =
    payout_is_the_price hundredths 102 102 100 (2 ^ 53) two_percent 100 1234 (omega arith)
      (omega arith) (omega arith) (omega arith)
