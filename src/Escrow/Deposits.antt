-- ===== src/Escrow/Deposits.antt =====
-- What a deposit event may confirm, and what the creation of an escrow wallet leaves behind.
use telegram_ads_market.Common.{
  Bool, true, ◌⊎◌, inl, inr, ℕ, ◌≡◌, refl, String, false, some, List, [], ◌∷◌, arith, is_unset,
  ==_refl,
}
use telegram_ads_market.Common.Int.{ltb_ℤ}
use telegram_ads_market.Common.Text.{str_eq}
use telegram_ads_market.Entity.{Deal}
use telegram_ads_market.External.{External}
use telegram_ads_market.Repository.{Db}
use telegram_ads_market.Repository.Deals
use telegram_ads_market.Effects.{
  ok, err, call_failed, M, Done, statement, World, Result, arrive, read_one,
}
use telegram_ads_market.Effects.Laws.{
  then_require, then_fail_if, then_or_raise, then_call, last_ignore, if_cases, call_cases,
  then_ignore,
}
use telegram_ads_market.Effects.Steps.{then_attempts, read_one_cases, then_does}
use telegram_ads_market.Escrow.Operations.{create_escrow, put_escrow_seed, seed_of}
use telegram_ads_market.Escrow.DepositEvents.{
  DepositEvent, process_deposit_event, judge_deposit, confirm_deposit, after_confirming,
}

-- What a deposit event may do to the database: nothing, or confirm one deal, the only one that
-- waits for a deposit at the event's address, whose escrow amount the deposit reaches.
pub data Deposit (ev : DepositEvent) (db : Db) : Db → Type 0 where
  no_change : Deposit ev db db
  confirms :
      (d : Deal) (now : ℕ)
      → Deals.get_deal_by_escrow_address ev.address db ≡ d ∷ []
      → ltb_ℤ ev.amount d.escrow_amount ≡ false
      → Deposit ev db (Deals.set_deal_status_escrow_deposit_confirmed d.id now db)

-- Whatever fails, a deposit event changes the database only by confirming the one deal that waits
-- for a deposit at its address, and only if its amount is no less than the deal's escrow amount.
pub deposit_confirms_only_if_paid :
    (ev : DepositEvent) (w : World) → Deposit ev w.db (process_deposit_event ev w).1.db
unfolding process_deposit_event judge_deposit confirm_deposit after_confirming
deposit_confirms_only_if_paid ev w = then_attempts Made (read_one deals) (judge_deposit ev) w (
    read_one_cases (λ o. Made (judge_deposit ev o.0 o.1)) deals w (λ e. no_change)
      (λ d e.
        if_cases Made (ltb_ℤ ev.amount d.escrow_amount) _ _ (arrive w) (λ _. no_change)
          (λ enough. confirmed d e enough))
      (λ e. no_change))
  where
    deals : World → List Deal
    deals v = Deals.get_deal_by_escrow_address ev.address v.db

    Made : {A : Type 0} → Result A × World → Type 0
    Made o = Deposit ev w.db o.1.db

    confirmed :
        (d : Deal)
        → deals w ≡ d ∷ []
        → ltb_ℤ ev.amount d.escrow_amount ≡ false
        → Made (confirm_deposit d (arrive w))
    confirmed d e enough = then_attempts Made _ _ (arrive w) (
        call_cases (λ o. Made (after_confirming d o.0 o.1)) _ _ (arrive w)
          (if_cases Made (is_unset d.escrow_address) _ _ _ (λ _. written _)
            (λ _. then_ignore Made _ _ _ _ (written _) (written _)))
          no_change (written _))
      where
        written :
            (now : ℕ)
            → Deposit ev w.db (Deals.set_deal_status_escrow_deposit_confirmed d.id now w.db)
        written now = confirms d now e enough

-- The write of a deal's status for a deposit.
abbrev pub deposit_write : Deal → M Done
deposit_write d = statement (Deals.set_deal_status_escrow_deposit_confirmed d.id)

-- A confirmation is acknowledged exactly if its status write reports no error.
confirmation_is_acknowledged :
    (d : Deal) (v : World)
    → ((confirm_deposit d v).0 ≡ ok true)
      ⊎ (((confirm_deposit d v).0 ≡ ok false) × ((deposit_write d v).0 ≡ err call_failed))
unfolding confirm_deposit after_confirming
confirmation_is_acknowledged d v = then_attempts Judged (deposit_write d) (after_confirming d) v (
    call_cases (λ o. Written o (after_confirming d o.0 o.1)) _ _ v
      (if_cases (λ o. Written (ok tt, v) o) (is_unset d.escrow_address) _ _ _ (λ _. inl refl)
        (λ _. then_ignore (λ o. Written (ok tt, v) o) _ _ _ _ (inl refl) (inl refl)))
      (inr (refl, refl)) (inr (refl, refl)))
  where
    Written : Result Done × World → Result Bool × World → Type 0
    Written o r = (r.0 ≡ ok true) ⊎ ((r.0 ≡ ok false) × (o.0 ≡ err call_failed))

    Judged : Result Bool × World → Type 0
    Judged r = Written (deposit_write d v) r

-- Whatever fails, a deposit event is acknowledged, except when it pays enough for the one deal that
-- waits at its address and the write of that deal's status reports an error.
pub deposit_event_is_acknowledged :
    (ev : DepositEvent) (w : World)
    → ((process_deposit_event ev w).0 ≡ ok true)
      ⊎ (((process_deposit_event ev w).0 ≡ ok false)
          × ((d : Deal) × (Deals.get_deal_by_escrow_address ev.address w.db ≡ d ∷ [])
              × (ltb_ℤ ev.amount d.escrow_amount ≡ false)
              × ((deposit_write d (arrive w)).0 ≡ err call_failed)))
unfolding process_deposit_event judge_deposit
deposit_event_is_acknowledged ev w = then_attempts Judged (read_one deals) (judge_deposit ev) w (
    read_one_cases (λ o. Judged (judge_deposit ev o.0 o.1)) deals w (λ e. inl refl)
      (λ d e.
        if_cases Judged (ltb_ℤ ev.amount d.escrow_amount) _ _ (arrive w) (λ _. inl refl)
          (λ enough. elim (confirmation_is_acknowledged d (arrive w)) [
            | inl acked ↦ inl acked
            | inr (kept, failed) ↦ inr (kept, (d, e, enough, failed))
          ]))
      (λ e. inl refl))
  where
    deals : World → List Deal
    deals v = Deals.get_deal_by_escrow_address ev.address v.db

    Judged : Result Bool × World → Type 0
    Judged o =
        (o.0 ≡ ok true)
        ⊎ ((o.0 ≡ ok false)
            × ((d : Deal) × (deals w ≡ d ∷ [])
                × (ltb_ℤ ev.amount d.escrow_amount ≡ false)
                × ((deposit_write d (arrive w)).0 ≡ err call_failed)))

stored :
    (deal_id : ℕ) (seed : String) (rest : List (ℕ × String)) (v : World)
    → str_eq seed "" ≡ false
    → v.seeds ≡ (deal_id, seed) ∷ rest
    → seed_of deal_id v ≡ some seed
stored deal_id seed rest v set e = ground (arith, ==_refl deal_id)

module _ (ext : External) where
  -- What the creation of an escrow may do to the deals.
  pub data EscrowOpened (deal_id : ℕ) (db : Db) (w : World) : Type 0 where
    unopened : w.db ≡ db → EscrowOpened deal_id db w
    opened :
        (seed address : String) (now : ℕ)
        → w.db ≡ Deals.set_deal_escrow_address deal_id address now db
        → seed_of deal_id w ≡ some seed
        → ext.wallet_of_seed seed ≡ some address
        → EscrowOpened deal_id db w

  -- Whatever fails, the creation of an escrow either leaves the database as it was, or publishes
  -- the address of a wallet whose seed phrase the Vault then holds for the deal. The only condition
  -- is that the wallet library draws no empty seed phrase.
  pub escrow_key_is_stored_first :
      ((n : ℕ) → str_eq (ext.new_seed n) "" ≡ false)
      → (deal_id : ℕ) (w : World) → EscrowOpened deal_id w.db (create_escrow ext deal_id w).1
  unfolding create_escrow put_escrow_seed
  escrow_key_is_stored_first seeds deal_id w =
      then_require Opened _ _ _ w
        (λ d e.
          then_fail_if Opened _ _ _ _ (λ _. unopened refl)
            (λ _. then_does Opened _ _ _ _ (
              then_or_raise Opened _ _ _ _ (λ _. unopened refl)
                (λ address keyed.
                  then_call Opened _ _ _ _
                    (then_call Opened _ _ _ _
                      (last_ignore Opened _ _ _ (put address keyed _ _ refl refl)
                        (put address keyed _ _ refl refl))
                      (unopened refl) (put address keyed _ _ refl refl))
                    (unopened refl) (unopened refl)))))
        (λ e. unopened refl)
    where
      Opened : {A : Type 0} → Result A × World → Type 0
      Opened o = EscrowOpened deal_id w.db o.1

      put :
          (address : String)
          → ext.wallet_of_seed (ext.new_seed w.seeds_drawn) ≡ some address
          → (now : ℕ) (v : World) → v.db ≡ Deals.set_deal_escrow_address deal_id address now w.db
          → v.seeds ≡ (deal_id, ext.new_seed w.seeds_drawn) ∷ w.seeds
          → EscrowOpened deal_id w.db v
      put address keyed now v db seed =
          opened (ext.new_seed w.seeds_drawn) address now db
            (stored deal_id _ w.seeds v (seeds w.seeds_drawn) seed) keyed
