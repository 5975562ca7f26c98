-- ===== src/Escrow/Payout.antt =====
-- What a run of ReleaseOrRefundEscrow may send out of the escrow wallet.
use telegram_ads_market.Common.{
  ℕ, ◌≡◌, refl, sym, ◌∙◌, subst, String, Bool, true, false, Option, none, some, List, [], ◌∷◌,
  is_unset, text_or_empty,
}
use telegram_ads_market.Common.Int.{ℤ}
use telegram_ads_market.Entity.{Deal, DealActionType, DealActionLock, is_status}
use telegram_ads_market.External.{External}
use telegram_ads_market.Effects.{ignore, World, ChainTx, Result, arrive, read, time_now}
use telegram_ads_market.Effects.Laws.{then_require, then_fail_if, then_or_raise, if_cases}
use telegram_ads_market.DealService.{deal_with_id}
use telegram_ads_market.Escrow.Laws.{
  then_from, then_attempt, then_ignored, call_keeps, looks_up_keeps, holding_keeps, then_prepares,
  then_seed, take_lock_keeps,
}
use telegram_ads_market.Market.Chat.{delete_deal_forum_topic}
use telegram_ads_market.Market.ChatLaws.{delete_topic_keeps}
use telegram_ads_market.Escrow.Operations.{
  action_of, awaited_status, payee_of, prepare_action, take_deal_action_lock, get_escrow_seed,
  seed_of, to_uint64, recover, settle_paid, give_up, pay, release_or_refund_escrow,
  pay_unless_recovered, recover_left, transfer, confirm_payout, left_behind, holds_true,
  has_outgoing_tx_to,
}

take_lock_chain :
    (deal_id : ℕ) (action : DealActionType) (w : World)
    → (take_deal_action_lock deal_id action w).1.chain ≡ w.chain
take_lock_chain deal_id action w =
    take_lock_keeps (λ v. v.chain ≡ w.chain)
      (record { later = λ v i. i; opens = λ t v i. i; with_db = λ db v i. i }) deal_id action w refl

-- One transfer, or none.
data Sent (before : List ChainTx) (wallet to : String) (amount : ℕ) : List ChainTx → Type 0 where
  none_sent : Sent before wallet to amount before
  one_sent :
      Sent before wallet to amount (record { account = wallet; outs = (to, amount) ∷ [] } ∷ before)

pay_chain :
    (deal_id : ℕ) (release : Bool) (wallet to : String) (amount : ℕ) (w : World)
    → Sent w.chain wallet to amount (pay deal_id release wallet to amount w).1.chain
unfolding pay ignore
pay_chain deal_id release wallet to amount w =
    then_from (λ v. v.chain ≡ w.chain) After (take_deal_action_lock deal_id (action_of release)) _ w
      (take_lock_chain deal_id (action_of release) w)
      (λ lock_id v e.
        holding_keeps After After lock_id _ v
          (then_from After After (transfer wallet to amount) _ v
            (call_keeps After _ _ v
              (subst (λ c. Sent w.chain wallet to amount (tx ∷ c)) (sym e) one_sent) (unsent v e))
            (λ u x i.
              then_from After After (confirm_payout deal_id release) _ x
                (call_keeps After _ _ x i i)
                (λ u y j.
                  delete_topic_keeps After (record { later = λ v i. i; with_tables = λ t v i. i })
                    deal_id y j)
                (λ y j. j))
            (λ x i. i))
          (λ s x i. call_keeps After _ _ x i i))
      unsent
  where
    tx : ChainTx
    tx = record { account = wallet; outs = (to, amount) ∷ [] }

    After : World → Type 0
    After v = Sent w.chain wallet to amount v.chain

    unsent : (v : World) → v.chain ≡ w.chain → After v
    unsent v e = subst (λ c. Sent w.chain wallet to amount c) (sym e) none_sent

recover_chain :
    (deal_id : ℕ) (release : Bool) (escrow : String) (amount : ℤ) (to : String) (l : DealActionLock)
    (w : World)
    → (recover deal_id release escrow amount to l w).1.chain ≡ w.chain
unfolding recover settle_paid give_up
recover_chain deal_id release escrow amount to l w =
    then_attempt Kept Kept (has_outgoing_tx_to escrow amount to) _ w
      (looks_up_keeps Kept escrow amount to w (λ v i. i) refl)
      (λ r v i.
        if_cases (λ o. Kept o.1) (holds_true r) _ _ v
          (λ _.
            then_from Kept Kept (confirm_payout deal_id release) _ v (call_keeps Kept _ _ v i i)
              (λ u x j. then_ignored Kept Kept _ _ x (call_keeps Kept _ _ x j j) (λ y k.
                then_ignored Kept Kept (delete_deal_forum_topic deal_id) _ y
                  (delete_topic_keeps Kept (record { later = λ v i. i; with_tables = λ t v i. i })
                    deal_id y k)
                  (λ z n. n)))
              (λ x j. j))
          (λ _. then_ignored Kept Kept _ _ v (call_keeps Kept _ _ v i i) (λ x j. j)))
  where
    Kept : World → Type 0
    Kept v = v.chain ≡ w.chain

recover_left_chain :
    (deal_id : ℕ) (release : Bool) (escrow : String) (amount : ℤ) (to : String)
    (l : Option DealActionLock) (w : World)
    → (recover_left deal_id release escrow amount to l w).1.chain ≡ w.chain
unfolding recover_left
recover_left_chain deal_id release escrow amount to none w = refl
recover_left_chain deal_id release escrow amount to (some l) w =
    recover_chain deal_id release escrow amount to l w

pay_unless_recovered_chain :
    (deal_id : ℕ) (release : Bool) (wallet escrow : String) (amount : ℤ) (to : String) (w : World)
    → Sent w.chain wallet to
        (to_uint64 amount)
        (pay_unless_recovered deal_id release wallet escrow amount to w).1.chain
unfolding pay_unless_recovered
pay_unless_recovered_chain deal_id release wallet escrow amount to w =
    then_attempt Kept After (read _) _ w (call_keeps Kept _ (λ v. v) w refl refl) (λ last v i.
      then_from Kept After time_now _ v i
        (λ now x j.
          then_from Kept After
            (recover_left deal_id release escrow amount to (left_behind last now)) _ x
            (recover_left_chain deal_id release escrow amount to (left_behind last now) x ∙ j)
            (λ recovered y k.
              if_cases (λ o. After o.1) recovered _ _ y (λ _. unsent y k)
                (λ _.
                  subst
                    (λ c.
                      Sent c wallet to (to_uint64 amount)
                        (pay deal_id release wallet to (to_uint64 amount) y).1.chain)
                    k (pay_chain deal_id release wallet to (to_uint64 amount) y)))
            unsent)
        unsent)
  where
    Kept : World → Type 0
    Kept v = v.chain ≡ w.chain

    After : World → Type 0
    After v = Sent w.chain wallet to (to_uint64 amount) v.chain

    unsent : (v : World) → v.chain ≡ w.chain → After v
    unsent v e = subst (λ c. Sent w.chain wallet to (to_uint64 amount) c) (sym e) none_sent

module _ (ext : External) (amount_of : ℤ → ℤ) where
  -- What may have become of the network's transactions: no change, or one transfer more, from the
  -- wallet of the deal's stored seed, to the payee of the deal's status, of the deal's amount.
  pub data Payment (deal_id : ℕ) (release : Bool) (w : World) : List ChainTx → Type 0 where
    no_payment : Payment deal_id release w w.chain
    pays :
        (d : Deal) (seed wallet to : String)
        → deal_with_id deal_id w ≡ d ∷ []
        → is_status d.status (awaited_status release) ≡ true
        → is_unset (payee_of release d) ≡ false
        → ext.parse_raw_addr (text_or_empty (payee_of release d)) ≡ some to
        → seed_of deal_id w ≡ some seed
        → ext.wallet_of_seed seed ≡ some wallet
        → Payment deal_id release w (
            record { account = wallet; outs = (to, to_uint64 (amount_of d.escrow_amount)) ∷ [] }
            ∷ w.chain)

  -- Whatever fails on the way, one run of ReleaseOrRefundEscrow sends at most one transfer: from
  -- the wallet of the seed that is stored for the deal, to the payout address of the lessor (of the
  -- lessee for a refund), of the amount computed from the deal's escrow amount, and only if the
  -- deal waits for that release or refund.
  pub run_pays_once_and_right :
      (deal_id : ℕ) (release : Bool) (w : World)
      → Payment deal_id release w (release_or_refund_escrow ext amount_of deal_id release w).1.chain
  unfolding release_or_refund_escrow prepare_action get_escrow_seed
  run_pays_once_and_right deal_id release w =
      then_require Paid _ _ _ w
        (λ d e.
          then_prepares Paid d release _ (arrive w) (λ e. no_payment)
            (λ payable waits.
              then_or_raise Paid _ _ _ _ (λ _. no_payment)
                (λ to addressed.
                  then_seed Paid deal_id _ (arrive w) (λ e. no_payment)
                    (λ seed stored.
                      then_or_raise Paid _ _ _ _ (λ _. no_payment)
                        (λ wallet keyed.
                          then_fail_if Paid _ _ _ _ (λ _. no_payment)
                            (λ _.
                              then_or_raise Paid _ _ _ _ (λ _. no_payment)
                                (λ escrow _.
                                  sent d seed wallet to e waits payable addressed stored keyed (
                                    pay_unless_recovered_chain deal_id release wallet escrow
                                      (amount_of d.escrow_amount) to (arrive (arrive w))))))))))
        (λ e. no_payment)
    where
      Paid : {A : Type 0} → Result A × World → Type 0
      Paid o = Payment deal_id release w o.1.chain

      sent :
          (d : Deal) (seed wallet to : String)
          → deal_with_id deal_id w ≡ d ∷ []
          → is_status d.status (awaited_status release) ≡ true
          → is_unset (payee_of release d) ≡ false
          → ext.parse_raw_addr (text_or_empty (payee_of release d)) ≡ some to
          → seed_of deal_id w ≡ some seed
          → ext.wallet_of_seed seed ≡ some wallet
          → {c : List ChainTx} → Sent w.chain wallet to (to_uint64 (amount_of d.escrow_amount)) c
          → Payment deal_id release w c
      sent d seed wallet to e a b p s k none_sent = no_payment
      sent d seed wallet to e a b p s k one_sent = pays d seed wallet to e a b p s k
