-- ===== src/Escrow/Laws.antt =====
-- What holds of the world after the escrow service's own combinators.
use telegram_ads_market.Common.{
  ℕ, ◌≡◌, String, Bool, true, false, Option, none, some, List, [], ◌∷◌, arith, is_unset,
  text_or_empty,
}
use telegram_ads_market.Common.Int.{ℤ}
use telegram_ads_market.Repository.{Db}
use telegram_ads_market.Entity.{DealActionType, DealActionLockStatus}
use telegram_ads_market.Effects.{
  World, ChainTx, Result, ok, err, Error, M, Done, ◌>>=◌, ◌>>◌, ignore, attempt, query, call,
  arrive, fail_if, already_locked, time_now, exec, commit, Fate, works, refused, unanswered,
  next_fate, transaction, end_tx,
}
use telegram_ads_market.Effects.Laws.{call_cases, then_query, then_fail_if, then_or_raise}
use telegram_ads_market.Effects.Steps.{then_steps, then_pure}
use telegram_ads_market.Entity.{Deal, is_status}
use telegram_ads_market.Escrow.Operations.{
  has_outgoing_tx_to, look_through, limit, tx_page, transactions_of, take_deal_action_lock,
  release_lock, holding, prepare_action, payee_of, awaited_status, get_escrow_seed, seed_of,
}

-- An operation and its continuation: what the first establishes, the second starts from.
pub then_from :
    {A B : Type 0} (I J : World → Type 0) (m : M A) (k : A → M B) (w : World)
    → I (m w).1
    → ((a : A) (v : World) → I v → J (k a v).1)
    → ((v : World) → I v → J v)
    → J ((m >>= k) w).1
unfolding ◌>>=◌
then_from {A} {B} I J m k w h go stop = cases (m w) h
  where
    bind : Result A × World → Result B × World
    bind (r, w') = elim r [ ok a ↦ k a w' | err e ↦ (err e, w') ]

    cases : (o : Result A × World) → I o.1 → J (bind o).1
    cases (ok a, v) h = go a v h
    cases (err e, v) h = stop v h

-- An operation whose error is looked at, or dropped.
pub then_attempt :
    {A B : Type 0} (I J : World → Type 0) (m : M A) (k : Result A → M B) (w : World)
    → I (m w).1
    → ((r : Result A) (v : World) → I v → J (k r v).1)
    → J ((attempt m >>= k) w).1
unfolding ◌>>=◌
then_attempt I J m k w h go = go (m w).0 (m w).1 h

pub then_ignored :
    {A B : Type 0} (I J : World → Type 0) (m : M A) (k : M B) (w : World)
    → I (m w).1
    → ((v : World) → I v → J (k v).1)
    → J ((ignore m >> k) w).1
unfolding ◌>>=◌ ignore
then_ignored I J m k w h go = go (m w).1 h

pub call_keeps :
    {A : Type 0} (I : World → Type 0) (value : World → A) (effect : World → World) (w : World)
    → I (effect (arrive w))
    → I (arrive w)
    → I (call value effect w).1
call_keeps I value effect w a b = call_cases (λ o. I o.1) value effect w a b a

-- Looking for an earlier transfer changes nothing.
pub looks_up_keeps :
    (I : World → Type 0) (from : String) (amount : ℤ) (to : String) (w : World)
    → ((v : World) → I v → I (arrive v))
    → I w
    → I (has_outgoing_tx_to from amount to w).1
unfolding has_outgoing_tx_to look_through
looks_up_keeps I from amount to w later h =
    then_from I I (query (λ v. tt)) _ w (call_keeps I (λ v. tt) (λ v. v) w (later w h) (later w h))
      (λ u v i.
        then_from I I (query (transactions_of from)) _ v
          (call_keeps I (transactions_of from) (λ x. x) v (later v i) (later v i)) through
          (λ x j. j))
      (λ v i. i)
  where
    through : (txs : List ChainTx) (v : World) → I v → I (look_through from amount to txs v).1
    through [] v i = i
    through (t ∷ ts) v i =
        then_from I I (query page) _ v (call_keeps I page (λ x. x) v (later v i) (later v i))
          (λ txs x j. j) (λ x j. j)
      where
        page : World → List ChainTx
        page x = limit tx_page (transactions_of from x)

-- The deferred release of a lock comes after the body, whatever became of it.
pub holding_keeps :
    (I J : World → Type 0) (lock_id : ℕ) (body : M Done) (w : World)
    → I (body w).1
    → ((s : DealActionLockStatus) (v : World) → I v → J (release_lock lock_id s v).1)
    → J (holding lock_id body w).1
unfolding holding ignore
holding_keeps I J lock_id body w h release = cases (body w) h
  where
    cases : (o : Result Done × World) → I o.1 → J (holding lock_id (λ _. o) w).1
    cases (ok a, v) i = release DealActionLockStatus.completed v i
    cases (err e, v) i = release DealActionLockStatus.failed v i

-- How a run goes on after prepareAction, and with the stored seed.
pub then_prepares :
    {B : Type 0} (P : Result B × World → Type 0) (d : Deal) (release : Bool) (k : String → M B)
    (w : World)
    → ((e : Error) → P (err e, w))
    → (is_unset (payee_of release d) ≡ false
        → is_status d.status (awaited_status release) ≡ true
        → P (k (text_or_empty (payee_of release d)) w))
    → P ((prepare_action d release >>= k) w)
unfolding prepare_action
then_prepares P d release k w stop go = then_steps P (fail_if _ _) _ k w (
    then_fail_if P _ _ _ w (λ _. stop _)
      (λ payable. then_steps P (fail_if _ _) _ k w (
        then_fail_if P _ _ _ w (λ _. stop _)
          (λ waits. then_steps P (fail_if _ _) _ k w (
            then_fail_if P _ _ _ w (λ _. stop _)
              (λ _. then_pure P _ k w (go payable (ground (arith, waits)))))))))

pub then_seed :
    {B : Type 0} (P : Result B × World → Type 0) (deal_id : ℕ) (k : String → M B) (w : World)
    → ((e : Error) → P (err e, arrive w))
    → ((seed : String) → seed_of deal_id w ≡ some seed → P (k seed (arrive w)))
    → P ((get_escrow_seed deal_id >>= k) w)
unfolding get_escrow_seed
then_seed P deal_id k w stop go =
    then_steps P (query (seed_of deal_id)) _ k w
      (then_query P _ _ w (then_or_raise P _ _ _ _ (λ _. stop _) go) (stop _))

-- What the clock, the schedule, the open transaction and the database do not matter to.
pub record Outside (I : World → Type 0) : Type 0 where
  pub later : (v : World) → I v → I (arrive v)
  pub opens : (t : Option ℕ) (v : World) → I v → I (record v { tx_start = t })
  pub with_db : (db : Db) (v : World) → I v → I (record v { db = db })

-- A transaction keeps such a fact if its body does.
pub transaction_keeps :
    {A : Type 0} (I : World → Type 0)
    → Outside I
    → (body : M A) (w : World) → ((v : World) → I v → I (body v).1)
    → I w
    → I (transaction body w).1
unfolding transaction end_tx
transaction_keeps {A} I out body w keeps h =
    then_from I I (exec (λ v. v)) _ w (call_keeps I _ (λ v. v) w (out.later w h) (out.later w h))
      (λ u v i.
        ended v.db (body (record v { tx_start = some v.now }))
          (keeps _ (out.opens (some v.now) v i)))
      (λ v i. i)
  where
    ended : (before : Db) (o : Result A × World) → I o.1 → I (end_tx before o.0 o.1).1
    ended before (err e, v) i = out.with_db before _ (out.opens none _ (out.later v i))
    ended before (ok a, v) i = fated (next_fate v)
      where
        fated : (f : Fate) → I (commit before a v f).1
        fated works = out.opens none _ (out.later v i)
        fated refused = out.with_db before _ (out.opens none _ (out.later v i))
        fated unanswered = out.opens none _ (out.later v i)

pub take_lock_keeps :
    (I : World → Type 0)
    → Outside I
    → (deal_id : ℕ) (action : DealActionType) (w : World) → I w
    → I (take_deal_action_lock deal_id action w).1
unfolding take_deal_action_lock
take_lock_keeps I out deal_id action w = transaction_keeps I out _ w λ v i.
    then_from I I (query _) _ v (call_keeps I _ (λ x. x) v (out.later v i) (out.later v i))
      (λ active x j.
        then_fail_if (λ o. I o.1) active already_locked _ x (λ _. j)
          (λ _.
            then_from I I time_now _ x j
              (λ now y k. call_keeps I _ _ y (out.with_db _ _ (out.later y k)) (out.later y k))
              (λ y k. k)))
      (λ x j. j)
