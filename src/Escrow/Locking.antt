-- ===== src/Escrow/Locking.antt =====
-- What a lock of TakeDealActionLock keeps others from, and what it does not: the transaction runs
-- at READ COMMITTED, and no index makes active locks unique.
use telegram_ads_market.Common.{
  ℕ, suc, ◌+◌, ◌<◌, ◌≡◌, ◌≢◌, refl, ap, ◌∙◌, Bool, true, false, List, [], ◌∷◌, ◌++◌, exists,
  ==_refl, arith,
}
use telegram_ads_market.Entity.{DealActionType, DealActionLock, is_action}
use telegram_ads_market.Repository.{Db}
use telegram_ads_market.Repository.Locks.{
  deal_action_lock_ttl, is_active, has_active_lock, insert_lock,
}
use telegram_ads_market.Effects.{World, arrive, ok, monad}
use telegram_ads_market.Escrow.Operations.{take_deal_action_lock}

same_action : (action : DealActionType) → is_action action action ≡ true
same_action DealActionType.escrow_release = refl
same_action DealActionType.escrow_refund = refl
same_action DealActionType.post_message = refl

exists-append :
    {A : Type 0} (test : A → Bool) (xs : List A) (x : A)
    → test x ≡ true
    → exists test (xs ++ x ∷ []) ≡ true
exists-append test [] x e = ground (arith, e)
exists-append test (y ∷ ys) x e = ground (arith, exists-append test ys x e)

-- The lock that was inserted is active until it expires.
inserted_is_active :
    (deal_id : ℕ) (action : DealActionType) (expire_at now later : ℕ) (db : Db)
    → later < expire_at
    → exists (is_active deal_id action later) (insert_lock deal_id action expire_at now db).locks
      ≡ true
unfolding insert_lock
inserted_is_active deal_id action expire_at now later db soon =
    exists-append (is_active deal_id action later) db.locks _
      (ground (arith, soon, ==_refl deal_id, same_action action))

-- An active lock is refused, whatever fails.
active_is_refused :
    (deal_id : ℕ) (action : DealActionType) (v : World)
    → has_active_lock deal_id action (arrive v).now v.db ≡ true
    → (lock_id : ℕ) → (take_deal_action_lock deal_id action v).0 ≢ ok lock_id
unfolding take_deal_action_lock monad
active_is_refused deal_id action v e lock_id = λ f. ground (arith, e, f)

lock_is_taken :
    (deal_id : ℕ) (action : DealActionType) (w : World)
    → w.schedule ≡ []
    → has_active_lock deal_id action w.now w.db ≡ false
    → ((take_deal_action_lock deal_id action w).0 ≡ ok w.db.next_lock)
      × ((take_deal_action_lock deal_id action w).1.db
          ≡ insert_lock deal_id action (w.now + deal_action_lock_ttl) w.now w.db)
unfolding take_deal_action_lock monad
lock_is_taken deal_id action w s free = (ground arith, ground arith)

-- If every call of the first taker works and no lock of the deal for this action is active, it gets
-- the lock; and as long as the locks are what it left and the lock has not expired, no later
-- transaction gets a lock of the deal for this action, whatever fails in it.
pub taken_lock_excludes :
    (deal_id : ℕ) (action : DealActionType) (w v : World)
    → w.schedule ≡ []
    → has_active_lock deal_id action w.now w.db ≡ false
    → v.db.locks ≡ (take_deal_action_lock deal_id action w).1.db.locks
    → (arrive v).now < w.now + deal_action_lock_ttl
    → ((take_deal_action_lock deal_id action w).0 ≡ ok w.db.next_lock)
      × ((lock_id : ℕ) → (take_deal_action_lock deal_id action v).0 ≢ ok lock_id)
unfolding has_active_lock
taken_lock_excludes deal_id action w v s free same soon =
    let taken = lock_is_taken deal_id action w s free in
    let active =
      ap (exists (is_active deal_id action (arrive v).now))
        (same ∙ ap (λ (b : Db). b.locks) taken.1)
      ∙ inserted_is_active deal_id action _ w.now (arrive v).now w.db soon in
    (taken.0, active_is_refused deal_id action v active)

-- Two takers of a lock, each between its statements: neither sees what the other has not committed.
pub data Taker : Type 0 where
  starts checked : Taker
  holds : ℕ → Taker

pub record Race : Type 0 where
  pub db : Db
  pub one : Taker
  pub other : Taker

-- The SELECT of a taker, or its INSERT with the COMMIT that follows, at one time.
pub data Moves (deal_id now : ℕ) (action : DealActionType) : Race → Race → Type 0 where
  rests : (r : Race) → Moves deal_id now action r r
  one_checks :
      (r s : Race)
      → r.one ≡ starts
      → has_active_lock deal_id action now r.db ≡ false
      → Moves deal_id now action (record r { one = checked }) s
      → Moves deal_id now action r s
  other_checks :
      (r s : Race)
      → r.other ≡ starts
      → has_active_lock deal_id action now r.db ≡ false
      → Moves deal_id now action (record r { other = checked }) s
      → Moves deal_id now action r s
  one_inserts :
      (r s : Race)
      → r.one ≡ checked
      → Moves deal_id now action
          (record r {
            one = holds r.db.next_lock;
            db = insert_lock deal_id action (now + deal_action_lock_ttl) now r.db;
          })
          s
      → Moves deal_id now action r s
  other_inserts :
      (r s : Race)
      → r.other ≡ checked
      → Moves deal_id now action
          (record r {
            other = holds r.db.next_lock;
            db = insert_lock deal_id action (now + deal_action_lock_ttl) now r.db;
          })
          s
      → Moves deal_id now action r s

-- Both takers hold a lock of their own, and both locks are active.
pub record BothHold (deal_id now : ℕ) (action : DealActionType) (before : Db) (r : Race)
    : Type 0 where
  pub one_holds : r.one ≡ holds before.next_lock
  pub other_holds : r.other ≡ holds (suc before.next_lock)
  pub first : DealActionLock
  pub second : DealActionLock
  pub two_rows : r.db.locks ≡ before.locks ++ first ∷ second ∷ []
  pub first_active : is_active deal_id action now first ≡ true
  pub second_active : is_active deal_id action now second ≡ true

-- Where no lock of the deal for this action is active, the statements of two takers can follow each
-- other so that both get a lock, and both locks are active at once.
pub two_takers_both_lock :
    (deal_id now : ℕ) (action : DealActionType) (db : Db)
    → has_active_lock deal_id action now db ≡ false
    → (r : Race) × Moves deal_id now action (record { db = db; one = starts; other = starts }) r
      × BothHold deal_id now action db r
unfolding insert_lock
two_takers_both_lock deal_id now action db free = (
  _,
  one_checks _ _ refl free
      (other_checks _ _ refl free (one_inserts _ _ refl (other_inserts _ _ refl (rests _)))),
  record {
    one_holds = refl;
    other_holds = refl;
    first = _;
    second = _;
    two_rows = append_assoc db.locks _ _;
    first_active = ground (arith, ==_refl deal_id, same_action action);
    second_active = ground (arith, ==_refl deal_id, same_action action);
  },
)
  where
    append_assoc :
        (xs : List DealActionLock) (x y : DealActionLock)
        → (xs ++ x ∷ []) ++ y ∷ [] ≡ xs ++ x ∷ y ∷ []
    append_assoc [] x y = refl
    append_assoc (z ∷ zs) x y = ap (λ r. z ∷ r) (append_assoc zs x y)
