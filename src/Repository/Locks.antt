-- ===== src/Repository/Locks.antt =====
-- internal/market/repository/deal_action_lock/repository.go.
use telegram_ads_market.Common.{
  ℕ, suc, ◌*◌, Bool, ◌&&◌, Option, none, some, List, [], ◌∷◌, ◌++◌, ◌==◌, ltb, leb, if◌then◌else◌,
  select, update, exists,
}
use telegram_ads_market.Entity.{
  DealActionType, DealActionLock, DealActionLockStatus, locked, is_action, is_locked,
}
use telegram_ads_market.Repository.Database.{Db}

abbrev pub second : ℕ
second = 1_000_000_000

abbrev pub deal_action_lock_ttl : ℕ
deal_action_lock_ttl = 5 * 60 * second

abbrev pub is_lock_of : ℕ → DealActionType → DealActionLock → Bool
is_lock_of deal_id action l = (l.deal_id == deal_id) && is_action l.action_type action

-- A lock that still excludes others: `status = 'locked' AND expire_at > NOW()`.
abbrev pub is_active : ℕ → DealActionType → ℕ → DealActionLock → Bool
is_active deal_id action now l =
    is_lock_of deal_id action l && is_locked l.status && ltb now l.expire_at

-- The SELECT of TakeDealActionLock.
unfoldable pub has_active_lock : ℕ → DealActionType → ℕ → Db → Bool
has_active_lock deal_id action now db = exists (is_active deal_id action now) db.locks

-- The INSERT of TakeDealActionLock; the time of expiry is computed by the caller's clock.
unfoldable pub insert_lock : ℕ → DealActionType → ℕ → ℕ → Db → Db
insert_lock deal_id action expire_at now db = record db {
  locks = db.locks ++ row ∷ [];
  next_lock = suc db.next_lock;
}
  where
    row : DealActionLock
    row = record {
      id = db.next_lock;
      deal_id = deal_id;
      action_type = action;
      status = locked;
      expire_at = expire_at;
      created_at = now;
      updated_at = now;
    }

-- ORDER BY created_at DESC LIMIT 1: the newest, and of equally new ones the one listed first.
newest : Option DealActionLock → List DealActionLock → Option DealActionLock
newest best [] = best
newest none (l ∷ ls) = newest (some l) ls
newest (some b) (l ∷ ls) = newest (some (if ltb b.created_at l.created_at then l else b)) ls

unfoldable pub get_last_deal_action_lock : ℕ → DealActionType → Db → Option DealActionLock
unfolding newest
get_last_deal_action_lock deal_id action db =
    newest none (select (is_lock_of deal_id action) db.locks)

-- `lock.Status == locked && !lock.ExpireAt.After(now)`: its holder has not come back in time.
unfoldable pub is_expired : DealActionLock → ℕ → Bool
is_expired l now = is_locked l.status && leb l.expire_at now

unfoldable pub release_deal_action_lock : ℕ → DealActionLockStatus → ℕ → Db → Db
release_deal_action_lock lock_id s now db = record db {
  locks = update (λ l. l.id == lock_id) (λ l. record l { status = s; updated_at = now }) db.locks;
}
