-- ===== src/Observer/KeyEvents.antt =====
-- startRedisEventsHandler of internal/blockchain_observer/workers.go: an address that expires in
-- Redis is no longer watched, and its deal expires; an address that is given a term is watched.
use telegram_ads_market.Common.{
  String, Bool, true, false, Option, none, some, List, [], ◌∷◌, if◌then◌else◌,
}
use telegram_ads_market.Common.Text.{str_eq}
use telegram_ads_market.External.{External}
use telegram_ads_market.Repository.Deals
use telegram_ads_market.Lifecycle.Step
use telegram_ads_market.Lifecycle.Step.{Reach, stays, goes, Reach-trans}
use telegram_ads_market.Effects.{M, pure, ◌>>=◌, ◌>>◌, ignore, statement}
use telegram_ads_market.DealService.Refines.{Refines}
use telegram_ads_market.Escrow.Laws.{then_from, then_ignored, call_keeps}
use telegram_ads_market.Observer.Deposits.{Addresses, add_address, remove_address}

-- The channels that the handler has subscribed to.
pub data KeyEvent : Type 0 where
  key_expired : String → KeyEvent
  key_expires : String → KeyEvent
  other_event : KeyEvent

module _ (ext : External) where
  abbrev pub expire_address : Addresses → String → Option String → M Addresses
  expire_address addresses payload none = pure addresses
  expire_address addresses payload (some key) =
      ignore (statement (Deals.set_deal_status_expired_by_escrow_address payload))
      >> pure (remove_address key addresses)

  unfoldable pub handle_key_event : KeyEvent → Addresses → M Addresses
  handle_key_event (key_expired payload) addresses =
      if str_eq payload "rate_limiter"
      then pure addresses
      else expire_address addresses payload (ext.parse_raw_addr payload)
  handle_key_event (key_expires payload) addresses = pure (elim (ext.parse_raw_addr payload) [
    | none ↦ addresses
    | some key ↦ add_address key addresses
  ])
  handle_key_event other_event addresses = pure addresses

  unfoldable pub handle_key_events : List KeyEvent → Addresses → M Addresses
  handle_key_events [] addresses = pure addresses
  handle_key_events (ev ∷ evs) addresses = do
    addresses' ← handle_key_event ev addresses
    handle_key_events evs addresses'

  handle_key_event-Refines :
      (ev : KeyEvent) (addresses : Addresses) → Refines ext (handle_key_event ev addresses)
  unfolding handle_key_event
  handle_key_event-Refines (key_expired payload) addresses w =
      expires (str_eq payload "rate_limiter") (ext.parse_raw_addr payload)
    where
      expires :
          (b : Bool) (key : Option String)
          → Reach ext w.db
              ((if b then pure addresses else expire_address addresses payload key) w).1.db
      expires true key = stays
      expires false none = stays
      expires false (some key) =
          then_ignored (λ v. Reach ext w.db v.db) (λ v. Reach ext w.db v.db)
            (statement (Deals.set_deal_status_expired_by_escrow_address payload)) _ w
            (call_keeps (λ v. Reach ext w.db v.db) _ _ w
              (goes stays (Step.expires_address payload _ w.db)) stays)
            (λ v r. r)
  handle_key_event-Refines (key_expires payload) addresses w = stays
  handle_key_event-Refines other_event addresses w = stays

  -- Whatever Redis reports, and whatever fails, the handler of its events moves the database by
  -- lifecycle steps only.
  pub handle_key_events-Refines :
      (evs : List KeyEvent) (addresses : Addresses) → Refines ext (handle_key_events evs addresses)
  unfolding handle_key_events
  handle_key_events-Refines [] addresses w = stays
  handle_key_events-Refines (ev ∷ evs) addresses w =
      then_from (λ v. Reach ext w.db v.db) (λ v. Reach ext w.db v.db)
        (handle_key_event ev addresses) _ w (handle_key_event-Refines ev addresses w)
        (λ addresses' v r. Reach-trans ext r (handle_key_events-Refines evs addresses' v))
        (λ v r. r)
