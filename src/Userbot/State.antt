-- ===== src/Userbot/State.antt =====
-- internal/userbot/repository/state/repository.go: how far the userbot has read the updates of
-- Telegram, by user, and by user and channel. `none` is an error; a write whose answer is lost has
-- taken effect.
use telegram_ads_market.Common.{
  ℕ, Bool, true, false, ◌&&◌, Option, none, some, List, [], ◌∷◌, ◌++◌, ◌==◌, if◌then◌else◌, select,
  update, exists,
}
use telegram_ads_market.Common.Int.{ℤ, pos}
use telegram_ads_market.Repository.{OneRow, one, no_rows, too_many_rows, exactly_one}
use telegram_ads_market.Effects.{Fate, works, refused, unanswered}

-- `updates.State`
pub record State : Type 0 where
  pub pts : ℤ
  pub qts : ℤ
  pub date : ℤ
  pub seq : ℤ

pub record StateRow : Type 0 where
  pub user_id : ℕ
  pub state : State
  pub updated_at : ℕ

pub record ChannelRow : Type 0 where
  pub user_id : ℕ
  pub channel_id : ℕ
  pub pts : ℤ
  pub updated_at : ℕ

pub record Store : Type 0 where
  pub states : List StateRow
  pub channels : List ChannelRow
  pub now : ℕ

-- A statement with its answer and its effect.
unfoldable pub exec : {A : Type 0} → Fate → A → Store → Store → Option A × Store
exec works answer after s = (some answer, after)
exec refused answer after s = (none, s)
exec unanswered answer after s = (none, after)

abbrev pub query : {A : Type 0} → Fate → A → Option A
query works answer = some answer
query refused answer = none
query unanswered answer = none

abbrev pub is_of : ℕ → StateRow → Bool
is_of user_id r = r.user_id == user_id

abbrev pub zero_state : State
zero_state = record { pts = pos 0; qts = pos 0; date = pos 0; seq = pos 0 }

-- CollectExactlyOneRow: a missing row is the zero state, without an error.
abbrev pub state_found : OneRow StateRow → Option (State × Bool)
state_found (one r) = some (r.state, true)
state_found no_rows = some (zero_state, false)
state_found too_many_rows = none

unfoldable pub get_state : Fate → ℕ → Store → Option (State × Bool)
get_state fate user_id s = elim (query fate (select (is_of user_id) s.states)) [
  | none ↦ none
  | some rows ↦ state_found (exactly_one rows)
]

-- INSERT ... ON CONFLICT (user_id) DO UPDATE
unfoldable pub upsert_state : ℕ → State → ℕ → List StateRow → List StateRow
upsert_state user_id state now rows =
    if exists (is_of user_id) rows
    then update (is_of user_id) (λ r. record r { state = state; updated_at = now }) rows
    else rows ++ record { user_id = user_id; state = state; updated_at = now } ∷ []

unfoldable pub set_state : Fate → ℕ → State → Store → Option (Unit {0}) × Store
set_state fate user_id state s =
    exec fate tt (record s { states = upsert_state user_id state s.now s.states }) s

-- An UPDATE of some columns: it is an error where no row is affected.
abbrev pub affected : Option Bool × Store → Option (Unit {0}) × Store
affected (none, s) = (none, s)
affected (some true, s) = (some tt, s)
affected (some false, s) = (none, s)

unfoldable pub change_state : (State → State) → Fate → ℕ → Store → Option (Unit {0}) × Store
change_state change fate user_id s = affected (
    exec fate (exists (is_of user_id) s.states)
      (record s {
        states =
            update (is_of user_id) (λ r. record r { state = change r.state; updated_at = s.now })
              s.states;
      })
      s)

unfoldable pub set_pts : ℤ → Fate → ℕ → Store → Option (Unit {0}) × Store
set_pts pts = change_state (λ t. record t { pts = pts })

unfoldable pub set_qts : ℤ → Fate → ℕ → Store → Option (Unit {0}) × Store
set_qts qts = change_state (λ t. record t { qts = qts })

unfoldable pub set_seq : ℤ → Fate → ℕ → Store → Option (Unit {0}) × Store
set_seq seq = change_state (λ t. record t { seq = seq })

unfoldable pub set_date : ℤ → Fate → ℕ → Store → Option (Unit {0}) × Store
set_date date = change_state (λ t. record t { date = date })

unfoldable pub set_date_seq : ℤ → ℤ → Fate → ℕ → Store → Option (Unit {0}) × Store
set_date_seq date seq = change_state (λ t. record t { date = date; seq = seq })

abbrev pub is_of_channel : ℕ → ℕ → ChannelRow → Bool
is_of_channel user_id channel_id r = (r.user_id == user_id) && (r.channel_id == channel_id)

abbrev pub pts_found : OneRow ChannelRow → Option (ℤ × Bool)
pts_found (one r) = some (r.pts, true)
pts_found no_rows = some (pos 0, false)
pts_found too_many_rows = none

unfoldable pub get_channel_pts : Fate → ℕ → ℕ → Store → Option (ℤ × Bool)
get_channel_pts fate user_id channel_id s =
    elim (query fate (select (is_of_channel user_id channel_id) s.channels)) [
      | none ↦ none
      | some rows ↦ pts_found (exactly_one rows)
    ]

unfoldable pub set_channel_pts : Fate → ℕ → ℕ → ℤ → Store → Option (Unit {0}) × Store
set_channel_pts fate user_id channel_id pts s =
    exec fate tt
      (record s {
        channels =
            if exists (is_of_channel user_id channel_id) s.channels
            then update (is_of_channel user_id channel_id)
                (λ r. record r { pts = pts; updated_at = s.now }) s.channels
            else s.channels
              ++ record {
                user_id = user_id;
                channel_id = channel_id;
                pts = pts;
                updated_at = s.now;
              }
                ∷ [];
      })
      s

-- The callback runs over the channels until it answers an error; `f` passes its own state on.
unfoldable pub for_each_channels :
    {S : Type 0} → (ℕ → ℤ → S → Bool × S) → Fate → ℕ → Store → S → Option (Unit {0}) × S
for_each_channels {S} f fate user_id s t =
    elim (query fate (select (λ (r : ChannelRow). r.user_id == user_id) s.channels)) [
      | none ↦ (none, t)
      | some rows ↦ each rows t
    ]
  where
    each : List ChannelRow → S → Option (Unit {0}) × S
    each [] t = (some tt, t)
    each (r ∷ rs) t =
        let (done, t') = f r.channel_id r.pts t in
        let rest = each rs t' in if done then rest else (none, t')
