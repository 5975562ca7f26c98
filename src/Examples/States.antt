-- ===== src/Examples/States.antt =====
-- The userbot's state after a write whose answer is lost.
use telegram_ads_market.Common.{ℕ, ◌≡◌, true, some, [], ◌∷◌, ◌==◌, Bool-cases, inl, inr}
use telegram_ads_market.Common.Int.{pos}
use telegram_ads_market.Effects.{works, unanswered}
use telegram_ads_market.Userbot.State.{State, Store, zero_state, get_state, set_state}
use telegram_ads_market.Userbot.StateLaws.{OneRowFor, set_state-get_state}

abbrev store : Store
store = record {
  states = record { user_id = 3; state = zero_state; updated_at = 1 } ∷ [];
  channels = [];
  now = 9;
}

store-OneRowFor : (v : ℕ) → OneRowFor v store
store-OneRowFor v = elim (Bool-cases (3 == v)) [ inl e ↦ rw e (λ f. cc) | inr e ↦ rw e (λ f. cc) ]

abbrev read_up_to : State
read_up_to = record { pts = pos 40; qts = pos 2; date = pos 8; seq = pos 5 }

set_state-get_state_example :
    (get_state works 3 (set_state unanswered 3 read_up_to store).1 ≡ some (read_up_to, true))
    × OneRowFor 3 (set_state unanswered 3 read_up_to store).1
set_state-get_state_example =
    set_state-get_state store store-OneRowFor unanswered (λ e. cc) 3 read_up_to 3
