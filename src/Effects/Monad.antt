-- ===== src/Effects/Monad.antt =====
-- The world, the monad, calls, and the transactions of internal/postgres/tx.go.
use telegram_ads_market.Common.{
  ℕ, ◌+◌, String, Bool, Option, none, some, List, [], ◌∷◌, if◌then◌else◌,
}
use telegram_ads_market.Entity.{User, ErrorCode}
use telegram_ads_market.Tables.{Tables}
use telegram_ads_market.Repository.{Db, OneRow, one, no_rows, too_many_rows, exactly_one}

-- What becomes of a call: it works, it is refused and has no effect, or it has its effect and its
-- answer is lost.
pub data Fate : Type 0 where
  works refused unanswered : Fate

pub record Outcome : Type 0 where
  pub fate : Fate
  pub takes : ℕ

-- A call that works at once, and one that is refused at once.
abbrev pub fine : Outcome
fine = record { fate = works; takes = 0 }

abbrev pub lost : Outcome
lost = record { fate = refused; takes = 0 }

-- A transaction of an account of the TON network: the account, and what it sent out, to whom and
-- how much. A transaction that only receives sends nothing out.
pub record ChainTx : Type 0 where
  pub account : String
  pub outs : List (String × ℕ)

-- A message in a Telegram channel.
pub record ChannelMessage : Type 0 where
  pub channel_id : ℕ
  pub message_id : ℕ
  pub body : String

pub record World : Type 0 where
  pub db : Db
  pub now : ℕ
  -- When the open transaction began: NOW() stands still in a transaction.
  pub tx_start : Option ℕ
  pub schedule : List Outcome
  pub users : List User
  -- The seed phrases in the Vault, by deal, the latest first.
  pub seeds : List (ℕ × String)
  pub seeds_drawn : ℕ
  -- The escrow addresses in Redis that the observer watches.
  pub watched : List String
  -- The transactions of the TON network, the latest first.
  pub chain : List ChainTx
  pub messages : List ChannelMessage
  pub next_message : ℕ
  -- Messages whose answers from Telegram do not tell their ids.
  pub untold : List ℕ
  pub notifications : List (ℕ × String)
  pub acknowledged : List String
  pub tables : Tables

pub data Error : Type 0 where
  call_failed too_many rows_missing : Error
  not_found deal_not_draft unauthorized_side wallet_not_set payout_not_set : Error
  details_message_required already_locked not_approved wrong_status no_escrow_address : Error
  payout_address_not_set bad_address bad_seed nil_pointer not_yet_due : Error
  not_channel_admin channel_stats_denied stats_refresh_too_soon stats_not_object
        forum_not_configured :
      Error
  -- What the HTTP handlers answer instead.
  service_error : ErrorCode → Error

pub data Result (A : Type 0) : Type 0 where
  ok : A → Result A
  err : Error → Result A

abbrev pub M : Type 0 → Type 0
M A = World → Result A × World

module _ {A : Type 0} where
  abbrev pub pure : A → M A
  pure a w = (ok a, w)

  abbrev pub raise : Error → M A
  raise e w = (err e, w)

  -- What the error branch of a call does with the result, whichever it is.
  abbrev pub attempt : M A → M (Result A)
  attempt m w = let (r, w') = m w in (ok r, w')

infixl 5 ◌>>=◌ ◌>>◌
unfoldable pub ◌>>=◌ : {A B : Type 0} → M A → (A → M B) → M B
◌>>=◌ m f w = let (r, w') = m w in elim r [ ok a ↦ f a w' | err e ↦ (err e, w') ]

abbrev pub ◌>>◌ : {A B : Type 0} → M A → M B → M B
m >> k = m >>= λ _. k

abbrev pub Done : Type 0
Done = Unit {0}

-- `_ = call()`: the error is dropped.
unfoldable pub ignore : {A : Type 0} → M A → M Done
ignore m w = let (r, w') = m w in (ok tt, w')

-- `if test { return err }`
unfoldable pub fail_if : Bool → Error → M Done
fail_if test e w = (if test then err e else ok tt, w)

unfoldable pub or_raise : {A : Type 0} → Option A → Error → M A
or_raise none e w = (err e, w)
or_raise (some a) e w = (ok a, w)

abbrev pub time_now : M ℕ
time_now w = (ok w.now, w)

-- NOW() in SQL.
abbrev pub sql_now : World → ℕ
sql_now w = elim w.tx_start [ none ↦ w.now | some t ↦ t ]

abbrev pub settle : {A : Type 0} → Fate → (World → A) → (World → World) → M A
settle works value effect w = (ok (value w), effect w)
settle refused value effect w = (err call_failed, w)
settle unanswered value effect w = (err call_failed, effect w)

abbrev pub rest_of : List Outcome → List Outcome
rest_of [] = []
rest_of (o ∷ rest) = rest

abbrev pub delay_of : List Outcome → ℕ
delay_of [] = 0
delay_of (o ∷ rest) = o.takes

-- The world when the next call is decided, and what becomes of it.
abbrev pub arrive : World → World
arrive w = record w { schedule = rest_of w.schedule; now = w.now + delay_of w.schedule }

abbrev pub next_fate : World → Fate
next_fate w = elim w.schedule [ [] ↦ works | o ∷ rest ↦ o.fate ]

-- A call with its answer and its effect.
unfoldable pub call : {A : Type 0} → (World → A) → (World → World) → M A
call value effect w = settle (next_fate w) value effect (arrive w)

abbrev pub exec : (World → World) → M Done
exec = call (λ _. tt)

abbrev pub query : {A : Type 0} → (World → A) → M A
query value = call value (λ w. w)

-- One SQL statement that writes; it is given NOW().
abbrev pub statement : (ℕ → Db → Db) → M Done
statement s = exec λ w. record w { db = s (sql_now w) w.db }

abbrev pub read : {A : Type 0} → (Db → A) → M A
read f = query λ w. f w.db

-- A query for one row, as the repositories collect it.
unfoldable pub collect : {A : Type 0} → OneRow A → M (Option A)
collect (one a) w = (ok (some a), w)
collect no_rows w = (ok none, w)
collect too_many_rows w = (err too_many, w)

unfoldable pub read_one : {A : Type 0} → (World → List A) → M (Option A)
read_one f = do rows ← query f; collect (exactly_one rows)

-- A loop whose body continues with the next item after an error.
unfoldable pub for_each : {A : Type 0} → List A → (A → M Done) → M Done
for_each [] body = pure tt
for_each (x ∷ xs) body = ignore (body x) >> for_each xs body

-- `if err != nil { return err }` and `if x == nil { return e }`
unfoldable pub require : {A : Type 0} → M (Option A) → Error → M A
require m e w =
    let (r, w') = m w in
    elim r [ ok a ↦ elim a [ none ↦ (err e, w') | some x ↦ (ok x, w') ] | err f ↦ (err f, w') ]

-- `if err != nil || x == nil { return ErrNotFound }`
unfoldable pub found : {A : Type 0} → M (Option A) → M A
found m w =
    let (r, w') = m w in
    elim r [
      | ok a ↦ elim a [ none ↦ (err not_found, w') | some x ↦ (ok x, w') ]
      | err e ↦ (err not_found, w')
    ]

-- BeginTx, the body, and the deferred EndTx: COMMIT after a body without an error, ROLLBACK after
-- an error. What EndTx returns is dropped, also where COMMIT has failed.
abbrev pub commit : {A : Type 0} → Db → A → World → Fate → Result A × World
commit before a w works = (ok a, record (arrive w) { tx_start = none })
commit before a w refused = (ok a, record (arrive w) { db = before; tx_start = none })
commit before a w unanswered = (ok a, record (arrive w) { tx_start = none })

unfoldable pub end_tx : {A : Type 0} → Db → Result A → World → Result A × World
end_tx before (err e) w = (err e, record (arrive w) { db = before; tx_start = none })
end_tx before (ok a) w = commit before a w (next_fate w)

unfoldable pub transaction : {A : Type 0} → M A → M A
transaction body = do
  exec (λ w. w)
  λ w. let (r, w') = body (record w { tx_start = some w.now }) in end_tx w.db r w'

-- Named on an `unfolding` line, this opens the whole monad.
unfoldable pub monad : Done
unfolding ◌>>=◌ ignore fail_if or_raise collect read_one found require call end_tx transaction
    for_each
monad = tt
