-- ===== src/External.antt =====
-- What the services call and this repository does not implement, as one parameter: the hash of
-- crypto/sha256 with encoding/hex, JSON decoding, RFC 3339 times, and the TON library's addresses
-- and wallets. No law is assumed of any of them here.
use telegram_ads_market.Common.{ℕ, String, Option, List}
use telegram_ads_market.Common.Int.{ℤ}

-- A decoded JSON value, as far as the market tells values apart: a text, JSON null, anything else.
pub data Json : Type 0 where
  text : String → Json
  null : Json
  other : Json

pub record External : Type 0 where
  -- `hex.EncodeToString(sha256(...))`
  pub sha256_hex : String → String
  -- `json.Unmarshal` into a map: the members, each name once, or a decoding error.
  pub unmarshal_object : String → Option (List (String × Json))
  -- `time.Parse(time.RFC3339, s)`
  pub parse_rfc3339 : String → Option ℤ
  -- `address.ParseRawAddr`: the address that a text names, in its raw form, or an error.
  pub parse_raw_addr : String → Option String
  -- `wallet.NewSeed`, drawn for the n-th time.
  pub new_seed : ℕ → String
  -- The wallet of a seed phrase: its raw address, or an error.
  pub wallet_of_seed : String → Option String
