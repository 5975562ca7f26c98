-- ===== src/Market/Users.antt =====
-- The wallets of users: SetWallet and DisconnectWallet of
-- internal/market/application/market/http/auth.go, with internal/market/service/user/auth.go and
-- internal/market/repository/user. Users come from the verified init data of Telegram, which is not
-- modelled.
use telegram_ads_market.Common.{ℕ, String, Option, none, some, ◌==◌, select, update}
use telegram_ads_market.Common.Text.{str_eq}
use telegram_ads_market.Entity.{User, bad_request}
use telegram_ads_market.Effects.{
  M, Done, ◌>>=◌, ◌>>◌, exec, fail_if, read_one, call_failed, service_error,
}
use telegram_ads_market.Market.Http.{served, require_user_id, decode_body}

unfoldable pub get_user_by_id : ℕ → M (Option User)
get_user_by_id id = read_one λ w. select (λ u. u.id == id) w.users

abbrev pub write_wallet : ℕ → Option String → M Done
write_wallet user_id wallet = exec λ w. record w {
  users = update (λ u. u.id == user_id) (λ u. record u { wallet_address = wallet }) w.users;
}

unfoldable pub set_user_wallet : ℕ → String → M Done
set_user_wallet user_id wallet = write_wallet user_id (some wallet)

unfoldable pub clear_user_wallet : ℕ → M Done
clear_user_wallet user_id = write_wallet user_id none

unfoldable pub set_wallet : ℕ → String → M Done
set_wallet user_id wallet = do
  fail_if (str_eq wallet "") call_failed
  set_user_wallet user_id wallet

unfoldable pub clear_wallet : ℕ → M Done
clear_wallet user_id = clear_user_wallet user_id

unfoldable pub handle_set_wallet : Option ℕ → Option String → M Done
handle_set_wallet user body = do
  user_id ← require_user_id user
  wallet ← decode_body body
  fail_if (str_eq wallet "") (service_error bad_request)
  served (set_wallet user_id wallet)

unfoldable pub handle_disconnect_wallet : Option ℕ → M Done
handle_disconnect_wallet user = do user_id ← require_user_id user; served (clear_wallet user_id)
