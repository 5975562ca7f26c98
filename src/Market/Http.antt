-- ===== src/Market/Http.antt =====
-- internal/market/application/market/http: what every handler shares (errors.go, helpers.go). An
-- error answer is modelled by its code, without its message.
use telegram_ads_market.Common.{ℕ, Option, none, some}
use telegram_ads_market.Entity.{
  ErrorCode, unauthorized, not_found, bad_request, internal_server_error, forbidden, empty_code,
}
use telegram_ads_market.Effects.{
  World, M, Error, service_error, Result, ok, err, or_raise, pure, ◌>>=◌,
}
use telegram_ads_market.Effects

-- toServiceError, for an error.
unfoldable pub code_of : Error → ErrorCode
code_of Effects.not_found = not_found
code_of Effects.not_channel_admin = forbidden
code_of Effects.unauthorized_side = forbidden
code_of Effects.channel_stats_denied = forbidden
code_of Effects.deal_not_draft = bad_request
code_of Effects.wallet_not_set = bad_request
code_of Effects.payout_not_set = bad_request
code_of Effects.details_message_required = bad_request
code_of _ = internal_server_error

unfoldable pub to_service_error : Error → Error
unfolding code_of
to_service_error e = service_error (code_of e)

abbrev pub renamed : {A : Type 0} → Result A × World → Result A × World
renamed (ok a, w) = (ok a, w)
renamed (err e, w) = (err (to_service_error e), w)

-- `if err != nil { return nil, toServiceError(err) }`
unfoldable pub served : {A : Type 0} → M A → M A
served m w = renamed (m w)

-- `if err != nil || existing == nil { return nil, toServiceError(err) }`: without an error the answer
-- is the empty ServiceError.
unfoldable pub served_or_empty : {A : Type 0} → M (Option A) → M A
served_or_empty m = do found ← served m; or_raise found (service_error empty_code)

unfoldable pub served_or_not_found : {A : Type 0} → M (Option A) → M A
served_or_not_found m = do found ← served m; or_raise found (service_error not_found)

unfoldable pub require_user_id : Option ℕ → M ℕ
require_user_id user = or_raise user (service_error unauthorized)

-- The id in the path: missing, no int64, or read. Negative ids, which no row has, are left out.
pub data PathId : Type 0 where
  missing unreadable : PathId
  id : ℕ → PathId

abbrev pub read_path_id : PathId → Option ℕ
read_path_id missing = none
read_path_id unreadable = none
read_path_id (id n) = some n

unfoldable pub parse_path_id : PathId → M ℕ
parse_path_id p = or_raise (read_path_id p) (service_error bad_request)

-- The decoded body, if it can be decoded.
unfoldable pub decode_body : {A : Type 0} → Option A → M A
decode_body body = or_raise body (service_error bad_request)
