-- ===== src/Market/DealDetails.antt =====
-- ValidateDealDetails of internal/market/domain/deal_details.go. The print of the canonical object is
-- a parameter: `json.Marshal` of a map with the fields that are not empty. The column is JSONB, so
-- the text of the parameter stands for what Postgres prints of this object when it is read back.
use telegram_ads_market.Common.{
  String, Bool, true, false, ◌||◌, ◌&&◌, not, Option, none, some, List, [], ◌∷◌, if◌then◌else◌,
}
use telegram_ads_market.Common.Text.{str_eq}
use telegram_ads_market.External.{External, Json, text, null, other}
use telegram_ads_market.Details.{member}

unfoldable pub only_known_members : List (String × Json) → Bool
only_known_members [] = true
only_known_members ((k, v) ∷ m) =
    (str_eq k "message" || str_eq k "posted_at") && only_known_members m

-- A member that is missing or null counts as empty; one that is no text is an error.
unfoldable pub optional_text : Option Json → Option String
optional_text none = some ""
optional_text (some null) = some ""
optional_text (some (text s)) = some s
optional_text (some other) = none

module _ (ext : External) (marshal_details : String → String → String) where
  -- An empty time passes; another one must be readable.
  abbrev pub is_time : String → Bool
  is_time s = str_eq s "" || elim (ext.parse_rfc3339 s) [ none ↦ false | some t ↦ true ]

  abbrev pub canonical : Option String → Option String → Option String
  canonical none posted_at = none
  canonical (some message) none = none
  canonical (some message) (some posted_at) =
      if is_time posted_at then some (marshal_details message posted_at) else none

  unfoldable pub validate_deal_details : String → Option String
  unfolding only_known_members optional_text member
  validate_deal_details raw =
      if str_eq raw "" || str_eq raw "null" then some "{}" else elim (ext.unmarshal_object raw) [
        | none ↦ none
        | some m ↦
            if not (only_known_members m)
            then none
            else canonical (optional_text (member "message" m))
                (optional_text (member "posted_at" m))
      ]
