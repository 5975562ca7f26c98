-- ===== src/Details.antt =====
-- internal/market/domain/deal_details.go: the fields that the services read from a deal's details.
use telegram_ads_market.Common.{
  ℕ, String, Bool, ◌&&◌, ◌||◌, Option, none, some, List, [], ◌∷◌, ◌==◌, leb, if◌then◌else◌,
}
use telegram_ads_market.Common.Int.{ℤ}
use telegram_ads_market.Common.Text.{str_eq}
use telegram_ads_market.External.{External, Json, text, null, other}
use Prim.Native.Char.{code}

unfoldable pub member : String → List (String × Json) → Option Json
member k [] = none
member k ((j, v) ∷ m) = if str_eq j k then some v else member k m

-- A text member; nothing where it is missing, null or of another kind.
unfoldable pub text_of : Option Json → Option String
text_of (some (text s)) = some s
text_of (some null) = none
text_of (some other) = none
text_of none = none

abbrev or_empty : Option String → String
or_empty (some s) = s
or_empty none = ""

module _ (ext : External) where
  unfoldable pub get_message_from_details : String → String
  unfolding member text_of
  get_message_from_details details =
      if str_eq details "" || str_eq details "null"
      then ""
      else elim (ext.unmarshal_object details) [
        | none ↦ ""
        | some m ↦ or_empty (text_of (member "message" m))
      ]

  -- The time of `posted_at`, or nothing where it is not set or invalid.
  unfoldable pub get_posted_at_from_details : String → Option ℤ
  unfolding member text_of
  get_posted_at_from_details details =
      if str_eq details "" || str_eq details "null"
      then none
      else elim (ext.unmarshal_object details) [
        | none ↦ none
        | some m ↦ elim (text_of (member "posted_at" m)) [
          | none ↦ none
          | some s ↦ if str_eq s "" then none else ext.parse_rfc3339 s
        ]
      ]

-- unicode.IsSpace
is_space : ℕ → Bool
is_space c =
    (leb 9 c && leb c 13)
    || (c == 32)
    || (c == 0x85)
    || (c == 0xa0)
    || (c == 0x1680)
    || (leb 0x2000 c && leb c 0x200a)
    || (c == 0x2028)
    || (c == 0x2029)
    || (c == 0x202f)
    || (c == 0x205f)
    || (c == 0x3000)

-- strings.TrimSpace(s) == ""
unfoldable pub is_blank : String → Bool
unfolding is_space
is_blank String.[] = Bool.true
is_blank (String.◌∷◌ c s) = is_space (code c) && is_blank s
