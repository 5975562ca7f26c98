-- ===== src/Market/Prices.antt =====
-- internal/market/domain/listing_prices.go, price.go and listing_categories.go. What the standard
-- library does with JSON and with float64 is a parameter; the duration texts are read here.
use telegram_ads_market.Common.{
  ℕ, ◌+◌, ◌*◌, ◌-◌, ◌^◌, String, Bool, true, false, not, ◌&&◌, ◌||◌, Option, none, some, List, [],
  ◌∷◌, ◌==◌, ltb, leb, if◌then◌else◌, exists,
}
use Prim.Native.Char.{code}
use telegram_ads_market.Common.Int.{ℤ, pos, negsuc, ◌==ℤ◌, leb_ℤ}
use telegram_ads_market.Common.Text.{str_eq}

-- A decoded JSON value, as far as the prices tell values apart.
pub data PriceValue (Float : Type 0) : Type 0 where
  text : String → PriceValue Float
  number : Float → PriceValue Float
  number_text : String → PriceValue Float
  other : PriceValue Float

pub record PriceJson : Type 1 where
  pub Float : Type 0
  -- `json.Unmarshal` into a slice of raw messages, and of one of these into a slice of values.
  pub unmarshal_slots : String → Option (List String)
  pub unmarshal_pair : String → Option (List (PriceValue Float))
  -- `json.Marshal` of pairs of a value and a number.
  pub marshal_nanotons : List (PriceValue Float × ℤ) → String
  pub marshal_tons : List (PriceValue Float × Float) → String
  -- float64: the conversion to int64 and back, the tests `x < 0` and `x != x`, and the arithmetic.
  pub to_int64 : Float → ℤ
  pub of_int64 : ℤ → Float
  pub is_negative : Float → Bool
  pub is_nan : Float → Bool
  pub round : Float → Float
  pub times : Float → Float → Float
  pub over : Float → Float → Float
  pub nanoton_per_ton : Float
  -- `json.Number`: its int64 and its float64, or an error.
  pub number_int64 : String → Option ℤ
  pub number_float64 : String → Option Float

abbrev pub codes : String → List ℕ
codes String.[] = []
codes (String.◌∷◌ c s) = code c ∷ codes s

abbrev is_digit : ℕ → Bool
is_digit c = leb b'0' c && leb c b'9'

abbrev is_hr : List ℕ → Bool
is_hr (h ∷ r ∷ []) = (h == b'h') && (r == b'r')
is_hr _ = false

-- `\d*hr$`
after_digits : List ℕ → Bool
after_digits [] = false
after_digits (c ∷ s) = if is_digit c then after_digits s else is_hr (c ∷ s)

abbrev matches : List ℕ → Bool
matches [] = false
matches (c ∷ s) = is_digit c && after_digits s

-- `durationRegex.MatchString`, for `^\d+hr$`
unfoldable pub is_duration : String → Bool
unfolding after_digits
is_duration s = matches (codes s)

unfoldable pub normalize_duration_type : String → String
normalize_duration_type s = if is_duration s then s else ""

leading_number : ℕ → List ℕ → ℕ
leading_number n [] = n
leading_number n (c ∷ s) = if is_digit c then leading_number (n * 10 + (c - b'0')) s else n

-- `strconv.ParseInt` without its error: a number that is too large becomes the largest int64.
abbrev saturate : ℕ → ℤ
saturate n = if ltb n (2 ^ 63) then pos n else pos (2 ^ 63 - 1)

unfoldable pub parse_duration_hours : String → ℤ
unfolding leading_number
parse_duration_hours s = if is_duration s then saturate (leading_number 0 (codes s)) else negsuc 0

module _ (json : PriceJson) where
  unfoldable pub parse_price_as_int64 : PriceValue json.Float → Option ℤ
  parse_price_as_int64 (number x) = some (json.to_int64 x)
  parse_price_as_int64 (number_text s) = json.number_int64 s
  parse_price_as_int64 (text s) = none
  parse_price_as_int64 other = none

  unfoldable pub parse_price_number : PriceValue json.Float → Option json.Float
  parse_price_number (number x) = some x
  parse_price_number (number_text s) = json.number_float64 s
  parse_price_number (text s) = none
  parse_price_number other = none

  -- The rest of the loop's body, for a duration text and a price.
  unfoldable pub price_matches : String → ℤ → ℤ → String → Option ℤ → Bool
  price_matches type_norm duration price dur none = false
  price_matches type_norm duration price dur (some p) =
      if not (str_eq (normalize_duration_type dur) type_norm) || not (p ==ℤ price)
      then false
      else if leb_ℤ (pos 0) (parse_duration_hours dur)
          && not (parse_duration_hours dur ==ℤ duration)
      then false
      else true

  unfoldable pub pair_matches : String → ℤ → ℤ → Option (List (PriceValue json.Float)) → Bool
  pair_matches type_norm duration price none = false
  pair_matches type_norm duration price (some (text dur ∷ v ∷ [])) =
      if not (is_duration dur)
      then false
      else price_matches type_norm duration price dur (parse_price_as_int64 v)
  pair_matches type_norm duration price (some _) = false

  unfoldable pub any_slot_matches : String → ℤ → ℤ → List String → Bool
  any_slot_matches type_norm duration price [] = false
  any_slot_matches type_norm duration price (s ∷ ss) =
      if pair_matches type_norm duration price (json.unmarshal_pair s)
      then true
      else any_slot_matches type_norm duration price ss

  abbrev pub slots_match : String → ℤ → ℤ → Option (List String) → Bool
  slots_match type_norm duration price none = false
  slots_match type_norm duration price (some slots) =
      any_slot_matches type_norm duration price slots

  unfoldable pub deal_price_matches_listing : String → String → ℤ → ℤ → Bool
  deal_price_matches_listing prices type duration price =
      if str_eq prices ""
      then false
      else slots_match (normalize_duration_type type) duration price (json.unmarshal_slots prices)

  -- A price that ValidateListingPrices accepts.
  unfoldable pub is_valid_price : PriceValue json.Float → Bool
  is_valid_price (number x) = not (json.is_negative x || json.is_nan x)
  is_valid_price (number_text s) = elim (json.number_float64 s) [
    | none ↦ false
    | some x ↦ not (str_eq s "" || json.is_negative x || json.is_nan x)
  ]
  is_valid_price (text s) = false
  is_valid_price other = false

  unfoldable pub is_valid_pair : Option (List (PriceValue json.Float)) → Bool
  is_valid_pair (some (text dur ∷ v ∷ [])) = is_duration dur && is_valid_price v
  is_valid_pair (some _) = false
  is_valid_pair none = false

  all_valid : List String → Bool
  unfolding is_valid_pair
  all_valid [] = true
  all_valid (s ∷ ss) = is_valid_pair (json.unmarshal_pair s) && all_valid ss

  unfoldable pub validate_listing_prices : String → Bool
  unfolding all_valid
  validate_listing_prices raw =
      if str_eq raw ""
      then true
      else elim (json.unmarshal_slots raw) [ none ↦ false | some slots ↦ all_valid slots ]

  unfoldable pub ton_to_nanoton : json.Float → ℤ
  ton_to_nanoton ton = json.to_int64 (json.round (json.times ton json.nanoton_per_ton))

  unfoldable pub nanoton_to_ton : ℤ → json.Float
  nanoton_to_ton nanoton = json.over (json.of_int64 nanoton) json.nanoton_per_ton

  abbrev pub nanoton_of_price : Option json.Float → Option ℤ
  nanoton_of_price none = none
  nanoton_of_price (some ton) = if json.is_negative ton then none else some (ton_to_nanoton ton)

  -- One slot of the conversion; what cannot be read is left out.
  unfoldable pub nanoton_pair :
      Option (List (PriceValue json.Float)) → Option (PriceValue json.Float × ℤ)
  nanoton_pair (some (d ∷ v ∷ [])) = elim (nanoton_of_price (parse_price_number v)) [
    | none ↦ none
    | some n ↦ some (d, n)
  ]
  nanoton_pair (some _) = none
  nanoton_pair none = none

  unfoldable pub ton_pair :
      Option (List (PriceValue json.Float)) → Option (PriceValue json.Float × json.Float)
  ton_pair (some (d ∷ v ∷ [])) = elim (parse_price_as_int64 v) [
    | none ↦ none
    | some n ↦ some (d, nanoton_to_ton n)
  ]
  ton_pair (some _) = none
  ton_pair none = none

  pub filter_map : {A B : Type 0} → (A → Option B) → List A → List B
  filter_map f [] = []
  filter_map f (x ∷ xs) =
      let rest = filter_map f xs in elim (f x) [ none ↦ rest | some y ↦ y ∷ rest ]

  unfoldable pub convert_listing_prices_ton_to_nanoton : String → Option String
  unfolding filter_map
  convert_listing_prices_ton_to_nanoton raw =
      if str_eq raw "" then some raw else elim (json.unmarshal_slots raw) [
        | none ↦ none
        | some slots ↦
            some
              (json.marshal_nanotons (filter_map (λ s. nanoton_pair (json.unmarshal_pair s)) slots))
      ]

  unfoldable pub convert_listing_prices_nanoton_to_ton : String → Option String
  unfolding filter_map
  convert_listing_prices_nanoton_to_ton raw =
      if str_eq raw "" then some raw else elim (json.unmarshal_slots raw) [
        | none ↦ none
        | some slots ↦
            some (json.marshal_tons (filter_map (λ s. ton_pair (json.unmarshal_pair s)) slots))
      ]

abbrev pub listing_categories : List String
listing_categories =
    "Tech" ∷ "Crypto" ∷ "Gaming" ∷ "News" ∷ "Education" ∷ "Entertainment" ∷ "Lifestyle" ∷ "Business"
    ∷ "Finance" ∷ "Sports" ∷ "Other" ∷ []

abbrev is_listing_category : String → Bool
is_listing_category c = exists (λ k. str_eq k c) listing_categories

-- An empty text passes.
unfoldable pub validate_listing_categories : List String → Bool
validate_listing_categories [] = true
validate_listing_categories (c ∷ cs) =
    (str_eq c "" || is_listing_category c) && validate_listing_categories cs
