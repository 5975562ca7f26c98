-- ===== src/Market/PriceLaws.antt =====
-- What it means that a deal's terms match a listing, without the loop and its early ends.
use telegram_ads_market.Common.{
  ℕ, ◌-◌, ◌^◌, ltb, ◌≡◌, ◌⊎◌, inl, inr, refl, sym, ap, subst, ◌∙◌, String, Bool, true, false, not,
  ◌&&◌, ◌||◌, Option, none, some, List, [], ◌∷◌, if◌then◌else◌, Bool-cases, arith,
}
use mathlib.Core.Logic.{◌↔◌}
use telegram_ads_market.Common.Int.{ℤ, pos, ◌==ℤ◌, leb_ℤ}
use telegram_ads_market.Common.Text.{str_eq, eq_iff, eq_refl}
use telegram_ads_market.Market.Prices
use telegram_ads_market.Market.Prices.{
  PriceJson, PriceValue, text, number, number_text, other, is_duration, normalize_duration_type,
  parse_duration_hours, parse_price_as_int64, price_matches, pair_matches, any_slot_matches,
  deal_price_matches_listing,
}

==ℤ→eq : (a b : ℤ) → (a ==ℤ b) ≡ true → a ≡ b
==ℤ→eq a b h = ground arith

==ℤ_refl : (a : ℤ) → (a ==ℤ a) ≡ true
==ℤ_refl a = ground arith

-- The tests of the loop's body.
all_pass :
    (a b c d : Bool)
    → (if not a || not b then false else if c && not d then false else true) ≡ true
    → (a ≡ true) × (b ≡ true) × (c ≡ true → d ≡ true)
all_pass a b c d h = ground arith

pass_all :
    (a b c d : Bool)
    → a ≡ true
    → b ≡ true
    → d ≡ true
    → (if not a || not b then false else if c && not d then false else true) ≡ true
pass_all a b c d p q r = ground arith

normalize_duration : (s : String) → is_duration s ≡ true → normalize_duration_type s ≡ s
unfolding normalize_duration_type
normalize_duration s d = rw d

normalize_other : (s : String) → is_duration s ≡ false → normalize_duration_type s ≡ ""
unfolding normalize_duration_type
normalize_other s d = rw d

empty_is_no_duration : is_duration "" ≡ false
unfolding is_duration
empty_is_no_duration = refl

-- Two texts with the same normal form, one of them a duration, are the same.
same_duration :
    (dur type : String)
    → is_duration dur ≡ true
    → str_eq (normalize_duration_type dur) (normalize_duration_type type) ≡ true
    → dur ≡ type
same_duration dur type d e = elim (Bool-cases (is_duration type)) [
  | inl t ↦ sym (normalize_duration dur d) ∙ (eq_iff _ _).0 e ∙ normalize_duration type t
  | inr t ↦ absurd (
      let same : dur ≡ "" =
        sym (normalize_duration dur d) ∙ (eq_iff _ _).0 e ∙ normalize_other type t in
      cc (sym d ∙ ap is_duration same ∙ empty_is_no_duration))
]

saturated : (n : ℕ) → leb_ℤ (pos 0) (if ltb n (2 ^ 63) then pos n else pos (2 ^ 63 - 1)) ≡ true
saturated n = ground arith

-- The hours of a duration are never negative.
hours_pos : (s : String) → is_duration s ≡ true → leb_ℤ (pos 0) (parse_duration_hours s) ≡ true
unfolding parse_duration_hours
hours_pos s d = rw d (saturated _)

module _ (json : PriceJson) where
  -- A slot of a listing that offers these terms: a pair of the type, which is a duration such as
  -- "24hr", and the price; the hours of the deal are those of the duration.
  pub record Offers (type : String) (duration price : ℤ) (slot : String) : Type 0 where
    pub value : PriceValue json.Float
    pub pair : json.unmarshal_pair slot ≡ some (text type ∷ value ∷ [])
    pub is_a_duration : is_duration type ≡ true
    pub price_of : parse_price_as_int64 json value ≡ some price
    pub hours : parse_duration_hours type ≡ duration

  abbrev pub AnyOffers : String → ℤ → ℤ → List String → Type 0
  AnyOffers type duration price [] = ⊥
  AnyOffers type duration price (s ∷ ss) =
      Offers type duration price s ⊎ AnyOffers type duration price ss

  price_matches→Offers :
      (type : String) (duration price : ℤ) (dur : String) (p : Option ℤ)
      → is_duration dur ≡ true
      → price_matches json (normalize_duration_type type) duration price dur p ≡ true
      → (p ≡ some price) × (dur ≡ type) × (parse_duration_hours dur ≡ duration)
  unfolding price_matches
  price_matches→Offers type duration price dur none d h = absurd (cc)
  price_matches→Offers type duration price dur (some p) d h =
      let passed = all_pass _ _ _ _ h in
      (
        ap some (==ℤ→eq p price passed.1),
        same_duration dur type d passed.0,
        ==ℤ→eq (parse_duration_hours dur) duration (passed.2 (hours_pos dur d)),
      )

  Offers→price_matches :
      (type : String) (duration price : ℤ)
      → parse_duration_hours type ≡ duration
      → price_matches json (normalize_duration_type type) duration price type (some price) ≡ true
  unfolding price_matches
  Offers→price_matches type duration price h =
      pass_all _ _ _ _ (eq_refl (normalize_duration_type type)) (==ℤ_refl price) (
        subst (λ n. (parse_duration_hours type ==ℤ n) ≡ true) h
          (==ℤ_refl (parse_duration_hours type)))

  pair_matches→Offers :
      (type : String) (duration price : ℤ) (slot : String)
      (o : Option (List (PriceValue json.Float)))
      → json.unmarshal_pair slot ≡ o
      → pair_matches json (normalize_duration_type type) duration price o ≡ true
      → Offers type duration price slot
  unfolding pair_matches
  pair_matches→Offers type duration price slot (some (text dur ∷ v ∷ [])) e h =
      elim (Bool-cases (is_duration dur)) [
        | inl d ↦
            let found =
              price_matches→Offers type duration price dur (parse_price_as_int64 json v) d
                (matched d) in
            record {
              value = v;
              pair = e ∙ ap (λ t. some (text t ∷ v ∷ [])) found.1;
              is_a_duration = subst (λ t. is_duration t ≡ true) found.1 d;
              price_of = found.0;
              hours = ap parse_duration_hours (sym found.1) ∙ found.2;
            }
        | inr d ↦ absurd (not_matched d)
      ]
    where
      matched :
          is_duration dur ≡ true
          → price_matches json
              (normalize_duration_type type)
              duration
              price
              dur
              (parse_price_as_int64 json v)
            ≡ true
      matched d = ground (arith, h, d)

      not_matched : is_duration dur ≡ false → ⊥
      not_matched d = ground (arith, h, d)
  pair_matches→Offers type duration price slot _ e h = absurd (cc)

  Offers→pair_matches :
      (type : String) (duration price : ℤ) (slot : String)
      → Offers type duration price slot
      → pair_matches json (normalize_duration_type type) duration price (json.unmarshal_pair slot)
        ≡ true
  unfolding pair_matches
  Offers→pair_matches type duration price slot o =
      rw (o.pair, pair_matches, o.is_a_duration, o.price_of)
        (Offers→price_matches type duration price o.hours)

  any_slot_matches→AnyOffers :
      (type : String) (duration price : ℤ) (slots : List String)
      → any_slot_matches json (normalize_duration_type type) duration price slots ≡ true
      → AnyOffers type duration price slots
  unfolding any_slot_matches
  any_slot_matches→AnyOffers type duration price [] h = absurd (cc)
  any_slot_matches→AnyOffers type duration price (s ∷ ss) h =
      go _ refl h (any_slot_matches→AnyOffers type duration price ss)
    where
      go :
          (b : Bool)
          → pair_matches json (normalize_duration_type type) duration price (json.unmarshal_pair s)
            ≡ b
          → (if b
              then true
              else any_slot_matches json (normalize_duration_type type) duration price ss)
            ≡ true
          → (any_slot_matches json (normalize_duration_type type) duration price ss ≡ true
              → AnyOffers type duration price ss)
          → Offers type duration price s ⊎ AnyOffers type duration price ss
      go true e g rest = inl (pair_matches→Offers type duration price s _ refl e)
      go false e g rest = inr (rest g)

  AnyOffers→any_slot_matches :
      (type : String) (duration price : ℤ) (slots : List String)
      → AnyOffers type duration price slots
      → any_slot_matches json (normalize_duration_type type) duration price slots ≡ true
  unfolding any_slot_matches
  AnyOffers→any_slot_matches type duration price [] h = absurd h
  AnyOffers→any_slot_matches type duration price (s ∷ ss) (inl o) =
      rw (Offers→pair_matches type duration price s o)
  AnyOffers→any_slot_matches type duration price (s ∷ ss) (inr h) =
      last_one
        (pair_matches json (normalize_duration_type type) duration price (json.unmarshal_pair s))
        (AnyOffers→any_slot_matches type duration price ss h)
    where
      last_one : (b : Bool) {c : Bool} → c ≡ true → (if b then true else c) ≡ true
      last_one true e = refl
      last_one false e = e

  -- The prices of a listing are decoded, and one of the slots offers these terms.
  pub record IsOffered (prices type : String) (duration price : ℤ) : Type 0 where
    pub not_empty : str_eq prices "" ≡ false
    pub slots : List String
    pub decoded : json.unmarshal_slots prices ≡ some slots
    pub offered : AnyOffers type duration price slots

  -- The terms of a deal match a listing exactly when the prices of the listing are decoded and one of
  -- the slots offers these terms: it is a pair of the deal's type, a duration such as "24hr", and the
  -- deal's price in nanotons, and the deal's duration is the number of its hours.
  pub deal_price_matches_listing-iff-IsOffered :
      (prices type : String) (duration price : ℤ)
      → (deal_price_matches_listing json prices type duration price ≡ true)
        ↔ IsOffered prices type duration price
  unfolding deal_price_matches_listing
  deal_price_matches_listing-iff-IsOffered prices type duration price = (
    go (str_eq prices "") (json.unmarshal_slots prices) refl refl,
    λ o.
        rw (o.not_empty, o.decoded)
          (AnyOffers→any_slot_matches type duration price o.slots o.offered),
  )
    where
      go :
          (b : Bool) (o : Option (List String))
          → str_eq prices "" ≡ b
          → json.unmarshal_slots prices ≡ o
          → (if b
              then false
              else Prices.slots_match json (normalize_duration_type type) duration price o)
            ≡ true
          → IsOffered prices type duration price
      go true o e f h = absurd (cc)
      go false none e f h = absurd (cc)
      go false (some slots) e f h = record {
        not_empty = e;
        slots = slots;
        decoded = f;
        offered = any_slot_matches→AnyOffers type duration price slots h;
      }
