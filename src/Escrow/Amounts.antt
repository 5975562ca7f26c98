-- ===== src/Escrow/Amounts.antt =====
-- internal/market/service/escrow/calculations.go: the deposit that is asked for a price, and the
-- price that is paid out of it. float64 is a parameter: its operations, and how close they come.
use telegram_ads_market.Common.{ℕ, ◌+◌, ◌*◌, ◌^◌, ◌≤◌, ◌<◌, ◌≡◌, ap, ◌∙◌, arith}
use telegram_ads_market.Common.Int.{ℤ, pos, ◌+ℤ◌, ◌-ℤ◌, wrap64, wrap64_exact}

-- Go's float64 with the conversions that the program uses. `round_to_int64 x` is
-- `int64(math.Round(x))`.
pub record Float64 : Type 1 where
  pub F : Type 0
  pub of_int64 : ℤ → F
  pub mul : F → F → F
  pub div : F → F → F
  pub round_to_int64 : F → ℤ

module _ (fl : Float64) (transaction_gas_nanoton : ℤ) (comission_multiplier : fl.F) where
  unfoldable pub compute_escrow_amount : ℤ → ℤ
  compute_escrow_amount price_nanoton =
      let amount_with_comission =
        fl.round_to_int64 (fl.mul (fl.of_int64 price_nanoton) comission_multiplier) in
      wrap64 (amount_with_comission +ℤ transaction_gas_nanoton)

  unfoldable pub get_amount_without_gas_and_commission : ℤ → ℤ
  get_amount_without_gas_and_commission amount_nanoton =
      let amount_without_gas = wrap64 (amount_nanoton -ℤ transaction_gas_nanoton) in
      fl.round_to_int64 (fl.div (fl.of_int64 amount_without_gas) comission_multiplier)

-- The multiplier stands for num / den, and a product or a quotient of a number below `limit`,
-- rounded to a whole number, is within 0.501 of the exact value: a half for math.Round, and one
-- thousandth for the rounding of the operation itself, which IEEE 754 meets far beyond any price.
pub record Accurate (fl : Float64) (multiplier : fl.F) (num den limit : ℕ) : Type 0 where
  pub product : ℕ → ℕ
  pub quotient : ℕ → ℕ
  pub product_value :
      (p : ℕ)
      → p < limit
      → fl.round_to_int64 (fl.mul (fl.of_int64 (pos p)) multiplier) ≡ pos (product p)
  pub product_below : (p : ℕ) → p < limit → 1000 * (den * product p) ≤ 1000 * (num * p) + 501 * den
  pub product_above : (p : ℕ) → p < limit → 1000 * (num * p) ≤ 1000 * (den * product p) + 501 * den
  pub quotient_value :
      (a : ℕ)
      → a < limit
      → fl.round_to_int64 (fl.div (fl.of_int64 (pos a)) multiplier) ≡ pos (quotient a)
  pub quotient_below :
      (a : ℕ) → a < limit → 1000 * (num * quotient a) ≤ 1000 * (den * a) + 501 * num
  pub quotient_above :
      (a : ℕ) → a < limit → 1000 * (den * a) ≤ 1000 * (num * quotient a) + 501 * num

cancel : (n a b : ℕ) → n * a < n * b + n → a ≤ b
cancel n a b h = grind arith

-- Two roundings one after the other come back to the price, if the commission is above 0.41 %.
rounds_back :
    (num den p a r : ℕ)
    → 501 * den < 499 * num
    → 1000 * (den * a) ≤ 1000 * (num * p) + 501 * den
    → 1000 * (num * p) ≤ 1000 * (den * a) + 501 * den
    → 1000 * (num * r) ≤ 1000 * (den * a) + 501 * num
    → 1000 * (den * a) ≤ 1000 * (num * r) + 501 * num
    → r ≡ p
rounds_back num den p a r c h1 h2 h3 h4 =
    omega (arith, cancel num r p (omega arith), cancel num p r (omega arith))

plus_fits : (a b : ℕ) → a + b < 2 ^ 63 → wrap64 (pos a +ℤ pos b) ≡ pos (a + b)
unfolding ◌+ℤ◌
plus_fits a b h =
    let sum : pos a +ℤ pos b ≡ pos (a + b) = ground arith in
    ap wrap64 sum ∙ wrap64_exact (pos (a + b)) (ground arith)

minus_fits : (a b : ℕ) → a + b < 2 ^ 63 → wrap64 (pos (a + b) -ℤ pos b) ≡ pos a
unfolding ◌-ℤ◌
minus_fits a b h =
    let difference : pos (a + b) -ℤ pos b ≡ pos a = ground arith in
    ap wrap64 difference ∙ wrap64_exact (pos a) (ground arith)

module _ (fl : Float64) (multiplier : fl.F) (num den limit : ℕ)
    (close : Accurate fl multiplier num den limit) where
  -- The amount that a payout sends is exactly the agreed price: what is computed back from the
  -- escrow amount of a price is that price. The price and the product that the price is rounded to
  -- are within the range in which float64 is accurate, the commission is above 0.41 %, and the
  -- escrow amount is within an int64.
  pub payout_is_the_price :
      (gas p : ℕ)
      → 501 * den < 499 * num
      → p < limit
      → close.product p < limit
      → close.product p + gas < 2 ^ 63
      → get_amount_without_gas_and_commission fl
          (pos gas)
          multiplier
          (compute_escrow_amount fl (pos gas) multiplier (pos p))
        ≡ pos p
  unfolding get_amount_without_gas_and_commission compute_escrow_amount
  payout_is_the_price gas p c below inside fits =
      let product = close.product p in
      let deposit : compute_escrow_amount fl (pos gas) multiplier (pos p) ≡ pos (product + gas) =
        ap (λ x. wrap64 (x +ℤ pos gas)) (close.product_value p below)
        ∙ plus_fits product gas fits in
      let price : fl.round_to_int64
            (fl.div (fl.of_int64 (wrap64 (pos (product + gas) -ℤ pos gas))) multiplier)
          ≡ pos (close.quotient product) =
        ap (λ x. fl.round_to_int64 (fl.div (fl.of_int64 x) multiplier))
          (minus_fits product gas fits)
        ∙ close.quotient_value product inside in
      ap (get_amount_without_gas_and_commission fl (pos gas) multiplier) deposit
      ∙ price
      ∙ ap pos (
          rounds_back num den p product (close.quotient product) c (close.product_below p below)
            (close.product_above p below) (close.quotient_below product inside)
            (close.quotient_above product inside))
