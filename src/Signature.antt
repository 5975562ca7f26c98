-- ===== src/Signature.antt =====
-- internal/market/domain/deal_signature.go: what a party signs, and when both signatures match.
use telegram_ads_market.Common.{
  ℕ, String, Bool, false, ◌&&◌, text_or_empty, holds_text, is_none, if◌then◌else◌, ◌||◌,
}
use telegram_ads_market.Common.Int.{ℤ, pos}
use telegram_ads_market.Common.Text.{◌<>◌, show_ℤ}
use telegram_ads_market.Entity.{Deal}
use telegram_ads_market.External.{External}

-- The bytes that are hashed: the fields one after another, with nothing between them.
unfoldable pub signed_text : String → ℤ → ℤ → String → ℕ → String → String → String
signed_text deal_type duration price details user_id lessor_payout lessee_payout =
    deal_type
    <> (show_ℤ duration
        <> (show_ℤ price
            <> (details <> (show_ℤ (pos user_id) <> (lessor_payout <> lessee_payout)))))

module _ (ext : External) where
  unfoldable pub compute_deal_signature : String → ℤ → ℤ → String → ℕ → String → String → String
  compute_deal_signature deal_type duration price details user_id lessor_payout lessee_payout =
      ext.sha256_hex
        (signed_text deal_type duration price details user_id lessor_payout lessee_payout)

  -- The signature that a user's consent to the present terms of the deal has.
  unfoldable pub expected_signature : Deal → ℕ → String
  expected_signature d user_id =
      compute_deal_signature d.type d.duration d.price d.details user_id
        (text_or_empty d.lessor_payout_address) (text_or_empty d.lessee_payout_address)

  unfoldable pub deal_signatures_match : Deal → Bool
  deal_signatures_match d =
      if is_none d.lessor_signature || is_none d.lessee_signature
      then false
      else (holds_text d.lessor_signature (expected_signature d d.lessor_id)
          && holds_text d.lessee_signature (expected_signature d d.lessee_id))
