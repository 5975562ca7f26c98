-- ===== src/Lifecycle/Unique.antt =====
-- What distinct keys give: a fact about one row is a fact about every row with its key.
use telegram_ads_market.Common.{
  ℕ, ◌≡◌, ◌≢◌, refl, sym, Bool, true, false, List, [], ◌∷◌, map, ==→eq, Bool-cases, inl, inr, ◌==◌,
  if◌then◌else◌, select, All, All-map, All-zip, All-of, arith,
}
use telegram_ads_market.Repository.Posts.{is_any}
use telegram_ads_market.Lifecycle.Keys.{Distinct}

module _ {A : Type 0} (key : A → ℕ) where
  pub unkey : (P : ℕ → Type 0) (xs : List A) → All P (map key xs) → All (λ x. P (key x)) xs
  unkey P [] h = tt
  unkey P (x ∷ xs) h = (h.0, unkey P xs h.1)

  rekey : (P : ℕ → Type 0) (xs : List A) → All (λ x. P (key x)) xs → All P (map key xs)
  rekey P [] h = tt
  rekey P (x ∷ xs) h = (h.0, rekey P xs h.1)

  pub unique :
      (P : A → Type 0) (xs : List A)
      → Distinct (map key xs)
      → All (λ a. P a → All (λ b. key b ≡ key a → P b) xs) xs
  unique P [] d = tt
  unique P (x ∷ xs) d = (
    λ p. (λ _. p, All-map _ _ (λ b n e. absurd (n e)) xs others),
    All-zip _ _ _ (λ a n f p. (λ e. absurd (n (sym e)), f p)) xs others (unique P xs d.1),
  )
    where
      others : All (λ b. key b ≢ key x) xs
      others = unkey (λ n. n ≢ key x) xs d.0

  -- What holds of every row holds of the selected ones, which also pass the test.
  pub All-selected :
      (P : A → Type 0) (test : A → Bool) (xs : List A)
      → All P xs
      → All (λ x. (test x ≡ true) × P x) (select test xs)
  All-selected P test [] h = tt
  All-selected P test (x ∷ xs) h = one (test x) refl (All-selected P test xs h.1)
    where
      one :
          (b : Bool)
          → test x ≡ b
          → All (λ y. (test y ≡ true) × P y) (select test xs)
          → All (λ y. (test y ≡ true) × P y) (if b then x ∷ select test xs else select test xs)
      one true e rest = ((e, h.0), rest)
      one false e rest = rest

  pub Distinct-select :
      (test : A → Bool) (xs : List A) → Distinct (map key xs) → Distinct (map key (select test xs))
  Distinct-select test [] d = tt
  Distinct-select test (x ∷ xs) d = one (test x) (Distinct-select test xs d.1)
    where
      others : All (λ y. y ≢ key x) (map key (select test xs))
      others =
          rekey (λ n. n ≢ key x) (select test xs)
            (All-map _ _ (λ y h. h.1) (select test xs)
              (All-selected (λ y. key y ≢ key x) test xs (unkey (λ n. n ≢ key x) xs d.0)))

      one :
          (b : Bool)
          → Distinct (map key (select test xs))
          → Distinct (map key (if b then x ∷ select test xs else select test xs))
      one true rest = (others, rest)
      one false rest = rest

  -- A row whose key is one of the selected rows' keys.
  pub any_of :
      (P : A → Type 0) (sel xs : List A)
      → All (λ a. All (λ b. key b ≡ key a → P b) xs) sel
      → All (λ b. is_any (map key sel) (key b) ≡ true → P b) xs
  any_of P [] xs h = All-of _ (λ b e. absurd (cc)) xs
  any_of P (a ∷ sel) xs h =
      All-zip _ _ _
        (λ b f g e. elim (Bool-cases (key a == key b)) [
          | inl t ↦ f (sym (==→eq (key a) (key b) t))
          | inr t ↦ g (ground (arith, e, t))
        ])
        xs h.0 (any_of P sel xs h.1)
