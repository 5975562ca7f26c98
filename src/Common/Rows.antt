-- ===== src/Common/Rows.antt =====
-- Tables as lists of rows: SELECT, UPDATE ... WHERE, and predicates over all rows.
use Prim.Native.Nat.{ℕ, suc}
use mathlib.Core.Path.{◌≡◌, refl, sym, ◌∙◌}
use mathlib.Core.Bool.{Bool, true, false, false≢true}
use mathlib.Core.List.{List, [], ◌∷◌, ◌++◌}
use telegram_ads_market.Common.Tests.{if◌then◌else◌}

module _ {ℓ} {A : Type ℓ} where
  abbrev pub length : List A → ℕ
  length [] = 0
  length (x ∷ xs) = suc (length xs)

  -- SELECT ... WHERE test, in the order of the table.
  abbrev pub select : (A → Bool) → List A → List A
  select test [] = []
  select test (x ∷ xs) = if test x then x ∷ select test xs else select test xs

  -- UPDATE ... SET change WHERE test.
  abbrev pub update : (A → Bool) → (A → A) → List A → List A
  update test change [] = []
  update test change (x ∷ xs) = (if test x then change x else x) ∷ update test change xs

  -- EXISTS (SELECT ... WHERE test).
  abbrev pub exists : (A → Bool) → List A → Bool
  exists test [] = false
  exists test (x ∷ xs) = if test x then true else exists test xs

  abbrev pub All {κ} : (A → Type κ) → List A → Type κ
  All P [] = Unit
  All P (x ∷ xs) = P x × All P xs

  pub All-update {κ} :
      (P : A → Type κ) (test : A → Bool) (change : A → A)
      → ((x : A) → test x ≡ true → P x → P (change x))
      → (xs : List A) → All P xs
      → All P (update test change xs)
  All-update P test change keep [] h = h
  All-update P test change keep (x ∷ xs) h =
      (one (test x) refl, All-update P test change keep xs h.1)
    where
      one : (b : Bool) → test x ≡ b → P (if b then change x else x)
      one true e = keep x e h.0
      one false e = h.0

  pub All-append {κ} : (P : A → Type κ) (xs ys : List A) → All P xs → All P ys → All P (xs ++ ys)
  All-append P [] ys hx hy = hy
  All-append P (x ∷ xs) ys hx hy = (hx.0, All-append P xs ys hx.1 hy)

  pub All-select {κ} :
      (P : A → Type κ) (test : A → Bool)
      → ((x : A) → test x ≡ true → P x)
      → (xs : List A) → All P (select test xs)
  All-select P test found [] = tt
  All-select P test found (x ∷ xs) = one (test x) refl (All-select P test found xs)
    where
      one :
          (b : Bool)
          → test x ≡ b
          → All P (select test xs)
          → All P (if b then x ∷ select test xs else select test xs)
      one true e rest = (found x e, rest)
      one false e rest = rest

  pub All-map {κ κ'} :
      (P : A → Type κ) (Q : A → Type κ')
      → ((x : A) → P x → Q x)
      → (xs : List A) → All P xs
      → All Q xs
  All-map P Q f [] h = tt
  All-map P Q f (x ∷ xs) h = (f x h.0, All-map P Q f xs h.1)

  -- What holds of the selected rows holds of every row that the test selects.
  pub All-of-select {κ} :
      (P : A → Type κ) (test : A → Bool) (xs : List A)
      → All P (select test xs)
      → All (λ x. test x ≡ true → P x) xs
  All-of-select P test [] h = tt
  All-of-select P test (x ∷ xs) h = one (test x) refl (All-of-select P test xs) h
    where
      one :
          (b : Bool)
          → test x ≡ b
          → (All P (select test xs) → All (λ y. test y ≡ true → P y) xs)
          → All P (if b then x ∷ select test xs else select test xs)
          → All (λ y. test y ≡ true → P y) (x ∷ xs)
      one true e rest k = (λ _. k.0, rest k.1)
      one false e rest k = (λ t. absurd (false≢true (sym e ∙ t)), rest k)

  pub All-zip {κ κ' κ''} :
      (P : A → Type κ) (Q : A → Type κ') (R : A → Type κ'')
      → ((x : A) → P x → Q x → R x)
      → (xs : List A) → All P xs
      → All Q xs
      → All R xs
  All-zip P Q R f [] p q = tt
  All-zip P Q R f (x ∷ xs) p q = (f x p.0 q.0, All-zip P Q R f xs p.1 q.1)

  pub All-of {κ} : (P : A → Type κ) → ((x : A) → P x) → (xs : List A) → All P xs
  All-of P f [] = tt
  All-of P f (x ∷ xs) = (f x, All-of P f xs)

  pub All-updated {κ} :
      (P : A → Type κ) (test : A → Bool) (change : A → A) (xs : List A)
      → All (λ x. P (if test x then change x else x)) xs
      → All P (update test change xs)
  All-updated P test change [] h = tt
  All-updated P test change (x ∷ xs) h = (h.0, All-updated P test change xs h.1)

  -- An update under a further fact about each row.
  pub All-update-with {κ κ'} :
      (Q : A → Type κ) (P : A → Type κ') (test : A → Bool) (change : A → A)
      → ((x : A) → Q x → test x ≡ true → P x → P (change x))
      → (xs : List A) → All Q xs
      → All P xs
      → All P (update test change xs)
  All-update-with Q P test change keep [] q h = tt
  All-update-with Q P test change keep (x ∷ xs) q h =
      (one (test x) refl, All-update-with Q P test change keep xs q.1 h.1)
    where
      one : (b : Bool) → test x ≡ b → P (if b then change x else x)
      one true e = keep x q.0 e h.0
      one false e = h.0
