-- ===== src/Effects/Laws.antt =====
-- The cases of a call, and of each way in which a service goes on after one: to prove a statement
-- of the outcome, prove it for each case.
use telegram_ads_market.Common.{
  ◌≡◌, refl, Bool, true, false, Option, none, some, List, [], ◌∷◌, if◌then◌else◌, All, arith,
}
use telegram_ads_market.Effects.Monad
use telegram_ads_market.Repository.{Db, exactly_one}
use telegram_ads_market.Effects.Monad.{
  Fate, works, refused, unanswered, World, Error, call_failed, not_found, collect, Result, ok, err,
  M, Done, pure, ◌>>=◌, ◌>>◌, ignore, fail_if, or_raise, sql_now, arrive, next_fate, call, exec,
  query, statement, read, read_one, found, require, end_tx, transaction, for_each,
}

abbrev pub Outcomes : Type 0 → Type 0
Outcomes A = Result A × World

pub call_cases :
    {A : Type 0} (P : Outcomes A → Type 0) (value : World → A) (effect : World → World) (w : World)
    → P (ok (value (arrive w)), effect (arrive w))
    → P (err call_failed, arrive w)
    → P (err call_failed, effect (arrive w))
    → P (call value effect w)
unfolding call
call_cases {A} P value effect w a b c = go (next_fate w)
  where
    go : (f : Fate) → P (Monad.settle f value effect (arrive w))
    go works = a
    go refused = b
    go unanswered = c

module _ {A : Type 0} where
  pub then_call :
      {B : Type 0} (P : Outcomes B → Type 0) (value : World → A) (effect : World → World)
      (k : A → M B) (w : World)
      → P (k (value (arrive w)) (effect (arrive w)))
      → P (err call_failed, arrive w)
      → P (err call_failed, effect (arrive w))
      → P ((call value effect >>= k) w)
  unfolding ◌>>=◌
  then_call P value effect k w =
      call_cases (λ o. P (let (r, w') = o in elim r [ ok a ↦ k a w' | err e ↦ (err e, w') ])) value
        effect w

  pub then_query :
      {B : Type 0} (P : Outcomes B → Type 0) (value : World → A) (k : A → M B) (w : World)
      → P (k (value (arrive w)) (arrive w))
      → P (err call_failed, arrive w)
      → P ((query value >>= k) w)
  then_query P value k w a b = then_call P value (λ v. v) k w a b b

  -- A call whose error is dropped.
  pub then_ignore :
      {B : Type 0} (P : Outcomes B → Type 0) (value : World → A) (effect : World → World) (k : M B)
      (w : World)
      → P (k (effect (arrive w)))
      → P (k (arrive w))
      → P ((ignore (call value effect) >> k) w)
  unfolding ◌>>=◌ ignore
  then_ignore P value effect k w a b =
      call_cases (λ o. P (let (r, w') = o in k w')) value effect w a b a

  -- `if err != nil || x == nil { return ErrNotFound }`
  pub then_found :
      {B : Type 0} (P : Outcomes B → Type 0) (f : World → List A) (k : A → M B) (w : World)
      → ((d : A) → f (arrive w) ≡ d ∷ [] → P (k d (arrive w)))
      → P (err not_found, arrive w)
      → P ((found (read_one f) >>= k) w)
  unfolding ◌>>=◌ found read_one collect
  then_found {B} P f k w a b =
      call_cases
        (λ (o : Outcomes (List A)). P (
          bind (
            found
              (λ _.
                let (r, v) = o in
                elim r [ ok rows ↦ Monad.collect (exactly_one rows) v | err e ↦ (err e, v) ])
              w)))
        f (λ v. v) w (go (f (arrive w)) refl) b b
    where
      bind : Outcomes A → Outcomes B
      bind (r, w') = elim r [ ok x ↦ k x w' | err e ↦ (err e, w') ]

      go :
          (rows : List A)
          → f (arrive w) ≡ rows
          → P (bind (found (λ _. Monad.collect (exactly_one rows) (arrive w)) w))
      go [] e = b
      go (d ∷ []) e = a d e
      go (d ∷ d' ∷ ds) e = b

pub then_fail_if :
    {B : Type 0} (P : Outcomes B → Type 0) (test : Bool) (e : Error) (k : M B) (w : World)
    → (test ≡ true → P (err e, w))
    → (test ≡ false → P (k w))
    → P ((fail_if test e >> k) w)
unfolding ◌>>=◌ fail_if
then_fail_if {B} P test e k w a b = go test refl
  where
    go : (t : Bool) → test ≡ t → P ((fail_if t e >> k) w)
    go true h = a h
    go false h = b h

pub then_or_raise :
    {A B : Type 0} (P : Outcomes B → Type 0) (o : Option A) (e : Error) (k : A → M B) (w : World)
    → (o ≡ none → P (err e, w))
    → ((a : A) → o ≡ some a → P (k a w))
    → P ((or_raise o e >>= k) w)
unfolding ◌>>=◌ or_raise
then_or_raise {A} P o e k w a b = go o refl
  where
    go : (p : Option A) → o ≡ p → P ((or_raise p e >>= k) w)
    go none h = a h
    go (some x) h = b x h

-- A loop goes on from wherever its body has left the world.
pub for_each_inv :
    {A : Type 0} (I : World → Type 0) (body : A → M Done) (Q : A → Type 0)
    → ((a : A) (w : World) → Q a → I w → I (body a w).1)
    → (xs : List A) (w : World) → All Q xs
    → I w
    → I (for_each xs body w).1
unfolding for_each ◌>>=◌ ignore
for_each_inv I body Q keep [] w q h = h
for_each_inv I body Q keep (x ∷ xs) w q h =
    for_each_inv I body Q keep xs (body x w).1 q.1 (keep x w q.0 h)

module _ {A : Type 0} where
  -- A query for one row, with no row as a possible answer.
  pub then_read_one :
      {B : Type 0} (P : Outcomes B → Type 0) (f : World → List A) (k : Option A → M B) (w : World)
      → (f (arrive w) ≡ [] → P (k none (arrive w)))
      → ((d : A) → f (arrive w) ≡ d ∷ [] → P (k (some d) (arrive w)))
      → ((e : Error) → P (err e, arrive w))
      → P ((read_one f >>= k) w)
  unfolding ◌>>=◌ read_one collect
  then_read_one {B} P f k w a b c =
      call_cases
        (λ (o : Outcomes (List A)). P (
          bind (
            let (r, v) = o in
            elim r [ ok rows ↦ Monad.collect (exactly_one rows) v | err e ↦ (err e, v) ])))
        f (λ v. v) w (go (f (arrive w)) refl) (c call_failed) (c call_failed)
    where
      bind : Outcomes (Option A) → Outcomes B
      bind (r, w') = elim r [ ok x ↦ k x w' | err e ↦ (err e, w') ]

      go :
          (rows : List A)
          → f (arrive w) ≡ rows
          → P (bind (Monad.collect (exactly_one rows) (arrive w)))
      go [] e = a e
      go (d ∷ []) e = b d e
      go (d ∷ d' ∷ ds) e = c Monad.too_many

end_tx_cases :
    {A : Type 0} (R : Db → Type 0) (before : Db) (r : Result A) (w : World)
    → R before
    → R w.db
    → R (end_tx before r w).1.db
unfolding end_tx
end_tx_cases R before (err e) w a b = a
end_tx_cases {A} R before (ok x) w a b = go (next_fate w)
  where
    go : (f : Fate) → R (Monad.commit before x w f).1.db
    go works = b
    go refused = a
    go unanswered = b

-- A transaction leaves the database as it was before, or as its body has left it.
pub transaction_cases :
    {A : Type 0} (R : Db → Type 0) (body : M A) (w : World)
    → R w.db
    → R (body (record (arrive w) { tx_start = some (arrive w).now })).1.db
    → R (transaction body w).1.db
unfolding transaction ◌>>=◌
transaction_cases {A} R body w before after =
    then_call {A = Done} {B = A} (λ o. R o.1.db) (λ _. tt) (λ v. v)
      (λ _ v. let (r, v') = body (record v { tx_start = some v.now }) in end_tx v.db r v') w
      (end_tx_cases R w.db inner.0 inner.1 before after) before before
  where
    inner : Outcomes A
    inner = body (record (arrive w) { tx_start = some (arrive w).now })

pub last_ignore :
    {A : Type 0} (P : Outcomes Done → Type 0) (value : World → A) (effect : World → World)
    (w : World)
    → P (ok tt, effect (arrive w))
    → P (ok tt, arrive w)
    → P (ignore (call value effect) w)
unfolding ignore
last_ignore P value effect w a b =
    call_cases (λ o. P (let (r, w') = o in (ok tt, w'))) value effect w a b a

-- A query for one row that must be there; which error is raised depends on what is missing.
pub then_require :
    {A B : Type 0} (P : Outcomes B → Type 0) (f : World → List A) (missing : Error) (k : A → M B)
    (w : World)
    → ((d : A) → f (arrive w) ≡ d ∷ [] → P (k d (arrive w)))
    → ((e : Error) → P (err e, arrive w))
    → P ((require (read_one f) missing >>= k) w)
unfolding ◌>>=◌ require read_one collect
then_require {A} {B} P f missing k w a b =
    call_cases
      (λ (o : Outcomes (List A)). P (
        bind (
          require
            (λ _.
              let (r, v) = o in
              elim r [ ok rows ↦ Monad.collect (exactly_one rows) v | err e ↦ (err e, v) ])
            missing w)))
      f (λ v. v) w (go (f (arrive w)) refl) (b call_failed) (b call_failed)
  where
    bind : Outcomes A → Outcomes B
    bind (r, w') = elim r [ ok x ↦ k x w' | err e ↦ (err e, w') ]

    go :
        (rows : List A)
        → f (arrive w) ≡ rows
        → P (bind (require (λ _. Monad.collect (exactly_one rows) (arrive w)) missing w))
    go [] e = b missing
    go (d ∷ []) e = a d e
    go (d ∷ d' ∷ ds) e = b Monad.too_many

pub if_cases :
    {B : Type 0} (P : Outcomes B → Type 0) (test : Bool) (m n : M B) (w : World)
    → (test ≡ true → P (m w))
    → (test ≡ false → P (n w))
    → P ((if test then m else n) w)
if_cases P true m n w a b = a refl
if_cases P false m n w a b = b refl

-- An operation, and then a call that leaves the database alone and whose error is dropped.
pub then_ignored :
    {A B : Type 0} (R : Db → Type 0) (m : M A) (value : World → B) (effect : World → World)
    (w : World)
    → ((v : World) → R v.db → R (effect v).db)
    → R (m w).1.db
    → R ((m >> ignore (call value effect)) w).1.db
unfolding ◌>>=◌
then_ignored {A} R m value effect w keeps h = ground (arith, go (m w) h)
  where
    bind : Outcomes A → Outcomes Done
    bind (ok a, v) = ignore (call value effect) v
    bind (err e, v) = (err e, v)

    go : (o : Outcomes A) → R o.1.db → R (bind o).1.db
    go (ok a, v) k = last_ignore (λ o. R o.1.db) value effect v (keeps (arrive v) k) k
    go (err e, v) k = k
