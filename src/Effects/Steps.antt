-- ===== src/Effects/Steps.antt =====
-- Operations that are composed of others, steps that cannot fail, and errors that are looked at.
use telegram_ads_market.Common.{◌≡◌, refl, Option, none, some, List, [], ◌∷◌}
use telegram_ads_market.Effects.Monad
use telegram_ads_market.Repository.{Db, exactly_one}
use telegram_ads_market.Effects.Monad.{
  Fate, works, refused, unanswered, World, Error, call_failed, not_found, collect, Result, ok, err,
  M, Done, pure, ◌>>=◌, ◌>>◌, ignore, fail_if, or_raise, sql_now, arrive, next_fate, call, exec,
  query, statement, read, read_one, found, require, end_tx, transaction, for_each,
}
use telegram_ads_market.Effects.Laws.{Outcomes, then_call, then_query}

-- An operation made of several steps, followed by more.
pub then_steps :
    {A B C : Type 0} (P : Outcomes C → Type 0) (m : M A) (n : A → M B) (k : B → M C) (w : World)
    → P ((m >>= λ a. n a >>= k) w)
    → P (((m >>= n) >>= k) w)
unfolding ◌>>=◌
then_steps {A} {B} {C} P m n k w h = go (m w) h
  where
    bind : Outcomes B → Outcomes C
    bind (r, v) = elim r [ ok b ↦ k b v | err e ↦ (err e, v) ]

    go :
        (o : Outcomes A)
        → P (let (r, v) = o in elim r [ ok a ↦ bind (n a v) | err e ↦ (err e, v) ])
        → P (bind (let (r, v) = o in elim r [ ok a ↦ n a v | err e ↦ (err e, v) ]))
    go (ok a, v) h = h
    go (err e, v) h = h

pub then_pure :
    {A B : Type 0} (P : Outcomes B → Type 0) (a : A) (k : A → M B) (w : World)
    → P (k a w)
    → P ((pure a >>= k) w)
unfolding ◌>>=◌
then_pure P a k w h = h

-- A step inside the process, which cannot fail.
pub then_does :
    {A B : Type 0} (P : Outcomes B → Type 0) (value : World → A) (effect : World → World)
    (k : A → M B) (w : World)
    → P (k (value w) (effect w))
    → P (((λ v. (ok (value v), effect v)) >>= k) w)
unfolding ◌>>=◌
then_does P value effect k w h = h

pub read_one_cases :
    {A : Type 0} (P : Outcomes (Option A) → Type 0) (f : World → List A) (w : World)
    → (f (arrive w) ≡ [] → P (ok none, arrive w))
    → ((d : A) → f (arrive w) ≡ d ∷ [] → P (ok (some d), arrive w))
    → ((e : Error) → P (err e, arrive w))
    → P (read_one f w)
unfolding read_one collect
read_one_cases {A} P f w a b c =
    then_query P f (λ rows. collect (exactly_one rows)) w (go (f (arrive w)) refl) (c call_failed)
  where
    go : (rows : List A) → f (arrive w) ≡ rows → P (collect (exactly_one rows) (arrive w))
    go [] e = a e
    go (d ∷ []) e = b d e
    go (d ∷ d' ∷ ds) e = c Monad.too_many

-- An operation whose error the next step looks at.
pub then_attempts :
    {A B : Type 0} (P : Outcomes B → Type 0) (m : M A) (k : Result A → M B) (w : World)
    → P (k (m w).0 (m w).1)
    → P ((Monad.attempt m >>= k) w)
unfolding ◌>>=◌
then_attempts P m k w h = h

-- What holds of the database where an operation has succeeded.
abbrev pub OnOk : {A : Type 0} → (Db → Type 0) → Outcomes A → Type 0
OnOk R (ok a, w) = R w.db
OnOk R (err e, w) = Unit

-- A transaction that fails leaves the database as it was; one that succeeds, that or as its body has
-- left it.
pub transaction_on_ok :
    {A : Type 0} (R : Db → Type 0) (body : M A) (w : World)
    → R w.db
    → OnOk R (body (record (arrive w) { tx_start = some (arrive w).now }))
    → R (transaction body w).1.db
unfolding transaction ◌>>=◌ end_tx
transaction_on_ok {A} R body w before after =
    then_call {A = Done} {B = A} (λ o. R o.1.db) (λ _. tt) (λ v. v)
      (λ _ v. let (r, v') = body (record v { tx_start = some v.now }) in end_tx v.db r v') w
      (ended (body (record (arrive w) { tx_start = some (arrive w).now })) after) before before
  where
    fated : (x : A) (v : World) (f : Fate) → R v.db → R (Monad.commit w.db x v f).1.db
    fated x v works h = h
    fated x v refused h = before
    fated x v unanswered h = h

    ended : (o : Outcomes A) → OnOk R o → R (end_tx w.db o.0 o.1).1.db
    ended (err e, v) h = before
    ended (ok x, v) h = fated x v (next_fate v) h
