-- ===== src/Userbot/StateLaws.antt =====
-- The states of the users as a map: what was written last is read, and other users keep theirs.
use telegram_ads_market.Common.{
  ℕ, ◌≡◌, ◌≢◌, refl, sym, ap, subst, true, false, some, List, [], ◌∷◌, ◌++◌, ◌==◌, if◌then◌else◌,
  select, update, exists, map, Bool-cases, inl, inr, ==→eq, ==_refl, arith,
}
use telegram_ads_market.Repository.{one, too_many_rows, exactly_one}
use telegram_ads_market.Effects.{Fate, works, refused, unanswered}
use telegram_ads_market.Userbot.State.{
  State, StateRow, Store, is_of, get_state, set_state, upsert_state, exec, state_found,
}

-- The rows of one user, after a change of the rows of another.
select-upsert_other :
    (v u : ℕ) (state : State) (now : ℕ) (rows : List StateRow)
    → (v == u) ≡ false
    → select (is_of v) (upsert_state u state now rows) ≡ select (is_of v) rows
unfolding upsert_state
select-upsert_other v u state now rows e = elim (Bool-cases (exists (is_of u) rows)) [
  | inl x ↦ rw x (changed rows)
  | inr x ↦ rw x (added rows)
]
  where
    changed :
        (rows : List StateRow)
        → select
            (is_of v)
            (update (is_of u) (λ r. record r { state = state; updated_at = now }) rows)
          ≡ select (is_of v) rows
    changed [] = refl
    changed (r ∷ rows) = ground (arith, changed rows, e)

    added :
        (rows : List StateRow)
        → select (is_of v) (rows ++ record { user_id = u; state = state; updated_at = now } ∷ [])
          ≡ select (is_of v) rows
    added [] = ground (arith, e)
    added (r ∷ rows) = ground (arith, added rows)

none_selected :
    (u : ℕ) (rows : List StateRow) → exists (is_of u) rows ≡ false → select (is_of u) rows ≡ []
none_selected u [] e = refl
none_selected u (r ∷ rows) e = ground (arith, e, none_selected u rows)

select-append :
    (u : ℕ) (rows : List StateRow) (r : StateRow)
    → is_of u r ≡ true
    → select (is_of u) (rows ++ r ∷ []) ≡ select (is_of u) rows ++ r ∷ []
select-append u [] r e = rw e
select-append u (x ∷ rows) r e = ground (arith, select-append u rows r e)

some_selected :
    (u : ℕ) (rows : List StateRow) → exists (is_of u) rows ≡ true → select (is_of u) rows ≢ []
some_selected u [] e = λ f. absurd (cc)
some_selected u (r ∷ rows) e = λ f. ground (arith, e, f, some_selected u rows)

select-changed :
    (u : ℕ) (change : StateRow → StateRow)
    → ((r : StateRow) → (change r).user_id ≡ r.user_id)
    → (rows : List StateRow)
    → select (is_of u) (update (is_of u) change rows) ≡ map change (select (is_of u) rows)
select-changed u change same [] = refl
select-changed u change same (r ∷ rows) = ground (arith, same r, select-changed u change same rows)

-- The user_id is unique.
abbrev pub OneRowFor : ℕ → Store → Type 0
OneRowFor u s = exactly_one (select (is_of u) s.states) ≢ too_many_rows

-- The one row of a user after a write.
select-upsert_same :
    (u : ℕ) (state : State) (now : ℕ) (rows : List StateRow)
    → exactly_one (select (is_of u) rows) ≢ too_many_rows
    → exactly_one (select (is_of u) (upsert_state u state now rows))
      ≡ one (record { user_id = u; state = state; updated_at = now })
unfolding upsert_state
select-upsert_same u state now rows unique = elim (Bool-cases (exists (is_of u) rows)) [
  | inl x ↦
      rw (x, select-changed u (λ r. record r { state = state; updated_at = now }) (λ r. refl) rows)
        (changed (select (is_of u) rows) (some_selected u rows x) unique (selected-Of rows))
  | inr x ↦ rw (
    x,
    select-append u rows (record { user_id = u; state = state; updated_at = now }) (==_refl u),
    none_selected u rows x,
  )
]
  where
    Of : List StateRow → Type 0
    Of [] = Unit
    Of (r ∷ rows) = (r.user_id ≡ u) × Of rows

    selected-Of : (rows : List StateRow) → Of (select (is_of u) rows)
    selected-Of [] = tt
    selected-Of (r ∷ rows) = elim (Bool-cases (is_of u r)) [
      | inl e ↦ rw e (==→eq r.user_id u e, selected-Of rows)
      | inr e ↦ rw e (selected-Of rows)
    ]

    changed :
        (rs : List StateRow)
        → rs ≢ []
        → exactly_one rs ≢ too_many_rows
        → Of rs
        → exactly_one (map (λ (r : StateRow). record r { state = state; updated_at = now }) rs)
          ≡ one (record { user_id = u; state = state; updated_at = now })
    changed [] some_row unique of = absurd (some_row refl)
    changed (r ∷ []) some_row unique of =
        ap (λ n. one (record { user_id = n; state = state; updated_at = now })) of.0
    changed (r ∷ q ∷ rs) some_row unique of = absurd (unique refl)

written :
    (s : Store)
    → ((v : ℕ) → OneRowFor v s)
    → (u : ℕ) (state : State) (v : ℕ)
    → (state_found (exactly_one (select (is_of v) (upsert_state u state s.now s.states))) ≡ (
        if v == u
        then some (state, true)
        else state_found (exactly_one (select (is_of v) s.states))))
      × (exactly_one (select (is_of v) (upsert_state u state s.now s.states)) ≢ too_many_rows)
written s unique u state v = elim (Bool-cases (v == u)) [
  | inl e ↦ same (==→eq v u e) e
  | inr e ↦
      let other = select-upsert_other v u state s.now s.states e in rw (e, other) (refl, unique v)
]
  where
    same :
        v ≡ u
        → (v == u) ≡ true
        → (state_found (exactly_one (select (is_of v) (upsert_state u state s.now s.states))) ≡ (
            if v == u
            then some (state, true)
            else state_found (exactly_one (select (is_of v) s.states))))
          × (exactly_one (select (is_of v) (upsert_state u state s.now s.states)) ≢ too_many_rows)
    same p e =
        let row =
          subst
            (λ n.
              exactly_one (select (is_of n) (upsert_state u state s.now s.states))
              ≡ one (record { user_id = u; state = state; updated_at = s.now }))
            (sym p) (select-upsert_same u state s.now s.states (unique u)) in
        rw (e, row) (refl, λ f. cc)

-- Where users have at most one row each, a write of a user's state that takes effect, with or
-- without its answer, is what is then read of this user; every other user reads the same as
-- before; and users still have at most one row each.
pub set_state-get_state :
    (s : Store)
    → ((v : ℕ) → OneRowFor v s)
    → (fate : Fate) → fate ≢ refused
    → (u : ℕ) (state : State) (v : ℕ)
    → (get_state works v (set_state fate u state s).1
        ≡ (if v == u then some (state, true) else get_state works v s))
      × OneRowFor v (set_state fate u state s).1
unfolding set_state get_state exec
set_state-get_state s unique refused takes_effect u state v = absurd (takes_effect refl)
set_state-get_state s unique works takes_effect u state v = written s unique u state v
set_state-get_state s unique unanswered takes_effect u state v = written s unique u state v
