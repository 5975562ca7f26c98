-- ===== src/Market/ListingLaws.antt =====
-- The handlers of listings leave the listings of other users alone.
use telegram_ads_market.Common.{
  ℕ, ◌≡◌, inl, inr, refl, sym, ap, subst, ◌∙◌, String, Bool, true, false, not, Option, none, some,
  List, [], ◌∷◌, ◌++◌, ◌==◌, if◌then◌else◌, select, update, All, All-of-select, Bool-cases, ==_refl,
  arith,
}
use telegram_ads_market.Common.Text.{str_eq}
use telegram_ads_market.Tables.{Listing, Tables}
use telegram_ads_market.Effects.{
  World, Error, M, Done, pure, ◌>>=◌, ◌>>◌, raise, arrive, read_one, query, not_channel_admin,
}
use telegram_ads_market.Effects.Laws.{
  Outcomes, call_cases, then_query, then_found, then_fail_if, then_or_raise,
}
use telegram_ads_market.Effects.Steps.{then_steps, then_pure, read_one_cases}
use telegram_ads_market.Escrow.Laws.{then_from, then_attempt}
use telegram_ads_market.Market.Prices.{PriceJson}
use telegram_ads_market.Market.Listings.{
  get_listing, listing_with_id, listing_type_lessor, insert_listing, write_listing, remove_listing,
  is_channel_admin, require_channel_admin, check_new_channel, check_channel, create_listing,
  update_listing, delete_listing,
}
use telegram_ads_market.Market.Http.{require_user_id, PathId, parse_path_id, decode_body, served}
use telegram_ads_market.Market.HttpLaws.{then_empty, served_keeps}
use telegram_ads_market.Market.ListingHandlers.{
  CreateListingRequest, UpdateListingRequest, merge_listing_with_update, handle_create_listing,
  handle_update_listing, handle_delete_listing,
}

-- The listings of everybody but one user.
abbrev pub others : ℕ → List Listing → List Listing
others user_id ls = select (λ l. not (l.user_id == user_id)) ls

abbrev OwnedWhere : ℕ → (Listing → Bool) → List Listing → Type 0
OwnedWhere user_id test ls = All (λ l. test l ≡ true → (l.user_id == user_id) ≡ true) ls

others-append :
    (user_id : ℕ) (ls : List Listing) (l : Listing)
    → (l.user_id == user_id) ≡ true
    → others user_id (ls ++ l ∷ []) ≡ others user_id ls
others-append user_id [] l mine = rw mine
others-append user_id (x ∷ xs) l mine = ground (arith, others-append user_id xs l mine)

others-update :
    (user_id : ℕ) (test : Listing → Bool) (change : Listing → Listing)
    → ((l : Listing) → ((change l).user_id == user_id) ≡ true)
    → (ls : List Listing) → OwnedWhere user_id test ls
    → others user_id (update test change ls) ≡ others user_id ls
others-update user_id test change mine [] owned = refl
others-update user_id test change mine (x ∷ xs) owned = elim (Bool-cases (test x)) [
  | inl e ↦ rw (e, mine x, owned.0 e) (others-update user_id test change mine xs owned.1)
  | inr e ↦ rw e (
      ap (λ r. if not (x.user_id == user_id) then x ∷ r else r)
        (others-update user_id test change mine xs owned.1))
]

others-remove :
    (user_id : ℕ) (test : Listing → Bool) (ls : List Listing)
    → OwnedWhere user_id test ls
    → others user_id (select (λ l. not (test l)) ls) ≡ others user_id ls
others-remove user_id test [] owned = refl
others-remove user_id test (x ∷ xs) owned = elim (Bool-cases (test x)) [
  | inl e ↦ rw (e, owned.0 e) (others-remove user_id test xs owned.1)
  | inr e ↦ rw e (
      ap (λ r. if not (x.user_id == user_id) then x ∷ r else r)
        (others-remove user_id test xs owned.1))
]

-- The only row with an id is the user's: so is every row with this id.
owned_where :
    (user_id id : ℕ) (ls : List Listing) (l : Listing)
    → select (λ r. r.id == id) ls ≡ l ∷ []
    → (l.user_id == user_id) ≡ true
    → OwnedWhere user_id (λ r. r.id == id) ls
owned_where user_id id ls l one mine =
    All-of-select (λ r. (r.user_id == user_id) ≡ true) (λ r. r.id == id) ls
      (subst (λ rs. All (λ r. (r.user_id == user_id) ≡ true) rs) (sym one) (mine, tt))

module _ (user_id : ℕ) (before : List Listing) where
  -- The listings of the other users are what they were.
  abbrev Kept : World → Type 0
  Kept w = others user_id w.tables.listings ≡ others user_id before

  insert_keeps :
      (l : Listing) (w : World)
      → (l.user_id == user_id) ≡ true
      → Kept w
      → Kept (insert_listing l w).1
  unfolding insert_listing
  insert_keeps l w mine k =
      then_fail_if (λ o. Kept o.1) _ _ _ w (λ _. k)
        (λ _.
          call_cases (λ o. Kept o.1) _ _ w (others-append user_id _ _ mine ∙ k) k
            (others-append user_id _ _ mine ∙ k))

  write_keeps :
      (l : Listing) (w : World)
      → (l.user_id == user_id) ≡ true
      → OwnedWhere user_id (λ r. r.id == l.id) w.tables.listings
      → Kept w
      → Kept (write_listing l w).1
  unfolding write_listing
  write_keeps l w mine owned k =
      then_fail_if (λ o. Kept o.1) _ _ _ w (λ _. k)
        (λ _.
          call_cases (λ o. Kept o.1) _ _ w
            (others-update user_id _ _ (λ r. mine) w.tables.listings owned ∙ k) k
            (others-update user_id _ _ (λ r. mine) w.tables.listings owned ∙ k))

  remove_keeps :
      (id : ℕ) (w : World)
      → OwnedWhere user_id (λ r. r.id == id) w.tables.listings
      → Kept w
      → Kept (remove_listing id w).1
  unfolding remove_listing
  remove_keeps id w owned k =
      call_cases (λ o. Kept o.1) _ _ w
        (others-remove user_id (λ r. r.id == id) w.tables.listings owned ∙ k) k
        (others-remove user_id (λ r. r.id == id) w.tables.listings owned ∙ k)

  -- An operation that reads only, or that only refuses, before another.
  refuse_then :
      {B : Type 0} (e : Error) (k : M B) (w : World) → Kept w → Kept ((raise {A = Done} e >> k) w).1
  unfolding ◌>>=◌
  refuse_then e k w h = h

  check_then :
      {B : Type 0} (channel_id : ℕ) (k : M B) (w : World)
      → Kept w
      → ((v : World) → v.tables ≡ w.tables → Kept (k v).1)
      → Kept ((require_channel_admin user_id channel_id >> k) w).1
  unfolding require_channel_admin is_channel_admin
  check_then channel_id k w h go =
      then_steps (λ o. Kept o.1) (query _) _ (λ _. k) w
        (then_query (λ o. Kept o.1) _ _ w
          (then_fail_if (λ o. Kept o.1) _ _ _ _ (λ _. h) (λ _. go _ refl)) h)

  create_keeps : (l : Listing) (w : World) → Kept w → Kept (create_listing user_id l w).1
  unfolding create_listing
  create_keeps l w h = go (str_eq l.type listing_type_lessor) l.channel_id
    where
      mine : Listing
      mine = record l { user_id = user_id }

      go :
          (b : Bool) (c : Option ℕ)
          → Kept
              (((if b then check_new_channel user_id mine c else pure tt) >> insert_listing mine)
                w).1
      go false c =
          then_pure (λ o. Kept o.1) tt (λ _. insert_listing mine) w
            (insert_keeps mine w (==_refl user_id) h)
      go true none = refuse_then not_channel_admin (insert_listing mine) w h
      go true (some c) =
          check_then c _ w h (λ v same. insert_keeps mine v (==_refl user_id) (rw same h))

  -- The checks of the channel before an update.
  channel_then :
      (lessor : Bool) (channel : Option ℕ) (k : M Done) (w : World)
      → Kept w
      → ((v : World) → v.tables ≡ w.tables → Kept (k v).1)
      → Kept (((if lessor then check_channel user_id channel else pure tt) >> k) w).1
  channel_then false c k w h go = then_pure (λ o. Kept o.1) tt (λ _. k) w (go w refl)
  channel_then true none k w h go = then_pure (λ o. Kept o.1) tt (λ _. k) w (go w refl)
  channel_then true (some c) k w h go = check_then c k w h go

  update_keeps :
      (l : Listing) (w : World)
      → ((row : Listing) → listing_with_id l.id w ≡ row ∷ [] → l.user_id ≡ row.user_id)
      → Kept w
      → Kept (update_listing user_id l w).1
  unfolding update_listing
  update_keeps l w owner_of h =
      then_found (λ o. Kept o.1) _ _ w
        (λ existing row.
          then_fail_if (λ o. Kept o.1) _ _ _ _ (λ _. h)
            (λ owner. channel_then (str_eq l.type listing_type_lessor) l.channel_id _ _ h (λ v same.
              write_keeps l v
                (subst (λ n. (n == user_id) ≡ true) (sym (owner_of existing row))
                  (ground (arith, owner)))
                (subst (λ (t : Tables). OwnedWhere user_id (λ r. r.id == l.id) t.listings)
                  (sym same)
                  (owned_where user_id l.id w.tables.listings existing row (ground (arith, owner))))
                (rw same h))))
        h

  delete_keeps : (id : ℕ) (w : World) → Kept w → Kept (delete_listing user_id id w).1
  unfolding delete_listing
  delete_keeps id w h =
      then_found (λ o. Kept o.1) _ _ w
        (λ existing row.
          then_fail_if (λ o. Kept o.1) _ _ _ _ (λ _. h)
            (λ owner.
              remove_keeps id _
                (owned_where user_id id w.tables.listings existing row (ground (arith, owner))) h))
        h

merged_owner :
    (json : PriceJson) (marshal : List String → String) (existing l : Listing) (id : ℕ)
    (req : UpdateListingRequest)
    → merge_listing_with_update json marshal existing id req ≡ some l
    → (l.user_id ≡ existing.user_id) × (l.id ≡ id)
unfolding merge_listing_with_update
merged_owner json marshal existing l id req e = ground (arith, e)

module _ (json : PriceJson) (marshal : List String → String) where
  handle_create_keeps :
      (user_id : ℕ) (new : Option CreateListingRequest) (w : World)
      → others user_id (handle_create_listing json marshal (some user_id) new w).1.tables.listings
        ≡ others user_id w.tables.listings
  unfolding handle_create_listing require_user_id decode_body
  handle_create_keeps user_id new w =
      then_or_raise Same _ _ _ _ (λ _. refl)
        (λ u e.
          then_or_raise Same _ _ _ _ (λ _. refl)
            (λ req _.
              then_fail_if Same _ _ _ _ (λ _. refl)
                (λ _.
                  then_fail_if Same _ _ _ _ (λ _. refl)
                    (λ _.
                      then_or_raise Same _ _ _ _ (λ _. refl)
                        (λ prices _.
                          then_from I I (served _) _ w
                            (served_keeps I (create_listing u _) w (kept u (cc e) _)) (λ l v h. h)
                            (λ v h. h))))))
    where
      Same : {A : Type 0} → Outcomes A → Type 0
      Same o = Kept user_id w.tables.listings o.1

      I : World → Type 0
      I = Kept user_id w.tables.listings

      kept : (u : ℕ) → user_id ≡ u → (l : Listing) → I (create_listing u l w).1
      kept u e l = subst (λ n. I (create_listing n l w).1) e (create_keeps user_id _ l w refl)

  handle_delete_keeps :
      (user_id : ℕ) (path : PathId) (w : World)
      → others user_id (handle_delete_listing (some user_id) path w).1.tables.listings
        ≡ others user_id w.tables.listings
  unfolding handle_delete_listing require_user_id parse_path_id
  handle_delete_keeps user_id path w =
      then_or_raise Same _ _ _ _ (λ _. refl)
        (λ u e.
          then_or_raise Same _ _ _ _ (λ _. refl)
            (λ id _. served_keeps I (delete_listing u id) w (kept u (cc e) id)))
    where
      Same : {A : Type 0} → Outcomes A → Type 0
      Same o = Kept user_id w.tables.listings o.1

      I : World → Type 0
      I = Kept user_id w.tables.listings

      kept : (u : ℕ) → user_id ≡ u → (id : ℕ) → I (delete_listing u id w).1
      kept u e id = subst (λ n. I (delete_listing n id w).1) e (delete_keeps user_id _ id w refl)

  handle_update_keeps :
      (user_id : ℕ) (path : PathId) (change : Option UpdateListingRequest) (w : World)
      → others user_id
          (handle_update_listing json marshal (some user_id) path change w).1.tables.listings
        ≡ others user_id w.tables.listings
  unfolding handle_update_listing require_user_id parse_path_id decode_body get_listing
  handle_update_keeps user_id path change w =
      then_or_raise Same _ _ _ _ (λ _. refl)
        (λ u e.
          then_or_raise Same _ _ _ _ (λ _. refl)
            (λ id _.
              then_empty Same _ _ _
                (λ existing row.
                  then_or_raise Same _ _ _ _ (λ _. refl)
                    (λ req _.
                      then_or_raise Same _ _ _ _ (λ _. refl)
                        (λ l merged.
                          then_from I I (served (update_listing u l)) _ _
                            (served_keeps I (update_listing u l) _ (
                              kept u (cc e) l (
                                owner existing l id req row
                                  (merged_owner json marshal existing l id req merged))))
                            (λ _ v h.
                              then_attempt I I (read_one (listing_with_id id)) _ v
                                (read_one_cases (λ o. I o.1) (listing_with_id id) v (λ e. h)
                                  (λ d e. h) (λ e. h))
                                (λ r x i. i))
                            (λ v h. h))))
                (λ e. refl)))
    where
      Same : {A : Type 0} → Outcomes A → Type 0
      Same o = Kept user_id w.tables.listings o.1

      I : World → Type 0
      I = Kept user_id w.tables.listings

      owner :
          (existing l : Listing) (id : ℕ) (req : UpdateListingRequest)
          → listing_with_id id w ≡ existing ∷ []
          → (l.user_id ≡ existing.user_id) × (l.id ≡ id)
          → (row : Listing) → listing_with_id l.id w ≡ row ∷ []
          → l.user_id ≡ row.user_id
      owner existing l id req one same row again =
          let rows : existing ∷ [] ≡ row ∷ [] =
            sym one ∙ ap (λ n. listing_with_id n w) (sym same.1) ∙ again in
          let equal : existing ≡ row = cc rows in same.0 ∙ ap (λ (x : Listing). x.user_id) equal

      kept :
          (u : ℕ)
          → user_id ≡ u
          → (l : Listing)
          → ((row : Listing) → listing_with_id l.id w ≡ row ∷ [] → l.user_id ≡ row.user_id)
          → I (update_listing u l (arrive w)).1
      kept u e l owner_of =
          subst (λ n. I (update_listing n l (arrive w)).1) e
            (update_keeps user_id _ l (arrive w) owner_of refl)

  -- The handlers that create, change and delete listings leave the listings of all users but the
  -- authenticated one as they are and in their order, whatever the requests say and whatever fails.
  pub handlers_keep_others_listings :
      (user_id : ℕ) (path : PathId) (new : Option CreateListingRequest)
      (change : Option UpdateListingRequest) (w : World)
      → (others user_id (handle_create_listing json marshal (some user_id) new w).1.tables.listings
          ≡ others user_id w.tables.listings)
        × (others user_id
              (handle_update_listing json marshal (some user_id) path change w).1.tables.listings
            ≡ others user_id w.tables.listings)
        × (others user_id (handle_delete_listing (some user_id) path w).1.tables.listings
            ≡ others user_id w.tables.listings)
  handlers_keep_others_listings user_id path new change w = (
    handle_create_keeps user_id new w,
    handle_update_keeps user_id path change w,
    handle_delete_keeps user_id path w,
  )
