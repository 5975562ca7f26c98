-- ===== src/Market/Listings.antt =====
-- internal/market/repository/listing/repository.go, IsChannelAdmin of the channel_admin repository,
-- and internal/market/service/listing/listing.go. The columns that are joined for display are left
-- out; the followers of a channel, which one query filters by, are a parameter.
use telegram_ads_market.Common.{
  ℕ, suc, String, Bool, true, false, not, ◌&&◌, ◌||◌, Option, none, some, List, [], ◌∷◌, ◌++◌, ◌==◌,
  ltb, if◌then◌else◌, select, update, exists,
}
use telegram_ads_market.Common.Int.{ℤ, pos, ltb_ℤ, leb_ℤ}
use telegram_ads_market.Common.Text.{str_eq}
use telegram_ads_market.Tables.{Listing}
use telegram_ads_market.Effects.{
  World, M, Done, pure, ◌>>=◌, ◌>>◌, raise, fail_if, call, exec, query, read_one, found, sql_now,
  unauthorized_side, not_channel_admin, call_failed,
}
use telegram_ads_market.Market.Prices.{validate_listing_categories}

abbrev pub listing_type_lessor : String
listing_type_lessor = "lessor"

abbrev pub listing_type_lessee : String
listing_type_lessee = "lessee"

abbrev pub listing_status_active : String
listing_status_active = "active"

abbrev pub listing_status_inactive : String
listing_status_inactive = "inactive"

-- The enums market.listing_type and market.listing_status: Postgres refuses other texts.
abbrev pub has_enums : Listing → Bool
has_enums l =
    (str_eq l.type listing_type_lessor || str_eq l.type listing_type_lessee)
    && (str_eq l.status listing_status_active || str_eq l.status listing_status_inactive)

-- `if categories == nil { categories = "[]" }`
abbrev pub or_no_categories : String → String
or_no_categories c = if str_eq c "" then "[]" else c

abbrev pub listing_row : Listing → World → Listing
listing_row l w = record l {
  id = w.tables.next_listing;
  categories = or_no_categories l.categories;
  created_at = sql_now w;
  updated_at = sql_now w;
}

-- INSERT ... RETURNING id, created_at, updated_at
unfoldable pub insert_listing : Listing → M Listing
insert_listing l = do
  fail_if (not (has_enums l)) call_failed
  call
      (λ w. record l { id = w.tables.next_listing; created_at = sql_now w; updated_at = sql_now w })
      λ w. record w {
        tables = record w.tables {
          listings = w.tables.listings ++ listing_row l w ∷ [];
          next_listing = suc w.tables.next_listing;
        };
      }

abbrev pub listing_with_id : ℕ → World → List Listing
listing_with_id id w = select (λ l. l.id == id) w.tables.listings

unfoldable pub get_listing : ℕ → M (Option Listing)
get_listing id = read_one (listing_with_id id)

-- The UPDATE of all columns but the times, by id.
unfoldable pub write_listing : Listing → M Done
write_listing l = do
  fail_if (not (has_enums l)) call_failed
  exec λ w. record w {
    tables = record w.tables {
      listings =
          update (λ r. r.id == l.id)
            (λ r. record l {
              id = r.id;
              categories = or_no_categories l.categories;
              created_at = r.created_at;
              updated_at = sql_now w;
            })
            w.tables.listings;
    };
  }

unfoldable pub remove_listing : ℕ → M Done
remove_listing id = exec λ w. record w {
  tables = record w.tables { listings = select (λ l. not (l.id == id)) w.tables.listings };
}

-- market.channel_admin has a row for the user and the channel.
unfoldable pub is_channel_admin : ℕ → ℕ → M Bool
is_channel_admin user_id channel_id =
    query λ w. exists (λ (u, c). (u == user_id) && (c == channel_id)) w.tables.channel_admins

unfoldable pub is_channel_has_active_listing : ℕ → M Bool
is_channel_has_active_listing channel_id = query λ w.
    exists
      (λ l.
        elim l.channel_id [ none ↦ false | some c ↦ c == channel_id ]
        && str_eq l.status listing_status_active)
      w.tables.listings

-- `ORDER BY updated_at DESC`, with the id as the order of the table for equal times.
abbrev pub latest_first : List Listing → List Listing
latest_first [] = []
latest_first (l ∷ ls) = insert l (latest_first ls)
  where
    insert : Listing → List Listing → List Listing
    insert l [] = l ∷ []
    insert l (r ∷ rs) =
        let behind = r ∷ insert l rs in if ltb l.updated_at r.updated_at then behind else l ∷ r ∷ rs

abbrev pub has_type : Option String → Listing → Bool
has_type none l = true
has_type (some t) l = str_eq l.type t

unfoldable pub list_listings_by_user_id : ℕ → Option String → M (List Listing)
list_listings_by_user_id user_id typ =
    query
      λ w. latest_first (select (λ l. (l.user_id == user_id) && has_type typ l) w.tables.listings)

module _ (followers : ℕ → Option ℤ) (has_any_category : String → List String → Bool) where
  -- COALESCE(followers, 0) >= min, where the minimum is positive.
  abbrev pub has_followers : Option ℤ → Listing → Bool
  has_followers none l = true
  has_followers (some n) l =
      if ltb_ℤ (pos 0) n
      then leb_ℤ n (elim l.channel_id [
        | none ↦ pos 0
        | some c ↦ elim (followers c) [ none ↦ pos 0 | some f ↦ f ]
      ])
      else true

  abbrev pub has_category : List String → Listing → Bool
  has_category [] l = true
  has_category (c ∷ cs) l = has_any_category l.categories (c ∷ cs)

  abbrev pub is_listed : Option String → List String → Option ℤ → Listing → Bool
  is_listed typ categories min_followers l =
      str_eq l.status listing_status_active
      && has_type typ l
      && has_category categories l
      && has_followers min_followers l

  -- The service drops the categories that are not predefined.
  unfoldable pub list_listings_all : Option String → List String → Option ℤ → M (List Listing)
  list_listings_all typ categories min_followers =
      let valid =
        select (λ c. not (str_eq c "") && validate_listing_categories (c ∷ [])) categories in
      query λ w. latest_first (select (is_listed typ valid min_followers) w.tables.listings)

-- `if !ok { return ErrNotChannelAdmin }`
unfoldable pub require_channel_admin : ℕ → ℕ → M Done
require_channel_admin user_id channel_id = do
  ok ← is_channel_admin user_id channel_id
  fail_if (not ok) not_channel_admin

abbrev pub check_new_channel : ℕ → Listing → Option ℕ → M Done
check_new_channel user_id l none = raise not_channel_admin
check_new_channel user_id l (some c) = require_channel_admin user_id c

unfoldable pub create_listing : ℕ → Listing → M Listing
create_listing user_id l = do
  let mine = record l { user_id = user_id }
  if str_eq mine.type listing_type_lessor
      then check_new_channel user_id mine mine.channel_id
      else pure tt
  insert_listing mine

abbrev pub check_channel : ℕ → Option ℕ → M Done
check_channel user_id none = pure tt
check_channel user_id (some c) = require_channel_admin user_id c

unfoldable pub update_listing : ℕ → Listing → M Done
update_listing user_id l = do
  existing ← found (read_one (listing_with_id l.id))
  fail_if (not (existing.user_id == user_id)) unauthorized_side
  if str_eq l.type listing_type_lessor then check_channel user_id l.channel_id else pure tt
  write_listing l

unfoldable pub delete_listing : ℕ → ℕ → M Done
delete_listing user_id id = do
  existing ← found (read_one (listing_with_id id))
  fail_if (not (existing.user_id == user_id)) unauthorized_side
  remove_listing id
