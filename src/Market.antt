-- ===== src/Market.antt =====
-- The market's price rules, its listings, the chats of its deals, and the HTTP handlers that guard
-- its services.
pub mod Prices
pub mod PriceLaws
pub mod Listings
pub mod Users
pub mod Channels
pub mod Chat
pub mod DealDetails
pub mod Http
pub mod HttpLaws
pub mod DealHandlers
pub mod ListingHandlers
pub mod DealLaws
pub mod DraftLaws
pub mod ListingLaws
pub mod ChannelLaws
pub mod ChatLaws
