-- ===== src/Examples.antt =====
-- Concrete runs of the services and of the database.
mod Setup
mod Histories
mod Payouts
mod Services
mod Chain
mod Posts
mod Offers
mod Program
mod States
