-- ===== src/Lib.antt =====
-- The core of the ads market: two parties agree on a deal by signatures, the lessee pays into an
-- escrow wallet on the TON network, the lessor's channel carries the post, and the escrow is
-- released to the lessor or refunded to the lessee.
--
-- The parts and the files that model them:
--   * internal/market/domain/entity: Entity (the data), internal/market/domain/deal_signature.go:
--     Signature, internal/market/domain/deal_details.go: Details (the two readers).
--   * internal/market/repository/{deal,deal_action_lock,deal_post_message}: Repository/Deals, Locks
--     and Posts. A statement of SQL is a function from its arguments, NOW() and the tables to the
--     tables; a query is a function of the tables. Tables are lists in the order of their keys.
--   * internal/postgres/tx.go: `transaction` and `end_tx` of Effects/Monad.
--   * internal/market/service/deal/deal.go: DealService/Operations, one function for each method.
--   * internal/market/service/escrow: Escrow/Amounts (calculations.go), Escrow/Operations
--     (service.go, worker.go) and Escrow/DepositEvents (deposit_worker.go), with HasOutgoingTxTo of
--     internal/liteclient/client.go and the seeds of internal/vault/client.go.
--   * internal/userbot/service/userbot/deal_post_workers.go and
--     internal/market/service/deal_post_message/worker.go: PostService/Operations.
--   * internal/market/domain (prices, categories, details): Market/Prices and Market/DealDetails;
--     internal/market/service/listing with its repository: Market/Listings;
--     internal/market/service/deal_chat with its repository: Market/Chat;
--     internal/market/service/channel and the statistics of its repository: Market/Channels; the
--     wallets of internal/market/service/user and its repository: Market/Users;
--     internal/market/application/market/http: Market/Http (errors.go, helpers.go),
--     Market/DealHandlers (deal.go) and Market/ListingHandlers (listing.go). Tables holds the rows
--     that these use beside the deals.
--   * internal/blockchain_observer: Observer/Blocks (masters and the walk over shard blocks),
--     Observer/Deposits (the workers), Observer/Notifier (the channel of deposits) and
--     Observer/KeyEvents (the events of Redis).
--   * internal/userbot/repository/state/repository.go: Userbot/State.
--   * internal/server/routers/market/router.go: System/Program, where the handlers that write and
--     all workers are operations on one world.
--
-- The services meet in the database. Lifecycle/Step lists every transaction that they commit, as
-- a relation on the tables; Lifecycle/Sound is the invariant, Lifecycle/Diagram the order of the
-- statuses, and Lifecycle/History speaks of all histories, in which any processes commit in any
-- order. The Refines files and System relate the operations of the processes to such histories.
--
-- A service runs in the monad of Effects/Monad: it passes a world of tables, clock, wallets,
-- channels and notifications, and each call outside the process meets the next outcome of the
-- world's schedule: it works, is refused, or takes effect although its caller sees an error, after
-- some time. An operation runs alone; the interleavings are those of Lifecycle, and Escrow/Locking
-- interleaves two transactions that take a lock under READ COMMITTED. A transfer that is answered
-- without an error is taken to be executed: the balance of a wallet and the fees of the network are
-- left out. A message that is answered without an error has been sent, although the answer may lack
-- its id. NOW() and the processes' clocks agree.
--
-- Ids and times in nanoseconds are naturals, money and durations integers, with the wrap-around of
-- int64 where the code computes with them. Loops run over finite lists, but for the walk over the
-- parents of a shard block: its fuel is one more than the number of the block, which is enough
-- where a parent's number is smaller, and too little fuel is an outcome of its own. The tickers
-- that repeat a pass, logging and the cancellation of a context are left out.
--
-- Parameters (External, Escrow/Amounts, Market/Prices, Observer/Blocks): SHA-256, JSON, RFC 3339,
-- TON addresses and wallets, float64, the lite client's answers about blocks,
-- and which channels the database knows. The text of a JSONB column stands for what Postgres prints
-- of the value: the parameter that prints the details of a deal gives the text as it is read back.
-- Not modelled: signing in, how the userbot fetches
-- channels and their statistics, the event streams, analytics, the bot, middleware and configuration.
pub mod Common
pub mod Entity
pub mod External
pub mod Tables
pub mod Signature
pub mod Details
pub mod Repository
pub mod Effects
pub mod DealService
pub mod Escrow
pub mod Market
pub mod Observer
pub mod PostService
pub mod Lifecycle
pub mod Userbot
pub mod System
pub mod Examples
