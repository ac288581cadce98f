-- ===== src/Lib.antt =====
-- Taptrade's coordinator and trader: a model of the two programs and the theorems about them.
--
-- The coordinator is `taptrade-cli-demo/coordinator/src` in the repository, and the program of its
-- makers and takers is `taptrade-cli-demo/trader/src`. A maker asks for a trade over HTTP, locks a
-- bond, and its offer goes to the orderbook; a taker locks a bond too and the offer becomes a trade
-- with an escrow transaction; the traders sign it, confirm each other's obligations and sign the
-- payout; an operator decides disputes; background tasks watch the bonds, the mempool and the
-- confirmations. The files, with paths below `taptrade-cli-demo/coordinator/src`, for Trader below
-- `taptrade-cli-demo/trader/src`:
--
--   Prelude.antt      names of the libraries, `Result` with the computations on a state (`Action`),
--                     `u64` arithmetic of the debug build (an overflow panics), texts and bytes,
--                     and the parsing of numbers (Parse)
--   Errors.antt       the errors of the crate `anyhow` and of communication/handler_errors.rs
--   Api.antt          requests and answers (communication/api.rs), Api/Validate.antt their validation
--   Types.antt        the data that the components hand to one another
--   Externals.antt    what the crates are asked for: hex, bincode, musig2, addresses, the fees in
--                     floating point, and what SQLite's driver reads from NULL
--   Node.antt         what the bdk wallet and bitcoin core answer
--   Musig.antt        the MuSig2 data of a payout (coordinator/coordinator_utils.rs)
--   Sql.antt          tables as lists of rows, and the SQL statements that the queries consist of
--   Database.antt     `CoordinatorDB` (database/mod.rs): Tables, Requests (maker_requests), Orderbook
--                     (active_maker_offers), Taken, Trade and Payout (taken_offers), one function per
--                     method with the method's name; the other children are proofs
--   Wallet.antt       wallet/mod.rs, escrow_psbt.rs, payout_tx.rs and wallet_utils.rs: Inputs, Bonds,
--                     Escrow and Payout; Accepted, Standing, Completeness,
--                     Offences and Balance are proofs
--   Coordinator.antt  the handlers of coordinator/mod.rs: State, Offers and Trades, the functions with
--                     their names; the other children are proofs
--   Http.antt         the routes and the answers of communication/mod.rs
--   Monitor.antt      the tasks of coordinator/bond_monitoring.rs, mempool_monitoring.rs,
--                     tx_confirmation_monitoring.rs and escrow_cli.rs
--   Protocol.antt     no code, but what the coordinator promises of an offer: the steps from its listing
--                     to the end of its trade. View reads an offer from the tables, Allowed says what a
--                     write needs, Updates, Writes, Listings and Refines follow the methods of the
--                     database, and Order is about any such steps
--   System.antt       the whole coordinator (main.rs): requests and rounds of the tasks in any order
--                     (Events), what each keeps (Stable, Guards, Offers, Trades, Rounds, Verdicts,
--                     Punishments), what so holds after any of them (Runs, Sizes, SellOffers), and that
--                     it keeps to the protocol (Refinement)
--   Trader.antt       the trader: Session (requests, answers, lines of input), Settings (cli/mod.rs),
--                     Nonce (wallet/musig2_utils.rs), Inputs (wallet/mod.rs), Requests
--                     (communication/), Offers and Flows (trading/, wallet/bond.rs), Cli (the prompts,
--                     the start and the loading of the wallet: cli/mod.rs, main.rs, wallet/mod.rs); the
--                     other children are proofs
--   Tests.antt        examples: a trade with concrete crates and a concrete node
--
-- How state and operations correspond. The coordinator's state is its database and the list of the
-- transactions that it has sent out, newest first. A method that writes is a function from the
-- state to a result and the next state, so that what a failing method leaves behind is part of the
-- model: a statement that ran before the failure stays. A method that only reads is a function of
-- the database. `Result` has a third value besides `ok` and `err`, `panic`, for an overflow and for
-- the parts of the source that are `panic!` or `todo!`; a request whose handler panics has no
-- answer. A column that may be NULL is an `Option`; amounts and times are natural numbers that
-- stand for the 64-bit patterns, and the comparisons of SQL read them as signed. Library values
-- such as keys, nonces, addresses and psbts are their texts.
--
-- Crates and the node are records of functions, taken as parameters by every definition that uses
-- them; nothing is assumed of them but what a theorem names among its conditions. A request is
-- served in one step, without other requests in between; the node gives one answer per function
-- and argument while it is served, and the map that the mempool task keeps is the node's
-- `utxo_set` there. The mempool task is the loop over the rounds to come, each with
-- the node's answers in it, the other background tasks are given one round at a time. All loops run over a list and need no bound; the operator's
-- input is the list of the lines to come, and the input's end leaves the remaining cases
-- undecided.
--
-- The trader's program is a function of the answers and the lines of input that are
-- still to come. It records the requests that it sends; where no answer or line comes any more it
-- waits, which is an outcome of its own besides success, error and panic. A polling loop is
-- recursion on the answers. The requests and the answers are the records of the coordinator's
-- interface. The amounts that the trader's wallet counts down are `i64`, whose overflow panics.
--
-- Not modelled: the coordinator's start (`init_coordinator_wallet` and the set-up in its main.rs,
-- files and environment, but for the variable PUNISHMENT_ENABLED), logging, the HTTP server and
-- JSON, whose records are the coordinator's on both sides, the random order id's digits, the
-- transactions' bytes and scripts. The texts of the trader's prompts, the regtest node and the test code are left
-- out.
pub mod Prelude
pub mod Errors
pub mod Api
pub mod Types
pub mod Externals
pub mod Musig
pub mod Node
pub mod Sql
pub mod Wallet
pub mod Database
pub mod Coordinator
pub mod Http
pub mod Monitor
pub mod Protocol
pub mod System
pub mod Trader
pub mod Tests
