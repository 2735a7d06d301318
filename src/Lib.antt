-- ===== src/Lib.antt =====
-- A trading system: an exchange (order server, sequencer, matching engine with one order book for each
-- instrument, market data publisher, snapshot synthetizer) and a trading client (market data consumer,
-- market order books, trade engine with strategies, order manager, order gateway). The parts run in
-- threads that are joined by single-producer single-consumer queues; the two programs are joined by
-- TCP for orders and by multicast for market data.
--
-- Which file models which part (a type `FooBar` of the code keeps its name, a method `doThis` becomes
-- `do_this`):
--   Logger                 include/utils/logger.hpp: formatting, and the two threads as a step relation
--   Network                src/network: TcpSocket, McastSocket, TcpServer; and Sockets for
--                          include/networking/socket_utils.hpp
--   Types, Messages        include/utils/types.hpp, include/exchange/client_request.hpp,
--                          client_response.hpp and market_data.hpp
--   MemPool, SpscQueue     include/utils/mem_pool.hpp and spsc_queue.hpp
--   Exchange/OrderBook     src/exchange/order_book.cpp: State (the members), Levels
--                          (AddOrderToPriceLevel, AddOrderAtPrice), Remove (removeOrder,
--                          removeOrderAtPrice), Handlers (add, cancel, checkForMatch, match); Shape
--                          says which lists of levels and orders the pointers stand for,
--                          Priority what matching means for them, Matching holds the proofs that
--                          need only the links of one order
--   Links                  rings of cells that two links join, on which the order book is built
--   Exchange/*             matching_engine.cpp, fifo_sequencer.hpp, order_server.cpp,
--                          market_data_publisher.cpp and snapshot_synthetizer.cpp, by their names
--   Client/MarketBook      src/client/market_order_book.cpp, laid out as Exchange/OrderBook
--   Client/Arguments       src/client/trading_main.cpp: the command line
--   Client/*               market_data_consumer.cpp, order_gateway.cpp, order_manager.cpp,
--                          trade_engine.cpp, position_keeper.hpp, risk_manager.hpp,
--                          feature_engine.hpp, random_trader.hpp, and Strategies for market_maker.hpp
--                          and liquidity_taker.hpp
--   System                 two parts joined by a stream
-- A module Printing holds the functions `toString` of the types beside it.
--
-- State is passed explicitly. A pointer into a memory pool is the index of its cell, a null pointer is
-- `none`. A call that may end the process, or that leaves the defined behaviour of C++, returns a
-- `Result`: `assert` and `ASSERT` are kept. What a component sends is appended to a list of its state
-- or pushed to a queue. `uint64_t` identifiers wrap around where the code increments them; quantities
-- and prices are natural numbers that the code keeps below 2 ^ 32 and 2 ^ 64; sequence numbers are taken
-- not to reach 2 ^ 64.
--
-- An exchange book is well formed (`Sides` of Exchange/OrderBook/Shape) when its pointers stand for two
-- lists of price levels: each list is a ring that starts at the best price, sorted, with no price
-- twice; each level is in use, found in the table at its price, and has a ring of orders, the oldest
-- one first; each order is in use, of that side and price, and registered under its client and its
-- identifier.
--
-- Two components have steps of their own. For the queue, each read or write of the state its two
-- threads share is a step (`SpscQueue/Threads`), for sequentially consistent atomics; for the logger, a
-- step is one call of either thread (`Step`). Everywhere else a thread runs until its loop has found a
-- queue empty, while the others wait.
--
-- Fuel: `match_loop` runs on the size of the order pool plus two, as each round but the last
-- removes an order. `find_place` runs on the size of the level pool plus two, as it goes round the
-- ring of levels at most once. In the client's book `sum_qty` runs on the size of the order pool
-- plus one, and `clear_others` on two, as its second round fails the assert of the pool.
-- `split_requests` and `whole` run on the length of the buffer. The loops that read a queue until
-- it is empty (`run_responses` and `run_updates` of the trade engine, `reply_all` of the order
-- server, `send_waiting` of the gateway, `publish_waiting` of the publisher) run on the number of
-- messages in the queue. Where fuel runs out, the error `out_of_fuel` is returned, which nothing
-- else returns.
--
-- Parameters: the type `double` with its operations (Client/Double), `std::sort`, the draws of `rand()`,
-- `atoi` and `atof`, the clock, the bytes of a packed struct, what `operator<<` makes of a
-- value, and what the kernel returns (`Kernel`, `Event`, `Accepted`).
--
-- Not modelled: the set-up of sockets in the constructors and `init` of their classes, the sockets
-- of the market data consumer, the start and the stop of threads, weaker memory orders than
-- sequential consistency, the measurement of time, the printing of values with a `double`, and the
-- two main programs apart from the command line.
pub mod Prelude
pub mod Types
pub mod MemPool
pub mod SpscQueue
pub mod Links
pub mod Logger
pub mod Messages
pub mod Network
pub mod Exchange
pub mod Client
pub mod System
