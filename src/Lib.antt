-- ===== src/Lib.antt =====
-- Axiotick: a verification library for the C++ trading engine of the repository.
--
-- The program takes orders as records of raw bytes (backend/include/core/types.h), brings their
-- prices and quantities to scaled integers (core/fixed_point.hpp), checks them
-- (core/order_validator.hpp) and matches them in one order book per symbol
-- (backend/modules/engine/src/order_book.cpp). The book keeps its resting orders in a pool of nodes
-- (engine/pool_allocator.hpp), links the nodes of one price to a list, and keeps the prices of a
-- side in a sorted array. Paths below are from backend/include unless they are .cpp files.
--
-- Common holds the helpers: Boolean tests on the native numbers (Common/Tests), lists
-- (Common/Lists), integers as `pos` and `negsuc` of native numbers with the rules that omega needs
-- (Common/Int), updates of arrays that are functions (Common/Array), maps with
-- integer keys (Common/Assoc) and binary digits (Common/Bits).
--
-- Core models core/. Core/Float is what the code asks of `double` and `long double`, as a record of
-- operations; `IsExtended` names the laws of the 80-bit format that the notional rests on: products
-- of scalars in their bounds compare and truncate as the integers do. Core/Float/Whole is an
-- instance on whole numbers, which runs the tests. Core/Order has `Order` and `Trade`,
-- Core/FixedPoint the functions of fixed_point.hpp under their names, Core/Validator
-- `validate_order`. `normalize_order_scalars` returns the order that the code changes in place.
--
-- Core/Histogram is the plain variant of core/latency_histogram.hpp, with counters of 64 bits. The
-- place of a value's highest digit is found by halving, on 63 rounds; `percentile` takes the rank
-- that the code casts from a floating-point product.
--
-- Engine models engine/. Engine/PoolAllocator has the pool, with its size as an argument and an
-- index of -1 as `none`; Engine/PriceLevels the sorted array, its binary search and the two
-- shifting loops; Engine/OrderBook the state of the book, with Resting for add_order, cancel_order,
-- cancel_order_partial, modify_order and get_order, Matching for match_order and executable_lots,
-- and Prices for the best prices, the spread and vwap. An operation that is a method takes the book
-- and returns the answer with the book after the call. The hash map is a function from ids to
-- locators; the symbol is not read and left out.
--
-- The specification of matching is Engine/OrderBook/PriceTime: lists of levels, best price first,
-- each with its orders, oldest first. Engine/OrderBook/Represents says when the arrays, links,
-- counts and locators of a book hold such lists. Frame, Round and Refines carry the refinement: one
-- fill, one level, all levels, the whole of match_order. Fills, Executable and Promise draw
-- consequences.
--
-- Risk models backend/modules/risk/src/risk_manager.cpp. Risk itself has the state, the keys of its
-- maps and the sums of int64_t values; Positions the positions, profits, the day roll and the kill
-- switch; Reservations check_order, on_fill and on_cancel, each in the parts that the code has
-- under one lock. A map from strings is a function from lists of bytes. Checks, Admission, Accounting,
-- NetLots,
-- Keeps, History and Books are about them; History has the calls of a risk manager as data and runs lists
-- of them. The book does not call the risk manager: the order manager calls both.
--
-- Trading models backend/modules/trading/src/order_manager.cpp: the state in Trading itself, with the
-- history and its cap; Refusals and Submit have submit_order in the parts between its returns, Trades
-- the loop over the trades, Changes cancel_order, cancel_order_partial and modify_order. Each
-- operation is one step, under the mutex. The manager owns the book and the risk manager that it
-- points to, and the journal is the list of events that it was handed (Persist/Event), or `none`.
-- The wall clock and the monotonic clock are parameters that give their readings in turn, and the
-- state counts the readings. Core/Trace has the spans that a submission stamps. Keeps, Errors,
-- Accounts, Accepted, Promise, History and Live are about them; Live/Steps has the calls as a step
-- relation.
--
-- Bus models backend/include/bus and backend/modules/bus. Bus/SpscRing is the ring buffer of
-- bus/spsc_ring_buffer.hpp, whose specification is the bounded queue of SpscRing/Fifo; a mask is
-- `bit_and`, which Common/Bits turns to a remainder. Bus/Crc and Bus/Protocol are
-- message_protocol.cpp: memory is a list of bytes, and `bytes_of` is what a copy of a word leaves on
-- a machine whose words begin with the lowest byte. Whoever encodes hands in as many bytes as the
-- size says. Bus/Topic is `publish` of message_bus.cpp once the topic is found: `meanwhile` is what
-- others do while it waits. Topic names, subscribers and consumer threads are left out.
--
-- Persist models backend/include/persist and backend/modules/persist/src/event_journal.cpp.
-- Persist/JournalRing is the ring of journal_ring_buffer.hpp, whose cells carry sequence numbers, with
-- its queue in JournalRing/Fifo. Persist/Line is one line of the journal's file: an event is written as
-- keys and values, and read back by a search for each key's marker; Common/Decimal has the digits. A
-- text is a list of bytes. Persist/Replay is `replay_file`, with the types of events in Replay itself
-- and the loop in Replay/File; `replay_events` there is the same loop over events instead of lines, and
-- serves as the specification of the text. Persist/Journal is AsyncEventJournal: append_impl, the
-- worker's loop and the start on a file that is there, with the text that the stream holds back apart
-- from the file; Journal/Steps has these as a step relation, and Draining follows an event from the
-- append through the ring, the stream and the file to a replay. A process ends there only after its
-- worker has, and appends are not refused and follow one another, as under the order manager's mutex.
--
-- Strategy models backend/modules/strategy/src/strategy_registry.cpp: the records and the machine of
-- states in Strategy itself, the operations in Strategy/Registry. The multimap of pending evaluations
-- is a list in the order of its keys. The square root, the cast to uint64_t and two literals are
-- parameters beside the operations of `Float`. Lifecycle has the edges of the machine that
-- strategy_registry.hpp draws; History has the calls as a step relation.
--
-- Loops: the binary search runs on the size of the array as fuel, and each round shortens its
-- interval. In match_order the outer loop handles one level per round and is given the number of
-- levels; the inner loop is given the number of nodes of the pool, which a list of distinct nodes
-- cannot exceed. The loop of normalize_capacity doubles, and is given the capacity. The loop of the
-- journal's worker ends once it is stopped, within one round more than the ring holds events; the
-- digits of a number are fewer than its value, which is their fuel. The book's two
-- sizes, 4096 levels and 131072 nodes, are a parameter, so that tests can run on small ones.
--
-- Concurrency: each operation of the risk manager, of the order manager and of the rings is one step.
-- Atomics and mutexes inside a step are not modelled: what two threads in `check_order` may see of
-- each other between the checks and the reservation, and what two users of a ring may see
-- between the claim of a slot and its release. An append takes its number and pushes its event in two
-- steps of the source, without a lock; what two threads that append at once do is not modelled.
--
-- Integers: ids and counts are natural numbers that are not reduced to their width, since no
-- operation modelled here compares them after 2 ^ 64 steps; ticks, lots and notionals are integers,
-- and every comparison with the bounds of int64_t that the code makes is written out. `total_lots`
-- and the sums of lots are exact, where the code would overflow above 9.2e18 lots; a level holds at
-- most 131072 orders of 1e9 lots each. The atomic sums of the risk manager wrap around, by
-- `wrap_int64`; the position of a symbol that `check_order` proposes and `net_lots` are exact,
-- where the code has an undefined overflow.
--
-- Not modelled: logging; the manager's answer InternalError, which only a null pointer to the book or
-- the risk manager gives; the bus's threads, the signals between the journal's threads, its failed
-- writes, and what is lost when a process ends before the stream is flushed; the tick codec,
-- telemetry, gateways, signals, backtests, data feeds and the applications.
pub mod Common
pub mod Bus
pub mod Core
pub mod Engine
pub mod Risk
pub mod Persist
pub mod Strategy
pub mod Trading
