-- ===== src/Lib.antt =====
-- CloudQuantBot: a trading bot for Chinese A shares. It fetches quotes from several web sources
-- (market/), runs strategies on them at a fixed interval (trading/scheduler, trading/strategies),
-- checks the orders that come out against risk rules (trading/risk_manager.go, trading/risk),
-- executes them (trading/order, trading/order_executor.go) through a broker's web service, keeps
-- the positions (trading/position_manager.go), and watches the limits and raises alerts
-- (trading/risk/realtime).
--
-- What is modelled, and where:
-- Orders.antt and Orders/: trading/order/manager.go. An order is shared by pointer between its
--   caller, the map and the queue, so the orders stand on a heap. A section under the lock is one
--   step of the caller, and so is the decision of the `select` in which `SubmitOrder` waits for room
--   in the queue; the goroutine that executes orders takes five steps for an order. Other calls fall
--   in between: they are events of a sequence, or the argument `wait` of `submit_order`.
-- Cooldown.antt and Cooldown/: trading/risk/cooldown_risk.go, the pauses between trades and the
--   blacklist.
-- Scheduler.antt and Scheduler/: trading/scheduler/scheduler.go. Cycle.antt has `executeCycle` and
--   the steps of the goroutine `runScheduler`, Loop.antt the sequences of calls and steps.
-- Limits.antt and Limits/: trading/risk/realtime/risk_limit.go, the limits, their violations, the
--   level.
-- Alerts.antt and Alerts/: trading/risk/realtime/alert_trigger.go, filters and rate limits of
--   alerts.
-- RiskManager.antt and RiskManager/: trading/risk_manager.go, the check of an order before it is
--   placed, the emergency stop and the reports.
-- Positions.antt and Positions/: trading/position_manager.go, the positions and what trades do to
--   them.
-- Executor.antt and Executor/: trading/order_executor.go, purchases, sales, stop losses and the
--   trades of the day, over the risk manager and the positions.
-- Routing.antt and Routing/: trading/order/routing.go, the routes of an order, its splitting and the
--   cache of quotes.
-- Execution.antt and Execution/: trading/order/execution.go, the algorithms that execute an order in
--   slices, over the order manager. Round `i` of a loop has its readings of the clock, its answers
--   and what the rest of the program does meanwhile as an argument.
-- Replay.antt and Replay/: monitoring/replay_engine.go, replay sessions with the steps of their
--   goroutines.
-- AlertSystem.antt and AlertSystem/: monitoring/alert_manager.go, the alerts of the whole program,
--   their channels, filters and rate limits.
-- Signals.antt and Signals/: trading/signal_handler.go, the fusion of the signals of the two models
--   into a decision and its execution, over the order executor.
-- Strategies.antt and Strategies/: trading/strategies, the loader of strategies, the combination of
--   their signals and their execution, over the signal handler.
-- Portfolio.antt and Portfolio/: trading/portfolio/portfolio_manager.go, the portfolio's positions, its
--   performance and its rebalancing, over the position manager, which the rest of the program may
--   change between the calls.
-- Industry.antt and Industry/: market/industry/cache.go, the cache of the stocks' industries and its
--   reloads.
-- DecisionTree.antt and DecisionTree/: ml/decision_tree.go, the training of decision trees and their
--   predictions.
-- Providers.antt and Providers/: market/providers/manager.go, the choice between the sources of
--   quotes.
-- Prelude.antt, Table.antt, Float.antt and Lock.antt carry what these share: Go's maps as
--   association lists, floating point as an instance argument, and `sync.RWMutex`.
--
-- How the code corresponds to the definitions: a function or method has the Go name in small
-- letters with underscores (`CheckBeforeOrder` is `check_before_order`), and its helpers are the
-- parts of its body. A struct is a record with the fields that the code reads or writes. A Go
-- error is a value of an error type, without its text; logging is left out.
--
-- Locks: a method is a function from a state with its mutex to an outcome: it returns a value and
-- the state, it waits for ever for a lock that the goroutine holds itself (`blocked`), or it
-- crashes. A read lock may be taken again while no writer waits; a waiting writer between the two
-- would make the second wait, so that what is said of a nested read lock holds when no writer
-- waits.
--
-- Bounds: a time is a number of nanoseconds since the zero time of Go, and a duration a natural
-- number, or an integer where it can be negative. Counters and amounts are unbounded, which is
-- exact as long as they stay below 2^63. Loops are recursion over the list that the Go code
-- ranges over or the count that it counts down, so no fuel is needed but for the loops of the
-- iceberg and POV algorithms and the walk of a prediction through its tree, which run on fuel:
-- `running` says that it ran out, and theorems on the iceberg algorithm and on trees of one split
-- say how much is enough, or that none is. The order in which Go visits a map is the order of the
-- association list, which is arbitrary.
--
-- Floating point is a parameter (`Float`): the arithmetic of `float64` is not defined here, and
-- no law of it is used but those of `IsOrdered` and `IsExact`, and those only where a statement
-- names them. Float/Whole.antt and Float/Signed.antt are concrete instances for the tests.
--
-- Parameters: `math.Pow` and `math.Sqrt`, the first bytes of a symbol, the broker's answers
-- (balances, positions, orders, trades), the conversion of a float to an `int`, the answers of
-- the strategies, the web request that sends an alert, the readings of the clock, and the random
-- or numbered parts of an identifier.
--
-- Not modelled: the web sources themselves and the analysis of their series (market/), the HTTP
-- server (http/), the database (db/, pipeline/, trading/trade_history.go), the broker's client
-- (trading/broker_connector.go, trading/easytrader_broker.go), the formulas of the strategies
-- and the portfolio optimizer, the statistical risk models, backtesting, the other models of
-- ml/ and llm/, the rest of monitoring/, and the programs (main.go, cmd/). Much of that is input and
-- output, or floating-point statistics of which the value, not a law, is the content.
pub mod Prelude
pub mod Table
pub mod Float
pub mod Lock
pub mod Orders
pub mod Cooldown
pub mod Scheduler
pub mod Limits
pub mod Alerts
pub mod RiskManager
pub mod Positions
pub mod Providers
pub mod Executor
pub mod Routing
pub mod Execution
pub mod Replay
pub mod AlertSystem
pub mod Signals
pub mod Strategies
pub mod Portfolio
pub mod Industry
pub mod DecisionTree
