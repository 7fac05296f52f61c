-- ===== src/Lib.antt =====
-- A model of the core of the stock trading agent: the back-test engine and the broker that it runs
-- against, the gate that every purchase passes, and the life of a position from its size to its exit.
--
-- Parts of the program, and the files that model them:
--   src/core/models.py, src/core/enums.py: Core/Models and Core/Enums, record for model and data
--     type for enum, with the source's field and constructor names (`open` is written `opened`).
--   src/backtest/data_loader.py, `HistoricalDataLoader`: Backtest/Loader, once it is loaded. A data
--     frame is the list of its rows; a date is a number.
--   src/backtest/simulator.py, `SimulatedBroker`: Backtest/Simulator/State is its fields and the
--     arithmetic of a position, Orders is `place_order` with the helpers it calls, and Market is the
--     constructor, the clock, the valuation, prices, history and balance. Its other files are the
--     proofs: Books and Solvency (cash and orders), Holdings and Moves (positions), Basis and
--     Accounting (cost), Dates (binary search), History and Lookahead (later rows), and Sessions
--     (whole runs). An order identifier is the number that is printed into it.
--   src/backtest/engine.py, `BacktestEngine`: Backtest/Engine/State (its fields and exceptions), Exits
--     (`_check_exits`, `_execute_exit`, `_force_close_all`), Entries (`_risk_check`,
--     `_execute_pending_signals`, `_record_snapshot`), Indicators and Signals (`_generate_signals` and
--     what it calls) and Run (`run`). A method is a function from the engine to an outcome and the
--     engine, and one of the source is cut into a function for each point where it branches. Moves is
--     a step relation, a constructor for each change of the state, one for a purchase that is filled
--     and not recorded since a parameter does not convert among them; Refines, with a child for each
--     phase, shows that a run only makes such steps; and Coupling, Closing, Caps, Limits and Snapshots
--     are what follows. The parameters that signals are made from are values that convert. The
--     indicators, series of floats of pandas and the library ta, are the parameter `Indicators`, and
--     the metrics of a finished run an argument of `run`.
--   src/backtest/llm_replay.py, `LLMReplayProvider`: Backtest/Replay, on the rows of the log, with
--     proofs in Cache and Selection.
--   src/backtest/walk_forward.py, `WalkForwardAnalyzer`: Backtest/WalkForward, with `generate_windows`
--     in its Windows and the proofs in Tiling. Adding months to a date is a parameter.
--   src/strategy/risk_manager.py, `AlgoRiskManager`: Strategy/RiskManager/Rules (the eight rules) and
--     Check (`check`), with proofs in Caps, Safety and Gate. It asks the portfolio for its state,
--     which is an argument of the model: what the portfolio service returns or raises. The texts of
--     warnings and of the reasoning are data that say the same. The return series of the symbols, and
--     their correlation by pandas, are the parameter `Correlations`.
--   src/strategy/sizing.py, `PositionSizer`: Strategy/Sizing, with proofs in Caps and Total.
--   src/strategy/exit_calculator.py, `ExitPriceCalculator`: Strategy/ExitPrices and its Order.
--   src/strategy/exit_checker.py, `ExitConditionChecker`: Strategy/ExitConditions and its Exclusive.
--   src/strategy/position_manager.py, `PositionManager`, on the rows of src/db/models/strategy.py:
--     Strategy/PositionManager, with proofs in Lifecycle, Closing and Queries. A table is its rows in the
--     order of their ids, with the next id; the rounding of its columns is left out.
--   src/strategy/portfolio_state.py, `PortfolioStateService`: Strategy/PortfolioState, with proofs in
--     Peak, Sectors and Snapshots. Its state is the rows of its tables and the cache of sectors;
--     what the columns and `float` round is the parameter `Columns`.
--   src/execution/approval.py, `ApprovalManager`: Execution/Approval (its state, the parsing of an
--     answer and `_handle_callback`) and Request (the two paths, the wait, the timeout and
--     `initialize`), with proofs in Answers, Late and Expiry. The wait ends at the first
--     answer that says something or when the time is up, and handlers of answers run one after the
--     other; a request's answers, with their times, are the argument of the path that waits for them.
--     `int` of a text is a parameter.
--   src/report/metrics.py, `PerformanceCalculator`: Report/Metrics, with proofs in Drawdown and Trades.
--     Powers and roots of decimals are the parameter `Powers`; a power that the library refuses is an
--     error.
--   src/llm/cost_tracker.py, `CostTracker`: Llm/CostTracker, the rows of daily usage and the budget
--     test, with the log of calls in Totals.
--   src/broker/mock/client.py, `InMemoryBroker`: Broker/Mock, with the clock as an argument, its
--     child Market for prices and balance, and the proofs Requests and Cancels. Its default stocks and prices are left to the caller.
--
-- A strategy sizes a trade by the sizer, asks the risk gate, and has the broker place the order; the
-- position manager then keeps the row, which the exit checker tests each day against its stop and
-- target from the exit price calculator. The positions of the broker and the rows of the position
-- manager are two stores, as in the program. The back-test engine calls the broker, the sizer and the
-- exit checker each day, with a risk check of its own, and keeps its positions in memory.
--
-- Methods that may raise are functions from a state to an outcome and a state (Base/Effects): what
-- was written before a raise stays written; Base/Effects/Traces follows methods through a step
-- relation. Loops are structural; the binary search of Base/Bisect runs on fuel, the length of the
-- list, which is enough since each round leaves a shorter interval, and the loop over the windows on
-- the days of the period and two, since each round with a window of a month moves on by a day at
-- least. With a window of no months the source's loop does not end.
--
-- Decimal amounts are an interface (Decimal): each operation may round as the context says, and NaN,
-- infinities and divisions by zero are outside the model. Proofs that need more than the tests take
-- the laws as hypotheses: `IsOrdered` is what correctly rounded arithmetic satisfies, and `IsExact`
-- adds that no result needs more digits than the context keeps. A `quantize` to more digits than the
-- context keeps, which raises, is outside the model too. Decimal/Won, whole won with a
-- truncating quotient, satisfies both, and Tests runs the components on it.
--
-- Base/Tests, Base/Int, Base/Dict, Base/All and Base/Sorting are the shared tests, integers,
-- dictionaries, predicates on lists and sorting; dictionaries keep the order of insertion.
--
-- Not modelled: language models and agents, technical and fundamental analysis, outside services and
-- their caches, the database itself, notifications, reports, the scheduler and the web interface;
-- and, as yet, the strategies and the executor of orders; of the model costs, the reports of usage;
-- of the approvals, the cache, the messages and the decision log; of the metrics, the breakdowns by
-- strategy and by month.
pub mod Base
pub mod Decimal
pub mod Core
pub mod Backtest
pub mod Strategy
pub mod Execution
pub mod Llm
pub mod Report
pub mod Broker
pub mod Tests
