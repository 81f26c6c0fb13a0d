-- ===== src/Lib.antt =====
-- generikDBHistogramData: the core of its live cluster and of its backtest engine.
--
-- The program downloads candles, backtests trading bots on them and runs a cluster of live bots
-- on an exchange. These two parts of it are modelled here.
--
-- Cluster (backtest/agartha_cluster/): a scheduler plans one deploy per slot in a queue, asks the
-- throttle for room and hands a due row to the bot runner, which moves a bot through its states.
--   Cluster/Models        models.py: BotState and the enumerations of events
--   Cluster/StateMachine  state_machine.py: _ALLOWED, is_terminal, can_transition, transition;
--                         its theorems are in StateMachine/Laws
--   Cluster/Throttle      api_throttle.py and the statements on api_throttle_buckets of
--                         cluster_db.py; Throttle/Window and Throttle/Budget prove the caps;
--                         Throttle/Wait is wait_for_budget and await_budget
--   Cluster/Queue         the statements on deploy_queue of cluster_db.py, with the unique index
--                         of migrations/V0001__cluster_schema.sql; Queue/Order, Queue/Invariant
--   Cluster/Scheduler     scheduler.py: DeployScheduler; Scheduler/Slots, Scheduler/Planning
--   Cluster/Orders        the statements on orders and fills of cluster_db.py; Orders/Lookup,
--                         Orders/Sums
--   Cluster/Bots          the statements on cluster_bots and bot_state_log of cluster_db.py;
--                         Bots/Log is what the log of states says, Bots/Lookup
--   Cluster/Exec          methods that write and may raise; Exec/Keeps has the rules to prove what
--                         they keep, one for each way to put a method together
--   Cluster/World         what the runner shares: the tables, the throttle, the logs, and the
--                         requests that the exchange's client was given
--   Cluster/Runner        bot_runner.py: Runner/Entry, Runner/Exit, Runner/Manual and Runner/Fills
--                         are place_entry, place_exit, manual_close and on_fill; Runner/Keeps proves
--                         that they keep what their steps keep, Runner/Log and Runner/Ahead that
--                         the steps do, Runner/Errors what a refused transition leaves,
--                         Fills/Effects and Fills/Progress how fills add up
--   Cluster/Reconciler    reconciler.py: the poll; Reconciler/Snapshot is run_once; the proofs are
--                         in Reconciler/Keeps, Drift, Compared, Counted and Replay
--   Cluster/Service       cluster_service.py: tick_once, _deploy_from_queue and recovery_boot;
--                         Service/Keeps, Service/Aside, Service/Deploys, Service/Crashes
--   Cluster/History       sequences of calls of the runner and the service
-- Backtest (backtest/): the engine feeds each bar to a strategy, sends its signal to the broker,
-- appends events, and writes and resumes checkpoints.
--   Backtest/Broker       broker.py: SpotBroker; Broker/Solvency
--   Backtest/Engine       engine.py: the data of run_backtest, with checkpoint.py, strategy_base.py
--                         and events.py; Engine/Bar is one turn of the loop, Engine/Run a whole run
--                         from the start or from a checkpoint; the proofs are in Engine/Shift,
--                         Engine/Solvency, Engine/Loop, Engine/Checkpoints, Engine/Reentry and
--                         Engine/Resume
--   Backtest/Guards       guards.py: ResourceGuard; Guards/History describes it over the whole
--                         history of samples, Guards/Hysteresis proves that it follows that
--   Backtest/ExitPlanner  agartha_exit_planner.py; ExitPlanner/Plans, ExitPlanner/Floor. The bot
--                         runner of the cluster asks it for the price of an exit.
--   Backtest/Integrity    data_integrity.py: the gaps of the stored candles; Integrity/Gaps. What
--                         strip().lower() makes of an interval's name is an argument.
--   Backtest/WalkForward  walkforward_runner.py: the folds of a rolling evaluation, and the bounds of
--                         the candles that their runs read; WalkForward/Folds, WalkForward/Samples.
--                         WalkForward/Runs is run_walk_forward without an orchestrator, with the
--                         drivers of its runs as arguments; Runs/Course describes the calls that
--                         are to be made of them, Runs/Followed proves that they are
--   Backtest/EntryFilter  agartha_entry_filter.py: the gate and the monitor; EntryFilter/Layers,
--                         EntryFilter/Memory
--   Backtest/Branches     scheduler.py: run_branches, which starts processes under the guard;
--                         Branches/Starts, Polls, Invariant, Turns and Waves
--   Backtest/Strategies   strategies.py: AgarthaStrategy and DorothyBacktestStrategy, as strategies of
--                         the engine. The branches of the first are in Strategies/Agartha/Moves,
--                         its methods in Methods; Agartha/Trailing compares it with the exit
--                         planner, Cycles counts its purchases, Restart resumes it from a
--                         checkpoint. Dorothy/Ladder and Dorothy/Costs are on the limits of the
--                         second. Strategies/Turns is any course of bars and fills.
-- Base holds the shared names and lemmas; the modules whose names end in Tests apply
-- the theorems to concrete inputs.
--
-- How the code is read:
--   - An object that a method mutates is a record that the function returns anew; an exception is
--     a constructor of the result or `none`. A table is the list of its rows in insertion order.
--   - Times, weights and counts are natural numbers; a comparison of a difference is written as
--     one of sums, so that nothing is cut off at 0. A time that a function reads from the clock if
--     it is not given is always given.
--   - A Python float is an element of a parameter type with the operations of Base.Float. The
--     theorems on money take the order laws that rounding to nearest keeps (IsOrderedFloat), for
--     finite numbers and with 0.0 and -0.0 as one; Base.Whole shows that the laws can hold. A
--     division by 0.0, which raises, is outside of the theorems: they ask for positive prices.
--   - A strategy is a parameter of the engine: its state, and its methods as functions on that state.
--   - When a branch's process ends is a function of the process and of how often it was polled. The
--     theorem that a run ends asks that each process ends within some number of polls; the fuel is a
--     number of turns, and one more than that number for each branch, and one, are enough.
--   - The loop of build_windows has the end of the range and one as its fuel, in turns; its theorem
--     shows that they are enough.
--   - Other loops are recursion on the list of candles, symbols or rows, without fuel. Only the wait
--     for the throttle polls without a bound: its fuel is a number of polls, and the clock a function
--     that gives each reading; more polls than the wait may last in milliseconds are enough.
--   - What the exchange's client answers is an argument of a call, and so are the client ids that
--     uuid4 draws and the time. A request counts as sent also if its answer is an exception. Within
--     a call the time stands still, except during a wait. Each statement on the database is its own
--     transaction, so what was written before an exception stays.
--   - A reading of psutil, and the monotonic clock, are arguments of the guard's methods.
--   - The file of a checkpoint is taken to give back what was written to it. A resumed run gets
--     the same candles with the same indicators.
--   - The history in Throttle/Budget is of a client that records what it asked for. The bot runner
--     records the weight that the server reports, and records a cancellation that it did not ask
--     for; the two theorems on the caps do not cover such extra weight.
--
-- Not modelled: event payloads, trial ids, correlation ids and creation times; metrics, indicators
-- and the loading of candles; the service's threads, its checkpoints of the database's log and its
-- measurements of resources; the network client; storage backends, command lines, reports,
-- notifications, the Rust core, and the copies of other projects' bots under imported_bots/.
pub mod Backtest
pub mod Base
pub mod Cluster
