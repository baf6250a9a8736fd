-- ===== src/Lib.antt =====
-- The trading core of the repository (Go): from the messages of the exchange to candles, from candles to
-- features and labels, and from a bar and its features to trades, in the backtest and in paper trading.
--
-- Parts and their interaction. The collector, internal/collector, checks and stores what the exchange
-- sends, pages its history and fills gaps. The feature backfill, cmd/feature-backfill/main.go, turns
-- stored candles into the rows of internal/feature and the labels of internal/label, chunk by chunk, and
-- the edge study, internal/edge, weighs the features by their correlations with the labels. Three agents
-- score a bar: internal/agent/technical/scorer.go, internal/agent/orderflow/scorer.go and
-- internal/agent/regime/scorer.go. The gate, internal/agent/tradegate/gate.go, weighs the scores,
-- refuses or sizes a trade, and keeps cooldowns, a trade count and a drawdown stop. Two engines drive
-- them: internal/backtest/engine.go over a history of bars, with the metrics of
-- internal/backtest/metrics.go, and internal/papertrade/engine.go over the latest bar in the database,
-- with simulated fills of internal/papertrade/executor.go.
--
-- Files.
--   Prelude      Boolean tests, lists and integers over the native numbers.
--   Float        Go's float64 as an interface (Float64) over a type of values, Float/Laws its laws,
--                Float/Interval and Float/Within bounds of results, Float/Fixed an instance that runs.
--   Model        the rows of internal/model, with BybitInterval and Duration.
--   Technical, OrderFlow, Regime   Calculate and the calc functions of the three scorers under
--                internal/agent; Bounds has the ranges of the scores.
--   Gate         DefaultConfig, New, Evaluate (evaluate), OnTradePlaced, OnTradeClosed, OnBar, UpdatePnl
--                and ResetDay of internal/agent/tradegate/gate.go.
--   Backtest     types and price helpers of internal/backtest; Signal and Engine have one bar of Run
--                (step_bar) from the signal to the equity point, Run the whole of Run, Metrics and Days
--                the CalculateMetrics of internal/backtest/metrics.go; the theorems are in Inputs,
--                Position and Sound (the trades), Count and Cap (their number), Curve and Figures.
--   Paper        types of internal/papertrade/types.go; Executor is executor.go; Engine has New,
--                closePosition (settle, close_position), updateUnrealized, recordSnapshot, resetDay and
--                recoverState of internal/papertrade/engine.go; Orders has loadFeaturesAt, fetchMLProb,
--                checkExit and openPosition, Tick has processTick; the rest has the theorems.
--   Feature      EMA, PriceAboveEMA, RSI, ATR and their helpers of internal/feature; Adx has adx.go,
--                Market has market.go and orderflow.go, Compute has ComputeFeatures of feature.go; the
--                theorems are in Causal, Windows, NoLookAhead, Rsi and Flow.
--   Label        ComputeLabels of internal/label/label.go; Future has the theorem.
--   Backfill     Quality is internal/db/quality.go; Flow has LoadCandlesAfter and LoadOrderFlow of
--                internal/db/feature_store.go over tables; Pair has processPair of
--                cmd/feature-backfill/main.go with the job row of internal/db/jobs.go. Join, Ordered
--                and Windows are about the order flow, Segments, Stamps, Rounds, Covers and
--                Errors about the rounds.
--   Edge         Figures has AnalyzeDecay, RegimeConsistency and RunRolling of internal/edge, Ranking has
--                ComputeRanking, Study has runForFilter and TopFeatures; Range and Sorted have the
--                theorems.
--   Collector    of internal/collector: Validate is validate/validator.go; Mapper is mapper; Topics has
--                buildTopics of service.go and parseKlineTopic of stream/handlers.go; Handlers has its
--                handlers; Manager is stream/manager.go as a step relation, with the connection of
--                stream/conn.go; Paging has backfillSymbol of poll/backfill.go; Poll has its funding
--                rates and poll/ls_ratio.go; Recovery has detectGap and the loop of Fill of recovery,
--                Scan the loops over symbols. Accepted, Stored, Reconnect, Pages, Complete, Missed,
--                Gaps and Polled have the theorems.
--
-- How the state is modelled. The gate, a run of the backtest (Loop) and the paper engine (Engine) are
-- records, and each method is a function from the record to the record. The gate's mutex and the single
-- goroutine of each engine make every method one step. A time is a number of nanoseconds, an absent
-- pointer is `none`, and Go's enumerations of texts are data types. A refusal's reason is data in the
-- place of the printed text, and so is the reason that an order stores as JSON. A run of the backtest can
-- panic, on the negative capacity of its equity curve. The spans of the metrics are divided by a day as
-- whole nanoseconds, where the source goes through float64 hours: the two agree on spans of whole
-- minutes.
--
-- Numbers. Float64 values are abstract. The theorems on them rest on Float/Laws, which states what IEEE
-- 754 gives with rounding to nearest: monotone operations, exact whole numbers far below 2^53, signs,
-- and literals that keep their order. A fused multiply-add, which Go allows on some machines, is not
-- modelled. Integers that come from the configuration are signed and unbounded, as are counters: they
-- count bars and trades, and cannot reach 2^63 in any run. The warm-up is a natural number.
--
-- Loops are structural recursion over the bars, the ticks or the rows, and over the attempts left. Four
-- loops have fuel: process_chunks, which needs no more rounds than the pair has candles, and one;
-- backfill_symbol, whose cursor falls in every round, so one more than the milliseconds of the first
-- cursor is enough; backfill_funding_rates, likewise; and fill_loop, whose cursor rises, so one more than
-- the milliseconds of the gap is.
--
-- The stream manager's waits are a backoff and a jitter below its quarter, which a step chooses; a
-- manager starts anew only when the goroutine of its last start has ended.
--
-- The database. A statement succeeds or fails as a parameter says, by its argument; the three queries of
-- LoadOrderFlow whose errors are dropped may break after any number of rows. An upsert appends
-- its rows to those stored, and a batch that fails stores nothing.
--
-- Not modelled: SQL text and connections, the HTTP service of the meta model (a parameter), the
-- formatting of days (a parameter), JSON and the parsing of numbers in messages (parameters), HTTP and
-- websocket calls, waiting, cancelled contexts, metrics and logging, the rate limiter, the wiring of
-- the collector's service, the saving and the report of the edge study, the other
-- commands, and the code in other languages.
pub mod Backfill
pub mod Backtest
pub mod Collector
pub mod Edge
pub mod Feature
pub mod Float
pub mod Gate
pub mod Label
pub mod Model
pub mod OrderFlow
pub mod Paper
pub mod Prelude
pub mod Regime
pub mod Technical
