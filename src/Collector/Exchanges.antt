-- ===== src/Collector/Exchanges.antt =====
-- The loops of the collector against a concrete exchange, and a run of the stream manager.
use ai_trading_v.Prelude.{
  ℕ, ◌+◌, ◌-◌, ◌*◌, ◌<◌, ◌≤◌, ◌≡◌, ◌⊎◌, inl, inr, refl, sym, ap, ◌∙◌, arith, Bool, true, false,
  ◌&&◌, ◌==◌, leb, if◌then◌else◌, String, List, [], ◌∷◌, some,
}
use Prim.Native.Char.{code}
use ai_trading_v.Float.{num}
use ai_trading_v.Float.Fixed.{Fixed, fixed_float}
use ai_trading_v.Model.{Time, Candle, timeframe_duration, minute}
use ai_trading_v.Collector.Mapper.{Parser, unix_milli, rest_kline_to_candle, rest_klines_to_candles}
use ai_trading_v.Collector.Paging.{
  page, Exchange, done, stopped, to_milli, has_time, backfill_symbol,
}
use ai_trading_v.Collector.Recovery.{
  GapReport, no_gap, detect_gap, filled, skipped, fill_loop, last_time,
}
use ai_trading_v.Collector.Pages.{Serves}
use ai_trading_v.Collector.Complete.{backfill_symbol_complete}
use ai_trading_v.Collector.Missed.{fill_misses}
use ai_trading_v.Collector.Gaps.{detect_gap_bars}
use ai_trading_v.Collector.Manager.{
  Manager, default_config, new_manager, Reach, begin, step, starts, connect_fails, retrying,
  subscribing, close, connecting, start, any_silent,
}
use ai_trading_v.Collector.Reconnect.{Kept, Reach-Kept, watchdog_never_fires, retry_leaks}

-- Numbers as whole texts.
abbrev digits : ℕ → String → ℕ
digits n String.[] = n
digits n (String.◌∷◌ c s) = digits (n * 10 + (code c - 48)) s

abbrev parser : Parser Fixed
parser = record { parse_float = λ s. num (digits 0 s); parse_int64 = λ s. digits 0 s }

-- An exchange with one bar, at 5.
abbrev item : List String
item = "5" ∷ "10" ∷ "12" ∷ "9" ∷ "11" ∷ "5" ∷ []

abbrev one_bar : Exchange
one_bar start end limit attempt = if leb start 5 && leb 5 end then page (item ∷ []) else page []

items_of : {xs ys : List (List String)} → page xs ≡ page ys → xs ≡ ys
items_of h = ground (arith, h)

abbrev candles_of : List (List String) → List (Candle Fixed)
candles_of items = rest_klines_to_candles parser items "BTCUSDT" "15m"

-- The page has the bar, or the range does not.
one_bar_items :
    (start end limit attempt : ℕ) (items : List (List String))
    → one_bar start end limit attempt ≡ page items
    → ((items ≡ item ∷ []) × (start ≤ 5) × (5 ≤ end))
      ⊎ ((items ≡ []) × ((leb start 5 && leb 5 end) ≡ false))
one_bar_items start end limit attempt items answer = go (leb start 5 && leb 5 end) refl answer
  where
    go :
        (both : Bool)
        → (leb start 5 && leb 5 end) ≡ both
        → (if both then page (item ∷ []) else page []) ≡ page items
        → ((items ≡ item ∷ []) × (start ≤ 5) × (5 ≤ end))
          ⊎ ((items ≡ []) × ((leb start 5 && leb 5 end) ≡ false))
    go true e h = inl (sym (items_of h), ground (arith, e), ground (arith, e))
    go false e h = inr (sym (items_of h), e)

has_bar : (t : ℕ) → has_time t (candles_of (item ∷ [])) ≡ true → t ≡ 5
unfolding has_time rest_klines_to_candles rest_kline_to_candle to_milli unix_milli
has_bar t h = ground (arith, h)

bar_there : has_time 5 (candles_of (item ∷ [])) ≡ true
unfolding has_time rest_klines_to_candles rest_kline_to_candle to_milli unix_milli
bar_there = refl

no_bar : (t : ℕ) → has_time t (candles_of []) ≡ false
unfolding has_time rest_klines_to_candles
no_bar t = refl

one_bar-Serves : Serves (λ t. t == 5) parser one_bar "BTCUSDT" "15m"
one_bar-Serves = record {
  within = λ start end limit attempt t items answer there.
      (elim (one_bar_items start end limit attempt items answer) [
        | inl one ↦
            (let at = has_bar t (sym (ap (λ v. has_time t (candles_of v)) one.0) ∙ there) in
              (omega (arith, at, one.1), omega (arith, at, one.2)))
        | inr none_there ↦
            (let gone = sym (ap (λ v. has_time t (candles_of v)) none_there.0) ∙ there in
              ground (arith, gone, no_bar t))
      ]);
  newest = λ start end limit attempt s t items answer bar low high enough.
      (let at : t ≡ 5 = ground (arith, bar) in
        elim (one_bar_items start end limit attempt items answer) [
          | inl one ↦
              ap (λ v. has_time t (candles_of v)) one.0
              ∙ ap (λ v. has_time v (candles_of (item ∷ []))) at
              ∙ bar_there
          | inr none_there ↦ ground (arith, at, low, high, none_there.1)
        ]);
}

backfill_symbol_complete_example :
    ((all : List (Candle Fixed)) × (backfill_symbol parser one_bar
          (λ cs. true)
          "BTCUSDT"
          "15m"
          10
          1
          9
          []
        ≡ stopped all))
    ⊎ ((all : List (Candle Fixed)) × (backfill_symbol parser one_bar
            (λ cs. true)
            "BTCUSDT"
            "15m"
            10
            1
            9
            []
          ≡ done all)
        × (has_time 5 all ≡ true))
backfill_symbol_complete_example =
    backfill_symbol_complete (λ t. t == 5) parser one_bar (λ cs. true) "BTCUSDT" "15m"
      one_bar-Serves 5 refl 10 1 9 (omega arith) (omega arith) (omega arith)

fill_misses_example :
    ((all : List (Candle Fixed)) × (fill_loop parser one_bar (λ cs. true) "BTCUSDT" "15m" 10 1 9 []
        ≡ filled all)
      × (has_time 3 all ≡ false))
    ⊎ ((all : List (Candle Fixed)) × (fill_loop parser one_bar
            (λ cs. true)
            "BTCUSDT"
            "15m"
            10
            1
            9
            []
          ≡ skipped all)
        × (has_time 3 all ≡ false))
unfolding has_time rest_klines_to_candles rest_kline_to_candle to_milli unix_milli last_time
fill_misses_example =
    fill_misses (λ t. t == 5) parser one_bar (λ cs. true) "BTCUSDT" "15m" one_bar-Serves 3 10 1 9
      (item ∷ []) (omega arith) (omega arith) refl refl (omega arith)

abbrev latest : Time
latest = 100 * minute

detect_gap_bars_example :
    ((detect_gap 2 "BTCUSDT" "15m" (some minute) (some latest) ≡ some no_gap)
      × (latest ≤ minute + timeframe_duration "15m" * 2))
    ⊎ ((r : GapReport) × (detect_gap 2 "BTCUSDT" "15m" (some minute) (some latest) ≡ some r)
        × (r.has_gap ≡ true)
        × (r.gap_start ≡ minute)
        × (r.gap_end ≡ latest)
        × (minute + timeframe_duration "15m" * 2 < latest)
        × (2 ≤ r.missing_bars)
        × (minute + timeframe_duration "15m" * r.missing_bars ≤ latest)
        × (latest < minute + timeframe_duration "15m" * (r.missing_bars + 1)))
unfolding timeframe_duration
detect_gap_bars_example =
    detect_gap_bars 2 "BTCUSDT" "15m" minute latest (omega arith) (omega arith)

-- A manager that was started, and whose first connection failed.
abbrev started : Manager
started = record new_manager {
  running = true;
  cancelled = false;
  topics = "tickers.BTCUSDT" ∷ [];
  phase = connecting;
}

abbrev waiting : Manager
waiting = record started { phase = retrying default_config.reconnect_base 0 }

waiting-Reach : Reach default_config waiting
unfolding new_manager start
waiting-Reach =
    step (step {n = started} begin (starts ("tickers.BTCUSDT" ∷ []) (inl refl) refl))
      (connect_fails 0 refl (omega arith))

Reach-Kept_example : Kept default_config waiting
Reach-Kept_example = Reach-Kept default_config waiting (omega arith) waiting-Reach

watchdog_never_fires_example :
    any_silent default_config waiting.last_message 9_000_000_000_000 waiting.topics ≡ false
watchdog_never_fires_example =
    watchdog_never_fires default_config waiting 9_000_000_000_000 (omega arith) waiting-Reach

retry_leaks_example :
    (n : Manager) × Reach default_config n
    × (n.phase ≡ subscribing)
    × (n.open_conns ≡ (close waiting).open_conns + 2)
    × ((close n).open_conns ≡ (close waiting).open_conns + 1)
    × ((close n).connected ≡ false)
retry_leaks_example =
    retry_leaks default_config waiting default_config.reconnect_base 0 waiting-Reach refl refl
