-- ===== src/Collector/Manager.antt =====
-- internal/collector/stream/manager.go and the connection of stream/conn.go: the goroutines of `run` and
-- `watchdog` beside Start and Stop, step by step. Each step holds its locks throughout.
use ai_trading_v.Prelude.{
  ℕ, ◌+◌, ◌-◌, ◌*◌, ◌/◌, ◌<◌, ◌⊎◌, ◌≡◌, ltb, Bool, true, false, ◌||◌, if◌then◌else◌, String, str_eq,
  List, [], ◌∷◌, Option, none, some,
}
use ai_trading_v.Model.{Time}

-- Durations are in nanoseconds.
pub record Config : Type 0 where
  pub reconnect_base : ℕ
  pub reconnect_max : ℕ
  pub max_silent_interval : ℕ

-- The values of NewManager.
abbrev pub default_config : Config
default_config = record {
  reconnect_base = 1_000_000_000;
  reconnect_max = 30_000_000_000;
  max_silent_interval = 180_000_000_000;
}

-- Where the goroutine of `run` stands. A retry has the backoff and the jitter of the wait that it is in.
pub data Phase : Type 0 where
  idle : Phase
  connecting : Phase
  retrying : ℕ → ℕ → Phase
  subscribing : Phase
  reading : Phase
  ended : Phase

-- `connected` says whether the connection is set; `open_conns` counts the sockets that are open, those
-- that no variable holds any more included.
pub record Manager : Type 0 where
  pub running : Bool
  pub cancelled : Bool
  pub phase : Phase
  pub connected : Bool
  pub open_conns : ℕ
  pub topics : List String
  pub last_message : List (String × Time)
  pub reconnects : ℕ
  pub handled : ℕ

unfoldable pub new_manager : Manager
new_manager = record {
  running = false;
  cancelled = false;
  phase = idle;
  connected = false;
  open_conns = 0;
  topics = [];
  last_message = [];
  reconnects = 0;
  handled = 0;
}

-- A Connect that succeeds sets the connection, also where one is set.
unfoldable pub connect : Manager → Manager
connect m = record m { connected = true; open_conns = m.open_conns + 1 }

unfoldable pub close : Manager → Manager
close m = if m.connected then record m { connected = false; open_conns = m.open_conns - 1 } else m

unfoldable pub trigger_disconnect : Manager → Manager
trigger_disconnect m = close (record m { reconnects = m.reconnects + 1 })

-- `none` is ErrAlreadyRunning.
unfoldable pub start : List String → Manager → Option Manager
start topics m =
    if m.running
    then none
    else some (record m { running = true; cancelled = false; topics = topics; phase = connecting })

unfoldable pub stop : Manager → Manager
stop m = if m.running then close (record m { running = false; cancelled = true }) else m

unfoldable pub next_backoff : Config → ℕ → ℕ
next_backoff cfg backoff =
    if ltb cfg.reconnect_max (backoff * 2) then cfg.reconnect_max else backoff * 2

-- The time that waitRetry sleeps. `rand.Int63n(backoff / 4)` gives a jitter below a quarter of the
-- backoff; it panics on a quarter of zero, from where no step leads on.
unfoldable pub wait_of : ℕ → ℕ → ℕ
wait_of backoff jitter = backoff + jitter

unfoldable pub last_message_age : List (String × Time) → String → Time → ℕ
last_message_age [] topic now = 0
last_message_age (e ∷ es) topic now =
    if str_eq e.0 topic then now - e.1 else last_message_age es topic now

-- Whether one of the topics has been silent too long.
unfoldable pub any_silent : Config → List (String × Time) → Time → List String → Bool
any_silent cfg times now [] = false
any_silent cfg times now (t ∷ ts) =
    ltb cfg.max_silent_interval (last_message_age times t now) || any_silent cfg times now ts

-- A step of `run`, of the watchdog, or of a caller. What the network and the random numbers do is the
-- choice of the step. A manager is started when it is new or when the `run` before has ended; the
-- watchdog may still fire once after a stop.
pub data Step (cfg : Config) : Manager → Manager → Type 0 where
  starts :
      {m n : Manager} (topics : List String)
      → (m.phase ≡ idle) ⊎ (m.phase ≡ ended)
      → start topics m ≡ some n
      → Step cfg m n
  stops : {m : Manager} → Step cfg m (stop m)
  leaves :
      {m : Manager}
      → m.phase ≡ connecting
      → m.cancelled ≡ true
      → Step cfg m (record m { phase = ended })
  connects :
      {m : Manager}
      → m.phase ≡ connecting
      → m.cancelled ≡ false
      → Step cfg m (connect (record m { phase = subscribing }))
  connect_fails :
      {m : Manager} (jitter : ℕ)
      → m.phase ≡ connecting
      → jitter < cfg.reconnect_base / 4
      → Step cfg m (record m { phase = retrying cfg.reconnect_base jitter })
  retry_leaves :
      {m : Manager} {b j : ℕ}
      → m.phase ≡ retrying b j
      → m.cancelled ≡ true
      → Step cfg m (record m { phase = ended })
  retry_connects :
      {m : Manager} {b j : ℕ}
      → m.phase ≡ retrying b j
      → m.cancelled ≡ false
      → Step cfg m (connect (close (record m { phase = connecting })))
  retry_fails :
      {m : Manager} {b j : ℕ} (jitter : ℕ)
      → m.phase ≡ retrying b j
      → jitter < next_backoff cfg b / 4
      → Step cfg m (close (record m { phase = retrying (next_backoff cfg b) jitter }))
  subscribes :
      {m : Manager}
      → m.phase ≡ subscribing
      → m.connected ≡ true
      → Step cfg m (record m { phase = reading })
  subscribe_fails :
      {m : Manager}
      → m.phase ≡ subscribing
      → Step cfg m (trigger_disconnect (record m { phase = connecting }))
  reads :
      {m : Manager}
      → m.phase ≡ reading
      → m.connected ≡ true
      → Step cfg m (record m { handled = m.handled + 1 })
  read_leaves :
      {m : Manager}
      → m.phase ≡ reading
      → m.cancelled ≡ true
      → Step cfg m (record m { phase = connecting })
  read_fails :
      {m : Manager}
      → m.phase ≡ reading
      → Step cfg m (trigger_disconnect (record m { phase = connecting }))
  watchdog_fires :
      {m : Manager} (now : Time)
      → m.connected ≡ true
      → any_silent cfg m.last_message now m.topics ≡ true
      → Step cfg m (trigger_disconnect m)

-- The states that steps reach from a new manager.
pub data Reach (cfg : Config) : Manager → Type 0 where
  begin : Reach cfg new_manager
  step : {m n : Manager} → Reach cfg m → Step cfg m n → Reach cfg n
