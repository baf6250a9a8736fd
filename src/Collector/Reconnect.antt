-- ===== src/Collector/Reconnect.antt =====
-- What every run of internal/collector/stream/manager.go keeps.
use ai_trading_v.Prelude.{
  ℕ, ◌+◌, ◌*◌, ◌/◌, ◌≤◌, ◌<◌, ◌≡◌, refl, sym, ap, ◌∙◌, arith, Bool, true, false, if◌then◌else◌,
  String, List, [], ◌∷◌, some,
}
use mathlib.Core.Path.{subst}
use ai_trading_v.Model.{Time}
use ai_trading_v.Collector.Manager.{
  Config, Phase, connecting, retrying, subscribing, reading, ended, Manager, new_manager, connect,
  close, trigger_disconnect, start, stop, next_backoff, wait_of, last_message_age, any_silent, Step,
  starts, stops, leaves, connects, connect_fails, retry_leaves, retry_connects, retry_fails,
  subscribes, subscribe_fails, reads, read_leaves, read_fails, watchdog_fires, Reach, begin, step,
}

module _ (cfg : Config) where
  -- A wait before a retry is at least the base and less than five quarters of the maximum.
  pub Bounded : Phase → Type 0
  Bounded (retrying b j) =
      (cfg.reconnect_base ≤ wait_of b j)
      × (4 * wait_of b j < 5 * cfg.reconnect_max)
      × (cfg.reconnect_base ≤ b)
      × (b ≤ cfg.reconnect_max)
  Bounded p = Unit

  -- No message time is ever noted, and the set connection is among the open ones.
  pub record Kept (m : Manager) : Type 0 where
    pub silent : m.last_message ≡ []
    pub bounded : Bounded m.phase
    pub counted : (if m.connected then 1 else 0) ≤ m.open_conns

  new_manager-Kept : Kept new_manager
  unfolding new_manager Bounded
  new_manager-Kept = record { silent = refl; bounded = tt; counted = omega arith }

  connect-Kept : (m : Manager) → Kept m → Kept (connect m)
  unfolding connect
  connect-Kept m k = ground (arith, k)

  close-Kept : (m : Manager) → Kept m → Kept (close m)
  unfolding close
  close-Kept m k = ground (arith, k)

  moved-Kept : (m : Manager) (p : Phase) → Bounded p → Kept m → Kept (record m { phase = p })
  moved-Kept m p b k = record { silent = k.silent; bounded = b; counted = k.counted }

  disconnect-Kept : (m : Manager) → Kept m → Kept (trigger_disconnect m)
  unfolding trigger_disconnect
  disconnect-Kept m k =
      close-Kept _ (record { silent = k.silent; bounded = k.bounded; counted = k.counted })

  wait-Bounded :
      (b j : ℕ)
      → cfg.reconnect_base ≤ b
      → b ≤ cfg.reconnect_max
      → j < b / 4
      → Bounded (retrying b j)
  unfolding Bounded wait_of
  wait-Bounded b j low high h = (omega (arith, h), omega (arith, h), low, high)

  backoff_limits :
      (p : Phase) (b j : ℕ)
      → cfg.reconnect_base ≤ cfg.reconnect_max
      → p ≡ retrying b j
      → Bounded p
      → (cfg.reconnect_base ≤ next_backoff cfg b) × (next_backoff cfg b ≤ cfg.reconnect_max)
  unfolding Bounded next_backoff
  backoff_limits p b j sane e h =
      let limits : Bounded (retrying b j) = subst Bounded e h in
      let low = limits.2 in let high = limits.3 in ground (arith, sane, low, high)

  start_parts :
      (topics : List String) (m n : Manager)
      → start topics m ≡ some n
      → (n.last_message ≡ m.last_message)
        × (n.phase ≡ connecting)
        × (n.connected ≡ m.connected)
        × (n.open_conns ≡ m.open_conns)
  unfolding start
  start_parts topics m n h = ground (arith, h)

  start-Kept : (topics : List String) (m n : Manager) → start topics m ≡ some n → Kept m → Kept n
  unfolding Bounded
  start-Kept topics m n h k =
      let parts = start_parts topics m n h in
      record {
        silent = parts.0 ∙ k.silent;
        bounded = subst Bounded (sym parts.1) tt;
        counted = rw (parts.2, parts.3) k.counted;
      }

  stop-Kept : (m : Manager) → Kept m → Kept (stop m)
  unfolding stop
  stop-Kept m k =
      let halted =
        close-Kept (record m { running = false; cancelled = true })
          (record { silent = k.silent; bounded = k.bounded; counted = k.counted }) in
      either halted m.running
    where
      either :
          Kept (close (record m { running = false; cancelled = true }))
          → (b : Bool)
          → Kept (if b then close (record m { running = false; cancelled = true }) else m)
      either halted true = halted
      either halted false = k

  step-Kept :
      (m n : Manager) → cfg.reconnect_base ≤ cfg.reconnect_max → Kept m → Step cfg m n → Kept n
  unfolding Bounded
  step-Kept m n sane k (starts topics p e) = start-Kept topics m n e k
  step-Kept m n sane k stops = stop-Kept m k
  step-Kept m n sane k (leaves p c) = moved-Kept m ended tt k
  step-Kept m n sane k (connects p c) = connect-Kept _ (moved-Kept m subscribing tt k)
  step-Kept m n sane k (connect_fails j p q) =
      moved-Kept m _ (wait-Bounded cfg.reconnect_base j (omega arith) sane q) k
  step-Kept m n sane k (retry_leaves p c) = moved-Kept m ended tt k
  step-Kept m n sane k (retry_connects p c) =
      connect-Kept _ (close-Kept _ (moved-Kept m connecting tt k))
  step-Kept m n sane k (retry_fails {b = b} {j = before} j p q) =
      let limits = backoff_limits m.phase b before sane p k.bounded in
      close-Kept _ (moved-Kept m _ (wait-Bounded (next_backoff cfg b) j limits.0 limits.1 q) k)
  step-Kept m n sane k (subscribes p c) = moved-Kept m reading tt k
  step-Kept m n sane k (subscribe_fails p) = disconnect-Kept _ (moved-Kept m connecting tt k)
  step-Kept m n sane k (reads p c) = record {
    silent = k.silent;
    bounded = k.bounded;
    counted = k.counted;
  }
  step-Kept m n sane k (read_leaves p c) = moved-Kept m connecting tt k
  step-Kept m n sane k (read_fails p) = disconnect-Kept _ (moved-Kept m connecting tt k)
  step-Kept m n sane k (watchdog_fires now o s) = disconnect-Kept m k

  -- For a base of at most the maximum, in every state that a manager reaches, its restarts after a stop
  -- included, a wait before a retry, its jitter included, is at least the base and less than five
  -- quarters of the maximum, the connection in use is open, and no time of a message is noted.
  pub Reach-Kept : (m : Manager) → cfg.reconnect_base ≤ cfg.reconnect_max → Reach cfg m → Kept m
  Reach-Kept m sane begin = new_manager-Kept
  Reach-Kept m sane (step {m = before} r s) = step-Kept before m sane (Reach-Kept before sane r) s

  never_silent : (now : Time) (ts : List String) → any_silent cfg [] now ts ≡ false
  unfolding any_silent last_message_age
  never_silent now [] = refl
  never_silent now (t ∷ ts) = ground (arith, never_silent now ts)

  -- For a base of at most the maximum, in every state that a manager reaches, no topic counts as silent,
  -- however late it is: the watchdog never disconnects.
  pub watchdog_never_fires :
      (m : Manager) (now : Time)
      → cfg.reconnect_base ≤ cfg.reconnect_max
      → Reach cfg m
      → any_silent cfg m.last_message now m.topics ≡ false
  watchdog_never_fires m now sane r =
      ap (λ times. any_silent cfg times now m.topics) (Reach-Kept m sane r).silent
      ∙ never_silent now m.topics

  close_moved :
      (m : Manager) (p : Phase)
      → ((close (record m { phase = p })).phase ≡ p)
        × ((close (record m { phase = p })).cancelled ≡ m.cancelled)
        × ((close (record m { phase = p })).open_conns ≡ (close m).open_conns)
  unfolding close
  close_moved m p = ground arith

  -- Wherever a wait before a retry ends with a connection, `run` may go on to connect once more, and
  -- then two more connections are open than when the wait ended, of which closing ends one: the other
  -- stays open and nothing holds it.
  pub retry_leaks :
      (m : Manager) (b j : ℕ)
      → Reach cfg m
      → m.phase ≡ retrying b j
      → m.cancelled ≡ false
      → (n : Manager) × Reach cfg n
        × (n.phase ≡ subscribing)
        × (n.open_conns ≡ (close m).open_conns + 2)
        × ((close n).open_conns ≡ (close m).open_conns + 1)
        × ((close n).connected ≡ false)
  unfolding connect close
  retry_leaks m b j r p c =
      let retried = connect (close (record m { phase = connecting })) in
      let again = connect (record retried { phase = subscribing }) in
      let closed = close_moved m connecting in
      (
        again,
        step (step r (retry_connects p c)) (connects closed.0 (closed.1 ∙ c)),
        refl,
        omega (arith, closed.2),
        omega (arith, closed.2),
        refl,
      )
