-- ===== src/Relaye/Stats.antt =====
-- `RelayeStats` of crates/relaye/src/status_page.rs, and `handle_event`, the tick of the metrics and
-- `parse_topics` of crates/relaye/src/main.rs. What only logs is left out.
pub mod Counters
use laye.Base.{
  ℕ, ◌+◌, ◌-◌, ◌*◌, ◌/◌, ◌%◌, ◌^◌, ◌∷◌, [], ◌++◌, List, Bytes, Bool, true, false, length, tail,
  codes, ltb, ◌==◌, if◌then◌else◌,
}
use laye.Base.Decimal.{to_string}
use laye.Gateway.Registry.{TopicRegistry, broadcast}

abbrev pub stats_history_len : ℕ
stats_history_len = 60

-- A rate is `f64`: it is kept as the quotient that it is computed from.
pub record Rate : Type 0 where
  pub messages : ℕ
  pub seconds : ℕ

pub record RelayeStats : Type 0 where
  pub peer_count : ℕ
  pub conn_count : ℕ
  pub total_conns_accepted : ℕ
  pub total_msgs_relayed : ℕ
  pub peer_history : List ℕ
  pub msg_rate_history : List Rate

-- `RelayeStats::default`.
abbrev pub fresh_stats : RelayeStats
fresh_stats = record {
  peer_count = 0;
  conn_count = 0;
  total_conns_accepted = 0;
  total_msgs_relayed = 0;
  peer_history = [];
  msg_rate_history = [];
}

unfoldable pub push_bounded {ℓ} : {A : Type ℓ} → List A → A → List A
push_bounded q x = (if length q == stats_history_len then tail q else q) ++ x ∷ []

unfoldable pub push_sample : Rate → RelayeStats → RelayeStats
unfolding push_bounded
push_sample rate s = record s {
  peer_history = push_bounded s.peer_history s.peer_count;
  msg_rate_history = push_bounded s.msg_rate_history rate;
}

-- `saturating_add(1)` on `u64`; `saturating_sub` is subtraction on ℕ.
abbrev pub saturating_succ : ℕ → ℕ
saturating_succ n = if n == 2 ^ 64 - 1 then n else n + 1

-- The events of the swarm that change something; `other` is every other one.
pub data RelayEvent : Type 0 where
  connection_established connection_closed : RelayEvent
  gossip : Bytes → Bytes → RelayEvent
  other : RelayEvent

pub record Relay : Type 0 where
  pub stats : RelayeStats
  pub registry : TopicRegistry

unfoldable pub handle_event : RelayEvent → Relay → Relay
handle_event connection_established r = record r {
  stats = record r.stats {
    conn_count = saturating_succ r.stats.conn_count;
    peer_count = saturating_succ r.stats.peer_count;
    total_conns_accepted = saturating_succ r.stats.total_conns_accepted;
  };
}
handle_event connection_closed r = record r {
  stats = record r.stats {
    conn_count = r.stats.conn_count - 1;
    peer_count = r.stats.peer_count - 1;
  };
}
handle_event (gossip topic bytes) r = record r {
  stats = record r.stats { total_msgs_relayed = saturating_succ r.stats.total_msgs_relayed };
  registry = broadcast topic bytes r.registry;
}
handle_event other r = r

-- A tick of the metrics: `last_msgs` is the total at the tick before.
unfoldable pub metrics_tick : ℕ → ℕ → RelayeStats → ℕ × RelayeStats
unfolding push_sample
metrics_tick interval_secs last_msgs s = (
  s.total_msgs_relayed,
  push_sample (record { messages = s.total_msgs_relayed - last_msgs; seconds = interval_secs }) s,
)

-- What happens to the relay: an event of the swarm, or a tick every `interval` seconds.
pub data Happening : Type 0 where
  event : RelayEvent → Happening
  tick : Happening

unfoldable pub happen : ℕ → Happening → ℕ × Relay → ℕ × Relay
unfolding handle_event metrics_tick
happen interval (event ev) (last, r) = (last, handle_event ev r)
happen interval tick (last, r) =
    let (last', s) = metrics_tick interval last r.stats in (last', record r { stats = s })

unfoldable pub happen_all : ℕ → List Happening → ℕ × Relay → ℕ × Relay
unfolding happen
happen_all interval [] r = r
happen_all interval (h ∷ hs) r = happen_all interval hs (happen interval h r)

-- `format!("{n:02}")`.
abbrev pub two_digits : ℕ → Bytes
two_digits n = if ltb n 10 then b'0' ∷ to_string n else to_string n

-- The duration in whole seconds.
unfoldable pub format_uptime : ℕ → Bytes
format_uptime total_secs =
    let days = total_secs / 86400 in
    let hours = total_secs % 86400 / 3600 in
    let mins = total_secs % 3600 / 60 in
    if ltb total_secs 60
    then codes "<1m"
    else if ltb 0 days
    then to_string days
      ++ (codes "d " ++ (two_digits hours ++ (codes "h " ++ (two_digits mins ++ codes "m"))))
    else if ltb 0 hours
    then to_string hours ++ (codes "h " ++ (two_digits mins ++ codes "m"))
    else to_string mins ++ codes "m"
