-- ===== src/Net.antt =====
-- crates/net/src/lib.rs and crates/protocol/src/lib.rs: the errors and the events of the transport,
-- and the handle through which commands go in and events come out. `PeerId` and `Topic` wrap a string.
pub mod Swarm
pub mod New
use laye.Base.{
  ℕ, ◌∷◌, [], ◌++◌, List, Bytes, Bool, true, false, codes, Result, ok, err, if◌then◌else◌,
}

pub data NetError : Type 0 where
  publish_failed subscribe_failed : Bytes → Bytes → NetError
  not_connected : Bytes → NetError
  invalid_topic : Bytes → Bytes → NetError
  provider_internal : Bytes → NetError

pub data NetEvent : Type 0 where
  peer_up : Bytes → List Bytes → NetEvent
  peer_down : Bytes → Bytes → NetEvent
  -- The topic, the sender, the bytes, and the time of arrival in milliseconds.
  message : Bytes → Bytes → Bytes → ℕ → NetEvent
  subscription_change : Bytes → Bytes → Bool → NetEvent
  error : NetError → NetEvent

pub data Cmd : Type 0 where
  publish_cmd : Bytes → Bytes → Cmd
  subscribe_cmd unsubscribe_cmd : Bytes → Cmd

-- The channel of commands is unbounded: a send fails only when the loop of the swarm is gone.
pub record Net : Type 0 where
  pub self_peer_id : Bytes
  pub cmds : List Cmd
  pub receiver_alive : Bool
  pub events : List NetEvent

unfoldable pub send_cmd : Bytes → Cmd → Net → Result NetError (Unit {0}) × Net
send_cmd what c n = if n.receiver_alive then (ok tt, record n { cmds = n.cmds ++ c ∷ [] }) else (
  err (provider_internal (what ++ codes " cmd send: send failed because receiver is gone")),
  n,
)

unfoldable pub publish : Bytes → Bytes → Net → Result NetError (Unit {0}) × Net
unfolding send_cmd
publish topic bytes n = send_cmd (codes "publish") (publish_cmd topic bytes) n

unfoldable pub subscribe : Bytes → Net → Result NetError (Unit {0}) × Net
unfolding send_cmd
subscribe topic n = send_cmd (codes "subscribe") (subscribe_cmd topic) n

unfoldable pub unsubscribe : Bytes → Net → Result NetError (Unit {0}) × Net
unfolding send_cmd
unsubscribe topic n = send_cmd (codes "unsubscribe") (unsubscribe_cmd topic) n

unfoldable pub poll_events : Net → List NetEvent × Net
poll_events n = (n.events, record n { events = [] })
