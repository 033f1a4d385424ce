-- ===== src/Gateway/Sink.antt =====
-- `BroadcastSink`: one subscriber's outbox, a bounded queue that drops its oldest frame.
-- `notify` is left out: it says when a waiting `next` is polled again, and not what it finds.
pub mod Freshest
use laye.Base.{ℕ, ◌∷◌, [], ◌++◌, List, Option, none, some, Bytes, leb, length, tail, if◌then◌else◌}

pub record BroadcastSink : Type 0 where
  pub cap : ℕ
  pub queue : List Bytes

-- `BroadcastSink::new`.
unfoldable pub new : ℕ → BroadcastSink
new cap = record { cap = cap; queue = [] }

unfoldable pub push : Bytes → BroadcastSink → BroadcastSink
push bytes s = record s {
  queue = (if leb s.cap (length s.queue) then tail s.queue else s.queue) ++ bytes ∷ [];
}

-- What a pop of the front frame returns, and the queue that it leaves.
pop_front : List Bytes → Option Bytes × List Bytes
pop_front [] = (none, [])
pop_front (b ∷ q) = (some b, q)

unfoldable pub try_next : BroadcastSink → Option Bytes × BroadcastSink
unfolding pop_front
try_next s = let (b, q) = pop_front s.queue in (b, record s { queue = q })

-- One round of `next`: `none` is a task that waits for a notification.
unfoldable pub poll_next : BroadcastSink → Option (Bytes × BroadcastSink)
poll_next s = elim s.queue [ [] ↦ none | b ∷ q ↦ some (b, record s { queue = q }) ]
