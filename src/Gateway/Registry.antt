-- ===== src/Gateway/Registry.antt =====
-- `TopicRegistry`: the sinks of each topic. The registry holds weak references, so the sinks stand
-- on an explicit heap: an address is an index, and a freed sink (its last `Arc` dropped) is `none`.
-- Addresses are not used again.
pub mod Fanout
pub mod Invariant
pub mod Counts
use laye.Base.{
  ℕ, ◌+◌, ◌∷◌, [], ◌++◌, List, Option, none, some, Bytes, length, get_elem?, set, if◌then◌else◌,
}
use laye.Base.Maps.{Map, lookup, insert, lookup_or}
use laye.Gateway.Sink.{BroadcastSink}
use laye.Gateway.Sink

abbrev pub Heap : Type 0
Heap = List (Option BroadcastSink)

pub record TopicRegistry : Type 0 where
  pub heap : Heap
  pub topics : Map (List ℕ)

-- `TopicRegistry::new`, on a heap with no sink.
unfoldable pub empty : TopicRegistry
empty = record { heap = []; topics = [] }

-- `Weak::upgrade`: `none` too for an address that was never given out.
unfoldable pub upgrade : Heap → ℕ → Option BroadcastSink
upgrade h i = elim (get_elem? h i) [ none ↦ none | some s ↦ s ]

-- Returns the address of the new sink.
unfoldable pub subscribe : Bytes → ℕ → TopicRegistry → ℕ × TopicRegistry
subscribe topic cap r =
    let sink = length r.heap in
    (
      sink,
      record {
        heap = r.heap ++ some (Sink.new cap) ∷ [];
        topics = insert topic (lookup_or [] topic r.topics ++ sink ∷ []) r.topics;
      },
    )

-- The closure that `broadcast` hands to `retain`, over the sinks of a topic in order.
unfoldable pub retain : Bytes → List ℕ → Heap → List ℕ × Heap
unfolding upgrade
retain bytes [] h = ([], h)
retain bytes (i ∷ is) h = elim (upgrade h i) [
  | some s ↦ let (kept, h') = retain bytes is (set h i (some (Sink.push bytes s))) in (i ∷ kept, h')
  | none ↦ retain bytes is h
]

unfoldable pub broadcast : Bytes → Bytes → TopicRegistry → TopicRegistry
unfolding retain
broadcast topic bytes r = elim (lookup topic r.topics) [
  | none ↦ r
  | some is ↦
      let (kept, h) = retain bytes is r.heap in
      record { heap = h; topics = insert topic kept r.topics }
]

-- How many of the addresses are live.
unfoldable pub live_count : Heap → List ℕ → ℕ
unfolding upgrade
live_count h [] = 0
live_count h (i ∷ is) = elim (upgrade h i) [ none ↦ live_count h is | some s ↦ live_count h is + 1 ]

unfoldable pub subscriber_count : Bytes → TopicRegistry → ℕ
unfolding live_count
subscriber_count topic r = elim (lookup topic r.topics) [
  | none ↦ 0
  | some is ↦ live_count r.heap is
]

-- The subscriber drops its `Arc`.
unfoldable pub drop_sink : ℕ → TopicRegistry → TopicRegistry
drop_sink i r = record r { heap = set r.heap i none }
