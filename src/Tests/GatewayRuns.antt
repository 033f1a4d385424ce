-- ===== src/Tests/GatewayRuns.antt =====
-- The theorems of the gateway at concrete inputs.
use laye.Base.{some, map, Bytes, bytes_eq, ◌≡◌, refl, ◌∷◌, [], ◌++◌, List, true, codes, arith}
use laye.Base.Recent.{keep_last}
use laye.Base.Maps.{lookup, insert}
use laye.Gateway.Sink.{BroadcastSink, new}
use laye.Gateway.Sink as Sink
use laye.Gateway.Sink.Freshest.{IsBounded, push_all, reads, reads-push_all}
use laye.Gateway.Registry.{TopicRegistry, empty, upgrade, broadcast, subscribe, retain, drop_sink}
use laye.Gateway.Registry.Fanout.{among, deliver, sinks, IsValid, upgrade-broadcast}
use laye.Gateway.Registry.Invariant.{
  Step, subscribes, broadcasts, drops, run, step, run-empty-IsValid,
}
use laye.Gateway.Client.{Client, Shared, publish}
use laye.Gateway.Client.Relayed.{send_all, write_all, write_all-send_all}

reads-push_all_example :
    reads 3 (push_all ((1 ∷ []) ∷ (2 ∷ []) ∷ (3 ∷ []) ∷ []) (new 2))
    ≡ keep_last 2 ((1 ∷ []) ∷ (2 ∷ []) ∷ (3 ∷ []) ∷ [])
reads-push_all_example =
    reads-push_all 2 ((1 ∷ []) ∷ (2 ∷ []) ∷ (3 ∷ []) ∷ []) 3 (omega arith) (omega arith)

-- Two subscribers of `a`, one of `b`, and one more of `a` that has gone.
abbrev happened : List Step
happened =
    subscribes (codes "a") 4
    ∷ subscribes (codes "b") 4
    ∷ subscribes (codes "a") 4
    ∷ subscribes (codes "a") 4
    ∷ drops 3
    ∷ broadcasts (codes "a") (9 ∷ [])
    ∷ []

abbrev room : TopicRegistry
room = run empty happened

upgrade-broadcast_example :
    upgrade (broadcast (codes "a") (5 ∷ []) room).heap 2
    ≡ deliver (among 2 (sinks (codes "a") room)) (5 ∷ []) (upgrade room.heap 2)
upgrade-broadcast_example =
    upgrade-broadcast (codes "a") (5 ∷ []) room 2 (run-empty-IsValid happened)

run-empty-IsValid_example : IsValid (run empty happened)
run-empty-IsValid_example = run-empty-IsValid happened

abbrev client : Client
client = record { topic = codes "a"; sink = 0; running = true; written = [] }

abbrev shared : Shared
shared = record { registry = room; cmds = []; receiver_alive = true }

-- The third subscriber, which has a frame waiting.
abbrev reader : Client
reader = record { topic = codes "a"; sink = 2; running = true; written = (0 ∷ []) ∷ [] }

abbrev outbox : BroadcastSink
outbox = record { cap = 4; queue = (9 ∷ []) ∷ [] }

abbrev frames : List Bytes
frames = (5 ∷ []) ∷ (6 ∷ []) ∷ (7 ∷ []) ∷ (8 ∷ []) ∷ []

outbox-IsBounded : IsBounded outbox
outbox-IsBounded = record { positive = omega arith; bounded = omega arith }

outbox_live : upgrade room.heap 2 ≡ some outbox
unfolding run upgrade broadcast subscribe lookup insert bytes_eq retain Sink.push new step drop_sink
    empty
outbox_live = refl

outbox_listed : among 2 (sinks (codes "a") room) ≡ true
unfolding run upgrade broadcast subscribe lookup insert bytes_eq retain Sink.push new step drop_sink
    empty
outbox_listed = refl

write_all-send_all_example :
    ((write_all 4 reader (send_all frames client shared).1).0.written
      ≡ ((0 ∷ []) ∷ []) ++ keep_last 4 (((9 ∷ []) ∷ []) ++ frames))
    × ((send_all frames client shared).1.cmds ≡ [] ++ map (publish (codes "a")) frames)
write_all-send_all_example =
    write_all-send_all frames client reader shared outbox (run-empty-IsValid happened)
      outbox-IsBounded refl refl refl outbox_listed outbox_live
