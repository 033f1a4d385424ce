-- ===== src/Tests/SwarmRuns.antt =====
-- The theorems on the swarm's loop at concrete inputs.
use laye.Base.{
  Bool, false, Option, some, map, drop, ℕ, ◌≡◌, ◌+◌, ◌∷◌, [], ◌++◌, List, none, codes, length, ok,
  err, true,
}
use laye.Net.{Net, publish_cmd, subscribe_cmd}
use laye.Net.Swarm.{Transport, gossip_message, SwarmEvent, drive}
use laye.Net.Swarm.Calls.{Call, recording, errors_of, told}
use laye.Net.Swarm.Rounds.{drive-recording}

-- A transport that counts what it is asked, and refuses to publish.
abbrev counting : Transport
counting = record {
  Swarm = ℕ;
  publish = λ topic bytes s. (err (codes "NoPeersSubscribedToTopic"), s + 1);
  subscribe = λ topic s. (ok tt, s + 1);
  unsubscribe = λ topic s. (ok tt, s + 1);
  parse_multiaddr = λ a. ok a;
  dial = λ a s. (ok tt, s);
}

abbrev net : Net
net = record {
  self_peer_id = codes "me";
  receiver_alive = true;
  cmds = publish_cmd (codes "a") (1 ∷ []) ∷ subscribe_cmd (codes "a") ∷ [];
  events = [];
}

abbrev message_comes : Option (ℕ × SwarmEvent)
message_comes = some (7, gossip_message (codes "p") none (codes "a") (2 ∷ []))

-- Two commands wait, an event is ready all along, and in the end every sender is gone.
abbrev turns : List (Bool × Option (ℕ × SwarmEvent))
turns =
    (false, message_comes)
    ∷ (false, none)
    ∷ (false, message_comes)
    ∷ (true, none)
    ∷ (false, message_comes)
    ∷ []

drive-recording_example :
    let ((s', calls), n') = drive (recording counting) turns (0, []) net in
    (map (λ (c : Call). c.0) calls ++ n'.cmds ≡ net.cmds)
    × ((n'.cmds ≡ drop (length turns) net.cmds)
        × (n'.events ≡ net.events ++ (errors_of calls ++ told (drop (length net.cmds) turns))))
drive-recording_example = drive-recording counting turns 0 net
