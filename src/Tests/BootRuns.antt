-- ===== src/Tests/BootRuns.antt =====
-- The theorem on a page that is loaded again at concrete inputs.
use laye.Base.{◌≡◌, refl, ◌∷◌, [], Bytes, Option, none, some, codes, arith, Result, ok, bytes_eq}
use laye.Me.Keys.{to_bytes, load}
use laye.P2p.Chat.{fresh_chat}
use laye.P2p.App.{AppState, Outcome, is_internal_topic}
use laye.P2p.Store.{StoreError, load_or_generate, in_memory}
use laye.Net.New.{Libp2p, new}
use laye.P2p.App.Boot.{BootConfig, Browser, init_inner}
use laye.P2p.App.Boot.Persists.{Remembers, init_inner_again}
use laye.Tests.Doubles.{toy, toy-IsLawful, bindings_json}

-- A store that keeps what is written last.
abbrev browser : Browser (Option Bytes)
browser = record {
  idb_open = λ d. ok tt;
  idb_load_bytes = λ d. ok d;
  idb_save_bytes = λ bytes d. (ok tt, some bytes);
  idb_load_bindings = λ d. ok [];
  install_error_overlay = none;
  install_chat_overlay = none;
}

browser-Remembers : Remembers browser
browser-Remembers = record { read_back = λ bytes d d' h. ground (arith, h) }

abbrev libp2p : Libp2p toy
libp2p = record { print_peer_id = λ kp. codes "peer"; build_swarm = λ kp protocol. ok tt }

abbrev config : Result Bytes BootConfig
config =
    ok (record { bootstrap_addrs = []; topics = codes "rave" ∷ []; identify_protocol = codes "id" })

abbrev blank : AppState
blank = record {
  net = none;
  rx = record { queues = [] };
  peer_id_hex = [];
  self_pubkey = none;
  chat = fresh_chat;
  bindings = [];
  self_bindings = [];
  topic_peers = [];
  pending_sends = [];
  pipe = record { buffer = []; counter = 0 };
}

abbrev print_store : StoreError toy → Bytes
print_store x = codes "store"

abbrev run : AppState → Option Bytes → Outcome × Option Bytes
run st d = init_inner toy print_store libp2p browser bindings_json (codes "0") config tt st d

abbrev first : Outcome × Option Bytes
first = run blank none

abbrev second : Outcome × Option Bytes
second = run blank first.1

first_ok : run blank none ≡ ((ok tt, first.0.1), first.1)
unfolding init_inner is_internal_topic bytes_eq load_or_generate in_memory to_bytes new
first_ok = refl

second_ok : run blank first.1 ≡ ((ok tt, second.0.1), second.1)
unfolding init_inner is_internal_topic bytes_eq load_or_generate in_memory to_bytes load new
second_ok = refl

init_inner_again_example :
    (toy.public_bytes tt ≡ first.0.1.self_pubkey)
    × ((second.0.1.self_pubkey ≡ first.0.1.self_pubkey)
        × ((second.0.1.peer_id_hex ≡ first.0.1.peer_id_hex) × (second.1 ≡ first.1)))
init_inner_again_example =
    init_inner_again toy print_store libp2p browser bindings_json (codes "0") (codes "0") config
      config tt tt blank first.0.1 blank second.0.1 none first.1 second.1 toy-IsLawful
      browser-Remembers refl first_ok second_ok
