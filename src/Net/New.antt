-- ===== src/Net/New.antt =====
-- `new` of crates/net/src/lib.rs: a handle, and what its driver starts with. Building the swarm is
-- libp2p's, and so is the printer of a peer id.
use laye.Base.{[], List, Bytes, true, Result, ok}
use laye.Base.Try.{◌>>=◌}
use laye.Me.Keys.{Ed25519}
use laye.Net.{Net, NetError}

module _ (e : Ed25519) where
  pub record NetConfig : Type 0 where
    pub bootstrap_addrs : List Bytes
    pub keypair : e.Keypair
    pub topics : List Bytes
    pub identify_protocol : Bytes

  pub record Libp2p : Type 0 where
    pub print_peer_id : e.Keypair → Bytes
    pub build_swarm : e.Keypair → Bytes → Result NetError (Unit {0})

  -- What `drive_swarm` is given beside the channel and the queue of the handle.
  pub record Drive : Type 0 where
    pub bootstrap_addrs : List Bytes
    pub initial_topics : List Bytes

  unfoldable pub new : Libp2p → NetConfig → Result NetError (Net × Drive)
  new p c = do
    swarm ← p.build_swarm c.keypair c.identify_protocol
    ok (
      record {
        self_peer_id = p.print_peer_id c.keypair;
        cmds = [];
        receiver_alive = true;
        events = [];
      },
      record { bootstrap_addrs = c.bootstrap_addrs; initial_topics = c.topics },
    )
