-- ===== src/P2p/App/Boot.antt =====
-- `init_inner` of crates/laye-p2p/src/wasm.rs: the page's identity is read from the browser's store, or
-- minted and saved there, and the transport is started under it. The wrappers of IndexedDB and of the
-- page's elements only call the browser, which is a parameter.
pub mod Persists
use laye.Base.{
  ◌∷◌, [], ◌++◌, List, Bytes, Bool, Option, none, some, codes, em_dash, filter, is_empty,
  if◌then◌else◌, Result, ok, err, ok_or,
}
use laye.Base.Maps.{insert}
use laye.Base.Try.{◌>>=◌, ◌>>◌, map_err}
use laye.Me.Hex.{hex_lower}
use laye.Me.Keys.{Ed25519}
use laye.Me.Claims.{SignedBinding}
use laye.Me.Wire.{Json, BindingJson}
use laye.Net.{Net, NetError}
use laye.Net.New.{NetConfig, Libp2p, Drive, new}
use laye.P2p.Errors.{Severity, warn, severe}
use laye.P2p.Chat.{chat_topic, legacy_chat_topic}
use laye.P2p.Identity.{identity_topic}
use laye.P2p.Store.{StoreError, InMemoryStore, in_memory, load_or_generate}
use laye.P2p.App.{AppState, Outcome, fail, emit_err, is_internal_topic, print_net_error}
use laye.P2p.App.Login.{republish_self_bindings}

pub record BootConfig : Type 0 where
  pub bootstrap_addrs : List Bytes
  pub topics : List Bytes
  pub identify_protocol : Bytes

-- The arguments of `build` for an error, less the surface.
pub record Failure : Type 0 where
  pub severity : Severity
  pub region : Bytes
  pub title : Bytes
  pub why : Bytes

-- IndexedDB over its state, and what the page refuses when the overlays are mounted, if it does.
pub record Browser (D : Type 0) : Type 0 where
  pub idb_open : D → Result Bytes (Unit {0})
  pub idb_load_bytes : D → Result Bytes (Option Bytes)
  pub idb_save_bytes : Bytes → D → Result Bytes (Unit {0}) × D
  pub idb_load_bindings : D → Result Bytes (List SignedBinding)
  pub install_error_overlay : Option Failure
  pub install_chat_overlay : Option Failure

abbrev because : Severity → Bytes → Bytes → Bytes → Failure
because severity region title why = record {
  severity = severity;
  region = region;
  title = title;
  why = why;
}

-- `iter().find(..)`.
unfoldable pub find_internal : List Bytes → Option Bytes
find_internal [] = none
find_internal (t ∷ ts) = let rest = find_internal ts in if is_internal_topic t then some t else rest

unfoldable pub check_config : Result Bytes BootConfig → Result Failure BootConfig
unfolding find_internal
check_config parsed = do
  config ←
      map_err (because severe (codes "init-config-parse") (codes "init config parse failed")) parsed
  elim (find_internal config.topics) [
    | none ↦ ok config
    | some bad ↦ err (
        because severe (codes "init-topic-guard")
          (codes "host attempted to subscribe to a laye-p2p-internal topic")
          (bad
            ++ (codes " is internal (laye-chat/v1, laye-identity/v1, rave-chat/v1) "
                ++ (em_dash ++ codes " subscribed automatically"))))
  ]

-- The topics of the host, then those of the page itself.
abbrev pub all_topics : List Bytes → List Bytes
all_topics topics = topics ++ chat_topic ∷ legacy_chat_topic ∷ identity_topic ∷ []

module _ (e : Ed25519) (print_store : StoreError e → Bytes) (p : Libp2p e) where
  -- The key pair, and the bytes that are still to be saved where it was minted.
  unfoldable pub read_identity :
      e.Keypair → Option Bytes → Result Failure (e.Keypair × Option Bytes)
  read_identity fresh existing =
      let (loaded, store) = load_or_generate e (in_memory e) fresh existing in
      (do
        keypair ←
            map_err
              (λ x.
                because severe (codes "identity-mint") (codes "identity load-or-generate failed")
                  (print_store x))
              loaded
        elim existing [
          | some b ↦ ok (keypair, none)
          | none ↦ elim store [
            | some b ↦ ok (keypair, some b)
            | none ↦ err (
                because severe (codes "identity-store") (codes "mint did not populate store")
                  (codes "load returned None after fresh()"))
          ]
        ])

  pub record Booted : Type 0 where
    pub net : Net
    pub drive : Drive e
    pub peer_id_hex : Bytes
    pub self_pubkey : Bytes
    pub self_bindings : List SignedBinding

  module _ {D : Type 0} (b : Browser D) where
    -- All that is read before anything is written.
    unfoldable pub read_boot :
        Result Bytes BootConfig
        → e.Keypair
        → D
        → Result Failure (BootConfig × e.Keypair × Option Bytes)
    unfolding check_config read_identity
    read_boot parsed fresh d = do
      config ← check_config parsed
      db ←
          map_err (because severe (codes "idb-open") (codes "IndexedDB open failed")) (b.idb_open d)
      existing ←
          map_err
            (because severe (codes "idb-load-identity") (codes "IndexedDB load identity failed"))
            (b.idb_load_bytes d)
      (keypair, minted) ← read_identity fresh existing
      ok (config, keypair, minted)

    unfoldable pub save_minted : Option Bytes → D → Result Failure (Unit {0}) × D
    save_minted none d = (ok tt, d)
    save_minted (some bytes) d =
        let (r, d') = b.idb_save_bytes bytes d in
        (
          map_err
              (because severe (codes "idb-save-identity") (codes "IndexedDB save identity failed"))
              r,
          d',
        )

    unfoldable pub start_net : BootConfig → e.Keypair → D → Result Failure Booted
    start_net config keypair d = do
      pubkey ← ok_or (e.public_bytes keypair) (
          because severe (codes "identity-nonEd25519") (codes "public key is not Ed25519")
            (codes "wrong kind"))
      bindings ←
          map_err
            (because warn (codes "idb-load-bindings") (codes "IndexedDB load bindings failed"))
            (b.idb_load_bindings d)
      (net, drive) ←
          map_err
            (λ x.
              because severe (codes "net-build") (codes "laye_net::new failed") (print_net_error x))
            (new e p (record {
              bootstrap_addrs = config.bootstrap_addrs;
              keypair = keypair;
              topics = all_topics config.topics;
              identify_protocol = config.identify_protocol;
            }))
      ok (record {
        net = net;
        drive = drive;
        peer_id_hex = hex_lower pubkey;
        self_pubkey = pubkey;
        self_bindings = bindings;
      })

    unfoldable pub boot : Result Bytes BootConfig → e.Keypair → D → Result Failure Booted × D
    unfolding read_boot save_minted start_net
    boot parsed fresh d = elim (read_boot parsed fresh d) [
      | err x ↦ (err x, d)
      | ok (config, keypair, minted) ↦
          let (saved, d') = save_minted minted d in (saved >> start_net config keypair d', d')
    ]

    -- The one write to the thread's `STATE`.
    unfoldable pub enter : Booted → AppState → AppState
    enter x st = record st {
      net = some x.net;
      peer_id_hex = x.peer_id_hex;
      self_pubkey = some x.self_pubkey;
      bindings =
          if is_empty x.self_bindings
          then st.bindings
          else insert x.self_pubkey x.self_bindings st.bindings;
      self_bindings = x.self_bindings;
    }

    abbrev pub refuse : Bytes → Failure → AppState → Outcome
    refuse now x st = fail now x.severity x.region x.title x.why st

    unfoldable pub mount_overlays : Json (List BindingJson) → Bytes → AppState → Outcome
    mount_overlays jb now st = elim b.install_error_overlay [
      | some x ↦ refuse now x st
      | none ↦ elim b.install_chat_overlay [
        | some x ↦ refuse now x st
        | none ↦ (ok tt, republish_self_bindings jb now st)
      ]
    ]

    unfoldable pub init_inner :
        Json (List BindingJson)
        → Bytes
        → Result Bytes BootConfig
        → e.Keypair
        → AppState
        → D
        → Outcome × D
    unfolding boot enter mount_overlays
    init_inner jb now parsed fresh st d =
        let (r, d') = boot parsed fresh d in
        (elim r [ err x ↦ refuse now x st | ok x ↦ mount_overlays jb now (enter x st) ], d')

    unfoldable pub init :
        Json (List BindingJson)
        → Bytes
        → Result Bytes BootConfig
        → e.Keypair
        → AppState
        → D
        → AppState × D
    unfolding init_inner
    init jb now parsed fresh st d =
        let (r, d') = init_inner jb now parsed fresh st d in (emit_err r, d')
