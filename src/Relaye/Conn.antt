-- ===== src/Relaye/Conn.antt =====
-- `handle_conn` of crates/relaye/src/status_page.rs: what becomes of one connection.
pub mod Served
use laye.Base.{ℕ, ◌∷◌, [], List, Bytes, Option, none, some, codes, Result, ok, err}
use laye.Me.Keys.{Ed25519}
use laye.Gateway.Upgrade.{
  WsUpgradeRoute, libp2p, gateway, unknown_path, not_upgrade, classify_ws_upgrade,
}
use laye.Gateway.Response.{build_404_response}
use laye.Relaye.Http.{ParsedRequest, ReadError, io_error, exceeds_size_limit, read_full_request}
use laye.Relaye.Sign.{Outside}
use laye.Relaye.Resolve.{Web}
use laye.Relaye.Dpop.{Poster}
use laye.Relaye.Callback.{ClientConfig, Calls, Cache}
use laye.Relaye.Start.{Drawn, StartJson}
use laye.Relaye.Routes.{Clock, route}

abbrev pub gateway_allow_list : List Bytes
gateway_allow_list =
    codes "rave-positions/v1"
    ∷ codes "rave-chat/v1"
    ∷ codes "laye-chat/v1"
    ∷ codes "laye-identity/v1"
    ∷ []

-- What the calls on the socket give: the first bytes, which stay to be read, the reads one after the
-- other, the link to the libp2p port and the copying both ways, and how a response is written and the
-- socket shut down.
pub record Socket : Type 0 where
  pub peek : Result Bytes Bytes
  pub reads : List (Result Bytes Bytes)
  pub connect : Result Bytes (Unit {0})
  pub copied : Result Bytes (Unit {0})
  pub written : Result Bytes (Unit {0})
  pub shut : Result Bytes (Unit {0})

-- What became of the connection. A bridged one is `handle_client`'s from there on.
pub data End : Type 0 where
  closed : End
  proxied : End
  bridged : Bytes → End
  answered : Bytes → End
  failed : Bytes → End

unfoldable pub answer : Socket → Bytes → End
answer s response = elim s.written [
  | err x ↦ failed x
  | ok u ↦ elim s.shut [ err x ↦ failed x | ok v ↦ answered response ]
]

unfoldable pub proxy : Socket → End
proxy s = elim s.connect [
  | err x ↦ failed x
  | ok u ↦ elim s.copied [ err x ↦ failed x | ok v ↦ proxied ]
]

abbrev pub read_failure : ReadError → Bytes
read_failure (io_error x) = x
read_failure exceeds_size_limit = codes "HTTP request exceeds size limit"

module _ {World Key : Type 0} (e : Ed25519) (p : Poster World Key) (calls : Calls World e)
    (web : Web) (json : StartJson) (o : Outside) (write_error : Bytes → Option Bytes) where
  -- The connection's read of the request, and the answer to it.
  unfoldable pub serve :
      Clock
      → Bytes
      → Socket
      → ClientConfig
      → e.Keypair
      → Drawn Key
      → Cache e p calls
      → World
      → (End × Cache e p calls) × World
  unfolding answer route read_full_request
  serve k page s cfg keypair d cache w = elim (read_full_request s.reads) [
    | err x ↦ ((failed (read_failure x), cache), w)
    | ok none ↦ ((closed, cache), w)
    | ok (some request) ↦
        let ((response, cache'), w') =
          route e p calls web json o write_error k page request cfg keypair d cache w in
        ((answer s response, cache'), w')
  ]

  unfoldable pub follow :
      WsUpgradeRoute
      → Clock
      → Bytes
      → Socket
      → ClientConfig
      → e.Keypair
      → Drawn Key
      → Cache e p calls
      → World
      → (End × Cache e p calls) × World
  unfolding serve proxy answer
  follow libp2p k page s cfg keypair d cache w = ((proxy s, cache), w)
  follow (gateway topic) k page s cfg keypair d cache w = ((bridged topic, cache), w)
  follow unknown_path k page s cfg keypair d cache w = ((answer s build_404_response, cache), w)
  follow not_upgrade k page s cfg keypair d cache w = serve k page s cfg keypair d cache w

  unfoldable pub handle_conn :
      Clock
      → Bytes
      → Socket
      → ClientConfig
      → e.Keypair
      → Drawn Key
      → Cache e p calls
      → World
      → (End × Cache e p calls) × World
  unfolding follow
  handle_conn k page s cfg keypair d cache w = elim s.peek [
    | err x ↦ ((failed x, cache), w)
    | ok [] ↦ ((closed, cache), w)
    | ok (c ∷ cs) ↦
        follow (classify_ws_upgrade (c ∷ cs) gateway_allow_list) k page s cfg keypair d cache w
  ]
