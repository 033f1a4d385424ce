-- ===== src/Gateway/Upgrade.antt =====
-- Which handler a connection goes to, from its first peeked bytes.
pub mod Routing
use laye.Base.{
  ℕ, ◌∷◌, [], List, Option, none, some, true, false, Bool, Bytes, codes, map, any, take, arith,
  if◌then◌else◌, ◌>>=◌, bytes_eq, find_sub, strip_prefix, split_once, to_ascii_lowercase, is_some,
}
use laye.Base.Maps.{contains}
use laye.Base.Utf8.{from_utf8, is_utf8}

pub data WsUpgradeRoute : Type 0 where
  libp2p : WsUpgradeRoute
  gateway : Bytes → WsUpgradeRoute
  unknown_path : WsUpgradeRoute
  not_upgrade : WsUpgradeRoute

unfoldable pub looks_like_websocket_upgrade : Bytes → Bool
looks_like_websocket_upgrade bytes =
    is_some (find_sub (codes "upgrade: websocket") (map to_ascii_lowercase bytes))

-- `line.splitn(3, ' ')`, its first three parts: method, target and version.
unfoldable pub split_line : Bytes → Option (Bytes × Bytes × Bytes)
split_line line = do
  (method, rest) ← split_once b' ' line
  (target, version) ← split_once b' ' rest
  some (method, target, version)

unfoldable pub parse_request_target : Bytes → Option Bytes
unfolding split_line
parse_request_target peek = do
  first_crlf ← find_sub (codes "\r\n") peek
  line ← from_utf8 (take first_crlf peek)
  (method, target, version) ← split_line line
  some target

-- The route of an upgrade request, from its target.
unfoldable pub route_target : Bytes → List Bytes → WsUpgradeRoute
route_target target allow_list =
    if bytes_eq target (codes "/")
    then WsUpgradeRoute.libp2p
    else elim (strip_prefix (codes "/ws/") target) [
      | none ↦ WsUpgradeRoute.unknown_path
      | some topic ↦
          if contains topic allow_list
          then WsUpgradeRoute.gateway topic
          else WsUpgradeRoute.unknown_path
    ]

unfoldable pub classify_ws_upgrade : Bytes → List Bytes → WsUpgradeRoute
classify_ws_upgrade peek allow_list =
    if looks_like_websocket_upgrade peek
    then elim (parse_request_target peek) [
      | none ↦ WsUpgradeRoute.not_upgrade
      | some target ↦ route_target target allow_list
    ]
    else WsUpgradeRoute.not_upgrade
