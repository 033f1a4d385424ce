-- ===== src/Relaye/Conn/Served.antt =====
-- From the bytes of a connection to the handler that they reach.
use laye.Base.{
  ℕ, ◌≡◌, ◌≢◌, ◌∙◌, refl, ap, ◌+◌, ◌≤◌, ◌∷◌, [], ◌++◌, List, Bytes, false, Option, none, some,
  codes, map, length, All, Result, ok, arith, find_sub, to_ascii_lowercase, Option-cases, inl, inr,
}
use laye.Base.Search.{find_sub-append}
use laye.Me.Keys.{Ed25519}
use laye.Gateway.Upgrade.{classify_ws_upgrade, looks_like_websocket_upgrade}
use laye.Relaye.Http.{
  ParsedRequest, max_http_request_bytes, find_double_crlf, parse_request, read_full_request,
}
use laye.Relaye.Http.Chunks.{joined, announced, read_full_request-chunks}
use laye.Relaye.Sign.{Outside}
use laye.Relaye.Resolve.{Web}
use laye.Relaye.Dpop.{Poster}
use laye.Relaye.Callback.{ClientConfig, Calls, Cache}
use laye.Relaye.Start.{Drawn, StartJson}
use laye.Relaye.Routes.{Clock, route}
use laye.Relaye.Conn.{
  Socket, End, closed, proxied, failed, answered, bridged, answer, serve, handle_conn,
}

map-append : (f : ℕ → ℕ) (xs ys : Bytes) → map f (xs ++ ys) ≡ map f xs ++ map f ys
map-append f [] ys = refl
map-append f (x ∷ xs) ys = ap (λ t. f x ∷ t) (map-append f xs ys)

-- Where a request asks for no upgrade, no part of it that is seen first does.
looks_like_websocket_upgrade-append :
    (seen rest : Bytes)
    → looks_like_websocket_upgrade (seen ++ rest) ≡ false
    → looks_like_websocket_upgrade seen ≡ false
unfolding looks_like_websocket_upgrade
looks_like_websocket_upgrade-append seen rest h =
    elim (Option-cases (find_sub (codes "upgrade: websocket") (map to_ascii_lowercase seen))) [
      | inl n ↦ rw n refl
      | inr (k, n) ↦
          let found : find_sub (codes "upgrade: websocket") (map to_ascii_lowercase (seen ++ rest))
              ≡ some k =
            ap (find_sub (codes "upgrade: websocket")) (map-append to_ascii_lowercase seen rest)
            ∙ find_sub-append (codes "upgrade: websocket") (map to_ascii_lowercase seen)
                (map to_ascii_lowercase rest) n in
          absurd (ground (arith, found, h))
    ]

-- The topic that an end bridges to.
abbrev pub bridge_of : End → Option Bytes
bridge_of closed = none
bridge_of proxied = none
bridge_of (bridged topic) = some topic
bridge_of (answered response) = none
bridge_of (failed x) = none

module _ {World Key : Type 0} (e : Ed25519) (p : Poster World Key) (calls : Calls World e)
    (web : Web) (json : StartJson) (o : Outside) (write_error : Bytes → Option Bytes) where
  -- A request of at most 64 KiB that asks for no upgrade is answered with what its route makes of it, in
  -- whatever pieces it arrives and however much of it is seen at the first look, and the flows are left
  -- as the route leaves them. The request parses, and the socket takes the answer.
  pub handle_conn-route :
      (raw seen rest : Bytes) (h : ℕ) (chunks : List Bytes) (more : List (Result Bytes Bytes))
      (request : ParsedRequest) (k : Clock) (page : Bytes) (s : Socket) (cfg : ClientConfig)
      (keypair : e.Keypair) (d : Drawn Key) (cache : Cache e p calls) (w : World)
      → find_double_crlf raw ≡ some h
      → length raw ≡ h + 4 + announced h raw
      → length raw ≤ max_http_request_bytes
      → looks_like_websocket_upgrade raw ≡ false
      → seen ≢ []
      → seen ++ rest ≡ raw
      → All (λ c. c ≢ []) chunks
      → joined chunks ≡ raw
      → parse_request raw h (h + 4) (announced h raw) ≡ some request
      → s.peek ≡ ok seen
      → s.reads ≡ map ok chunks ++ more
      → s.written ≡ ok tt
      → s.shut ≡ ok tt
      → let served = route e p calls web json o write_error k page request cfg keypair d cache w in
        handle_conn e p calls web json o write_error k page s cfg keypair d cache w
        ≡ ((answered served.0.0, served.0.1), served.1)
  unfolding handle_conn classify_ws_upgrade serve answer
  handle_conn-route raw [] rest h chunks more request k page s cfg keypair d cache w f l small plain
        ne cut nec whole parses pk rd wr sh =
      absurd (ne refl)
  handle_conn-route raw (b ∷ seen) rest h chunks more request k page s cfg keypair d cache w f l
        small plain ne cut nec whole parses pk rd wr sh =
      let first : looks_like_websocket_upgrade (b ∷ seen) ≡ false =
        looks_like_websocket_upgrade-append (b ∷ seen) rest
          (ap looks_like_websocket_upgrade cut ∙ plain) in
      let got : read_full_request s.reads ≡ ok (some request) =
        ap read_full_request rd
        ∙ (read_full_request-chunks raw h more f l small chunks nec whole ∙ ap ok parses) in
      rw (handle_conn, pk, first, serve, got, answer, wr, sh) refl
