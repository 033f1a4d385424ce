-- ===== src/Tests/ConnRuns.antt =====
-- The theorems on a whole connection at concrete inputs.
use laye.Base.{
  ◌≡◌, refl, ◌∷◌, [], ◌++◌, List, Bytes, true, false, some, codes, ok, err, arith, map, find_sub,
  starts_with, split_once, to_ascii_lowercase, ap, ◌∙◌,
}
use laye.Base.Utf8.{is_utf8, is_utf8-ascii}
use laye.Gateway.Upgrade.{looks_like_websocket_upgrade}
use laye.Relaye.Http.{
  ParsedRequest, find_double_crlf, parse_request, parse_content_length, content_length_of,
  split_crlf,
}
use laye.Relaye.Http.Chunks.{announced}
use laye.Relaye.Routes.{Clock, route}
use laye.Relaye.Conn.{Socket, answered, handle_conn}
use laye.Relaye.Conn.Served.{handle_conn-route}
use laye.Tests.Doubles.{toy}
use laye.Tests.LoginDoubles.{server, calls, web, config, waiting, outside, drawn, json}

abbrev head : Bytes
head = codes "GET /me HTTP/1.1"

abbrev raw : Bytes
raw = head ++ codes "\r\n\r\n"

abbrev seen : Bytes
seen = codes "GET /me"

abbrev pieces : List Bytes
pieces = seen ∷ codes " HTTP/1.1\r\n" ∷ codes "\r\n" ∷ []

abbrev socket : Socket
socket = record {
  peek = ok seen;
  reads = map ok pieces ++ err (codes "reset") ∷ [];
  connect = ok tt;
  copied = ok tt;
  written = ok tt;
  shut = ok tt;
}

abbrev clock : Clock
clock = record { now = 9; later = 10; secs = 11 }

abbrev request : ParsedRequest
request = record { method = codes "GET"; path = codes "/me"; body = [] }

head_found : find_double_crlf raw ≡ some 16
unfolding find_double_crlf find_sub starts_with
head_found = refl

head-is_utf8 : is_utf8 head ≡ true
head-is_utf8 = is_utf8-ascii head (ground arith)

none_announced : announced 16 raw ≡ 0
unfolding parse_content_length content_length_of split_crlf split_once
none_announced = rw head-is_utf8 refl

plain : looks_like_websocket_upgrade raw ≡ false
unfolding looks_like_websocket_upgrade find_sub starts_with to_ascii_lowercase
plain = refl

parsed : parse_request raw 16 20 0 ≡ some request
unfolding parse_request split_crlf split_once
parsed = rw head-is_utf8 refl

handle_conn-route_example :
    let served =
      route toy server calls web json outside
        (λ m. some m)
        clock
        (codes "page")
        request
        config
        tt
        drawn
        waiting
        0 in
    handle_conn toy server calls web json outside
      (λ m. some m)
      clock
      (codes "page")
      socket
      config
      tt
      drawn
      waiting
      0
    ≡ ((answered served.0.0, served.0.1), served.1)
handle_conn-route_example =
    handle_conn-route toy server calls web json outside (λ m. some m) raw seen
      (codes " HTTP/1.1\r\n\r\n") 16 pieces (err (codes "reset") ∷ []) request clock (codes "page")
      socket config tt drawn waiting 0 head_found (omega (arith, none_announced)) (omega arith)
      plain (ground arith) refl (ground arith) refl
      (ap (parse_request raw 16 20) none_announced ∙ parsed) refl refl refl refl

abbrev upgrade : Bytes
upgrade = codes "GET /ws/laye-chat/v1 HTTP/1.1\r\nUpgrade: WebSocket\r\n\r\n"

abbrev upgrading : Socket
upgrading = record socket { peek = ok upgrade }
