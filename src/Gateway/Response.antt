-- ===== src/Gateway/Response.antt =====
-- The two fixed responses of the gateway.
use laye.Base.{◌++◌, Bytes, codes, length}
use laye.Base.Decimal.{to_string}

-- The body is as long as its `Content-Length` says.
headed : Bytes → Bytes → Bytes
headed status body =
    status
    ++ codes "Content-Type: text/plain; charset=utf-8\r\nContent-Length: "
    ++ to_string (length body)
    ++ codes "\r\nCache-Control: no-store\r\nConnection: close\r\n\r\n"
    ++ body

unfoldable pub build_404_response : Bytes
unfolding headed
build_404_response = headed (codes "HTTP/1.1 404 Not Found\r\n") (codes "not found\n")

unfoldable pub build_501_response : Bytes → Bytes
unfolding headed
build_501_response reason = headed (codes "HTTP/1.1 501 Not Implemented\r\n") (reason ++ codes "\n")
