-- ===== src/Gateway/Upgrade/Routing.antt =====
-- What the routing of upgrade requests accepts, and where it sends each.
use laye.Base.{
  ℕ, ◌≡◌, ◌↔◌, ◌≢◌, ◌∙◌, refl, ap, inl, inr, ◌∷◌, [], ◌++◌, List, some, true, Option-cases, Bytes,
  codes, map, take, length, arith, is_some, ◌>>=◌, bytes_eq_iff, Lacks, find_sub,
  starts_with-append, strip_prefix, strip_prefix-append, strip_prefix_sound, split_once-append,
  to_ascii_lowercase, take-length-append,
}
use laye.Base.Maps.{contains}
use laye.Base.Utf8.{is_utf8, from_utf8}
use laye.Gateway.Upgrade.{
  WsUpgradeRoute, looks_like_websocket_upgrade, parse_request_target, route_target,
  classify_ws_upgrade, split_line,
}

map-append' : (f : ℕ → ℕ) (xs ys : Bytes) → map f (xs ++ ys) ≡ map f xs ++ map f ys
map-append' f [] ys = refl
map-append' f (x ∷ xs) ys = ap (λ t. f x ∷ t) (map-append' f xs ys)

find_sub-there : (p pre post : Bytes) → p ≢ [] → is_some (find_sub p (pre ++ (p ++ post))) ≡ true
unfolding find_sub
find_sub-there [] pre post h = absurd (h refl)
find_sub-there (c ∷ p) [] post h = ground (arith, starts_with-append (c ∷ p) post)
find_sub-there (c ∷ p) (x ∷ pre) post h = ground (arith, find_sub-there (c ∷ p) pre post h)

-- The upgrade header is seen anywhere in the peeked bytes and in any mix of cases.
looks_like_websocket_upgrade-header :
    (pre header post : Bytes)
    → map to_ascii_lowercase header ≡ codes "upgrade: websocket"
    → looks_like_websocket_upgrade (pre ++ (header ++ post)) ≡ true
unfolding looks_like_websocket_upgrade
looks_like_websocket_upgrade-header pre header post e =
    ap (λ t. is_some (find_sub needle t)) lowered
    ∙ find_sub-there needle (map to_ascii_lowercase pre) (map to_ascii_lowercase post) (λ q. cc)
  where
    needle : Bytes
    needle = codes "upgrade: websocket"

    lowered :
        map to_ascii_lowercase (pre ++ (header ++ post))
        ≡ map to_ascii_lowercase pre ++ (needle ++ map to_ascii_lowercase post)
    lowered = cc (
      e,
      map-append' to_ascii_lowercase pre (header ++ post),
      map-append' to_ascii_lowercase header post,
    )

find_sub-crlf :
    (line rest : Bytes)
    → Lacks b'\r' line
    → find_sub (codes "\r\n") (line ++ (codes "\r\n" ++ rest)) ≡ some (length line)
unfolding find_sub
find_sub-crlf [] rest h = refl
find_sub-crlf (c ∷ line) rest h = ground (arith, find_sub-crlf line rest h.1)

parse_request_target-line :
    (line rest : Bytes)
    → Lacks b'\r' line
    → is_utf8 line ≡ true
    → parse_request_target (line ++ (codes "\r\n" ++ rest))
      ≡ (split_line line >>= λ parts. some parts.1)
unfolding parse_request_target
parse_request_target-line line rest h u =
    let whole = line ++ (codes "\r\n" ++ rest) in
    let at_end : take (length line) whole ≡ line = take-length-append line (codes "\r\n" ++ rest) in
    rw (find_sub-crlf line rest h, parse_request_target)
      (ap (λ l. from_utf8 l >>= λ line'. split_line line' >>= λ parts. some parts.1) at_end
        ∙ ground (arith, u))

-- The target of a complete request line is the text between its first two spaces.
pub parse_request_target_lem :
    (method target version rest : Bytes)
    → let line = method ++ b' ' ∷ (target ++ b' ' ∷ version) in
      Lacks b' ' method
      → Lacks b' ' target
      → Lacks b'\r' line
      → is_utf8 line ≡ true
      → parse_request_target (line ++ (codes "\r\n" ++ rest)) ≡ some target
unfolding split_line
parse_request_target_lem method target version rest hm ht hl hu =
    parse_request_target-line (method ++ b' ' ∷ (target ++ b' ' ∷ version)) rest hl hu
    ∙ ground (
      arith,
      split_once-append b' ' method (target ++ b' ' ∷ version) hm,
      split_once-append b' ' target version ht,
    )

-- A connection is bridged to a topic exactly when it asks for an upgrade, its request target is
-- `/ws/` and the topic, and the topic is on the allow-list.
pub classify_ws_upgrade-gateway :
    (peek : Bytes) (allow_list : List Bytes) (topic : Bytes)
    → (classify_ws_upgrade peek allow_list ≡ WsUpgradeRoute.gateway topic) ↔ (
        (looks_like_websocket_upgrade peek ≡ true)
        × (parse_request_target peek ≡ some (codes "/ws/" ++ topic))
        × (contains topic allow_list ≡ true))
unfolding classify_ws_upgrade route_target
classify_ws_upgrade-gateway peek allow_list topic = (
  λ e. elim (Option-cases (parse_request_target peek)) [
    | inl n ↦ ground arith
    | inr (t, q) ↦ elim (Option-cases (strip_prefix (codes "/ws/") t)) [
      | inl n ↦ ground arith
      | inr (rest, m) ↦ ground (arith, strip_prefix_sound (codes "/ws/") t m)
    ]
  ],
  λ h. ground (
    arith,
    strip_prefix-append (codes "/ws/") topic,
    bytes_eq_iff (codes "/ws/" ++ topic) (codes "/"),
  ),
)
