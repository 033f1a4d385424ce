-- ===== src/Relaye/Percent.antt =====
-- Percent coding: `percent_decode` and `hex_nibble` of crates/relaye/src/status_page.rs, and
-- `url_encode_form` and `percent_encode_into` of crates/relaye/src/oauth_atproto.rs.
pub mod RoundTrip
pub mod Query
use laye.Base.{
  ℕ, ◌+◌, ◌-◌, ◌*◌, ◌/◌, ◌%◌, ◌∷◌, [], ◌++◌, List, Bytes, Bool, true, false, ◌&&◌, ◌||◌, Option,
  none, some, ltb, leb, ◌==◌, if◌then◌else◌, get_or_else, split, split_once, is_empty,
}
use laye.Base.Maps.{Map, insert}
use laye.Base.Utf8.{from_utf8}

unfoldable pub hex_nibble : ℕ → Option ℕ
hex_nibble c =
    if leb b'0' c && leb c b'9'
    then some (c - b'0')
    else if leb b'a' c && leb c b'f'
    then some (10 + c - b'a')
    else if leb b'A' c && leb c b'F'
    then some (10 + c - b'A')
    else none

-- Two digits that are both hexadecimal: `(h << 4) | l` of two values below 16.
unfoldable pub hex_pair : ℕ → ℕ → Option ℕ
unfolding hex_nibble
hex_pair a b = elim (hex_nibble a) [
  | none ↦ none
  | some h ↦ elim (hex_nibble b) [ none ↦ none | some l ↦ some (h * 16 + l) ]
]

abbrev pub plus_to_space : ℕ → ℕ
plus_to_space c = if c == b'+' then 32 else c

-- The bytes from `i` on. A `%` is an escape only where two bytes follow it and both are digits.
unfoldable pub decode_bytes : Bytes → Bytes
unfolding hex_pair
decode_bytes (c ∷ a ∷ b ∷ s) =
    let after = decode_bytes s in
    let next = decode_bytes (a ∷ b ∷ s) in
    if c == b'%'
    then elim (hex_pair a b) [ none ↦ c ∷ next | some n ↦ n ∷ after ]
    else plus_to_space c ∷ next
decode_bytes (c ∷ s) = plus_to_space c ∷ decode_bytes s
decode_bytes [] = []

-- `String::from_utf8(out).unwrap_or_default()`.
unfoldable pub percent_decode : Bytes → Bytes
unfolding decode_bytes
percent_decode s = get_or_else (from_utf8 (decode_bytes s)) []

unfoldable pub put_pairs : List Bytes → Map Bytes → Map Bytes
unfolding percent_decode
put_pairs [] m = m
put_pairs (pair ∷ pairs) m =
    let (k, v) = get_or_else (split_once b'=' pair) (pair, []) in
    let m' = if is_empty pair then m else insert (percent_decode k) (percent_decode v) m in
    put_pairs pairs m'

unfoldable pub split_path_and_query : Bytes → Bytes × Map Bytes
unfolding put_pairs
split_path_and_query raw =
    let (path, qs) = get_or_else (split_once b'?' raw) (raw, []) in
    (path, put_pairs (split b'&' qs) [])

abbrev pub is_unreserved : ℕ → Bool
is_unreserved c =
    (leb b'A' c && leb c b'Z')
    || (leb b'a' c && leb c b'z')
    || (leb b'0' c && leb c b'9')
    || (c == b'-')
    || (c == b'_')
    || (c == b'.')
    || (c == b'~')

-- The upper-case digit of `{:02X}`.
unfoldable pub hex_upper_digit : ℕ → ℕ
hex_upper_digit n = if ltb n 10 then b'0' + n else b'A' + (n - 10)

unfoldable pub percent_encode : Bytes → Bytes
unfolding hex_upper_digit
percent_encode [] = []
percent_encode (c ∷ s) =
    let rest = percent_encode s in
    if is_unreserved c
    then c ∷ rest
    else b'%' ∷ hex_upper_digit (c / 16) ∷ hex_upper_digit (c % 16) ∷ rest

unfoldable pub url_encode_form : List (Bytes × Bytes) → Bytes
unfolding percent_encode
url_encode_form [] = []
url_encode_form ((k, v) ∷ []) = percent_encode k ++ b'=' ∷ percent_encode v
url_encode_form ((k, v) ∷ p ∷ ps) =
    percent_encode k ++ b'=' ∷ (percent_encode v ++ b'&' ∷ url_encode_form (p ∷ ps))
