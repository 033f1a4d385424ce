-- ===== src/Relaye/Http.antt =====
-- The reading of a request in crates/relaye/src/status_page.rs: pieces are read until the head and the
-- body that its Content-Length announces are there.
pub mod Chunks
pub mod Limits
use laye.Base.{
  ℕ, ◌+◌, ◌-◌, ◌*◌, ◌^◌, ◌∷◌, [], ◌++◌, List, Bytes, Bool, true, false, ◌&&◌, Option, none, some,
  codes, map, take, drop, length, is_empty, get_or_else, find_sub, split_once, to_ascii_lowercase,
  bytes_eq, leb, ltb, ◌==◌, if◌then◌else◌, Result, ok, err, ◌>>=◌,
}
use laye.Base.Trim.{trim}
use laye.Base.Utf8.{from_utf8}

abbrev pub max_http_request_bytes : ℕ
max_http_request_bytes = 65536

pub record ParsedRequest : Type 0 where
  pub method : Bytes
  pub path : Bytes
  pub body : Bytes

abbrev pub double_crlf : Bytes
double_crlf = codes "\r\n\r\n"

unfoldable pub find_double_crlf : Bytes → Option ℕ
find_double_crlf buf = find_sub double_crlf buf

-- `split("\r\n")`.
unfoldable pub split_crlf : Bytes → List Bytes
split_crlf [] = [] ∷ []
split_crlf (c ∷ []) = (c ∷ []) ∷ []
split_crlf (c ∷ d ∷ s) =
    let after = split_crlf s in
    let next = split_crlf (d ∷ s) in
    if c == b'\r' && d == b'\n'
    then [] ∷ after
    else elim next [ [] ↦ (c ∷ []) ∷ [] | l ∷ ls ↦ (c ∷ l) ∷ ls ]

-- `parse::<usize>()` on 64 bits: digits, perhaps behind a plus sign, that do not overflow.
unfoldable pub parse_digits : ℕ → Bytes → Option ℕ
parse_digits n [] = some n
parse_digits n (c ∷ s) =
    let more = n * 10 + (c - b'0') in
    let rest = parse_digits more s in
    if leb b'0' c && leb c b'9' && ltb more (2 ^ 64) then rest else none

unfoldable pub parse_usize : Bytes → Option ℕ
unfolding parse_digits
parse_usize [] = none
parse_usize (c ∷ s) =
    if c == b'+' then (if is_empty s then none else parse_digits 0 s) else parse_digits 0 (c ∷ s)

-- The first line named Content-Length decides, even where its value is no number.
unfoldable pub content_length_of : List Bytes → Option ℕ
unfolding parse_usize
content_length_of [] = none
content_length_of (line ∷ lines) =
    let rest = content_length_of lines in
    elim (split_once b':' line) [
      | none ↦ rest
      | some (name, value) ↦
          if bytes_eq (map to_ascii_lowercase (trim name)) (codes "content-length")
          then parse_usize (trim value)
          else rest
    ]

unfoldable pub parse_content_length : Bytes → Option ℕ
unfolding split_crlf content_length_of
parse_content_length head = do head_str ← from_utf8 head; content_length_of (split_crlf head_str)

abbrev pub first_line : List Bytes → Option Bytes
first_line [] = none
first_line (l ∷ ls) = some l

unfoldable pub parse_request : Bytes → ℕ → ℕ → ℕ → Option ParsedRequest
unfolding split_crlf
parse_request buf head_end body_start body_len = do
  head ← from_utf8 (take head_end buf)
  first ← first_line (split_crlf head)
  (method, rest) ← split_once b' ' first
  some (record {
    method = method;
    path = elim (split_once b' ' rest) [ none ↦ rest | some (path, version) ↦ path ];
    body = take body_len (drop body_start buf);
  })

-- The request in the buffer, once all of it is there.
unfoldable pub complete : Bytes → Option (Option ParsedRequest)
unfolding find_double_crlf parse_content_length parse_request
complete buf = elim (find_double_crlf buf) [
  | none ↦ none
  | some head_end ↦
      let need = get_or_else (parse_content_length (take head_end buf)) 0 in
      if leb need (length buf - (head_end + 4))
      then some (parse_request buf head_end (head_end + 4) need)
      else none
]

pub data ReadError : Type 0 where
  io_error : Bytes → ReadError
  exceeds_size_limit : ReadError

-- The results of `socket.read`, one after the other; reading nothing is the end of the stream.
unfoldable pub read_loop :
    Bytes → List (Result Bytes Bytes) → Result ReadError (Option ParsedRequest)
unfolding complete
read_loop buf [] = ok none
read_loop buf (err e ∷ reads) = err (io_error e)
read_loop buf (ok [] ∷ reads) = ok none
read_loop buf (ok (c ∷ cs) ∷ reads) =
    let buf' = buf ++ c ∷ cs in
    let rest = read_loop buf' reads in
    elim (complete buf') [
      | some request ↦ ok request
      | none ↦ if ltb max_http_request_bytes (length buf') then err exceeds_size_limit else rest
    ]

unfoldable pub read_full_request :
    List (Result Bytes Bytes) → Result ReadError (Option ParsedRequest)
unfolding read_loop
read_full_request reads = read_loop [] reads
