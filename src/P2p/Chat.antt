-- ===== src/P2p/Chat.antt =====
-- crates/laye-p2p/src/chat.rs: the chat protocol.
pub mod History
pub mod Receive
use laye.Base.{
  ℕ, suc, zero, ◌+◌, ◌∷◌, [], ◌++◌, List, Bytes, Bool, true, false, not, ◌&&◌, ◌||◌, Option, none,
  some, codes, length, take, get_elem?, leb, ltb, bytes_eq, if◌then◌else◌, ◌>>=◌, Result, ok, err,
}
use laye.Base.Maps.{Map, lookup}
use laye.Me.Hex.{hex_lower}
use laye.Me.Keys.{Ed25519}
use laye.Me.Claims.{SignedChat, SignedBinding, chat_canonical_bytes, verify_chat}
use laye.Me.Wire.{Json, ChatJson, chat_to_json, chat_from_json}

abbrev pub chat_topic : Bytes
chat_topic = codes "laye-chat/v1"

abbrev pub legacy_chat_topic : Bytes
legacy_chat_topic = codes "rave-chat/v1"

abbrev pub history_cap : ℕ
history_cap = 40

abbrev pub max_body_bytes : ℕ
max_body_bytes = 512

pub record PlaintextChat : Type 0 where
  pub peer : Bytes
  pub body : Bytes
  pub at_ms : ℕ

pub data IncomingChat : Type 0 where
  signed : SignedChat → IncomingChat
  plaintext : PlaintextChat → IncomingChat

pub record ChatEntry : Type 0 where
  pub who : Bytes
  pub body : Bytes

pub record ChatState : Type 0 where
  pub history : List ChatEntry
  pub cap : ℕ

-- `ChatState::default`.
abbrev pub fresh_chat : ChatState
fresh_chat = record { history = []; cap = history_cap }

-- `while self.history.len() > self.cap { pop_front }`.
unfoldable pub shrink : ℕ → List ChatEntry → List ChatEntry
shrink cap [] = []
shrink cap (e ∷ es) = let rest = shrink cap es in if ltb cap (length (e ∷ es)) then rest else e ∷ es

unfoldable pub push : ChatEntry → ChatState → ChatState
unfolding shrink
push entry s = record s { history = shrink s.cap (s.history ++ entry ∷ []) }

-- `str::is_char_boundary`: an end, or a byte that does not continue a character.
abbrev pub is_continuation : ℕ → Bool
is_continuation b = leb 128 b && ltb b 192

unfoldable pub is_char_boundary : Bytes → ℕ → Bool
is_char_boundary body zero = true
is_char_boundary body (suc n) = elim (get_elem? body (suc n)) [
  | none ↦ leb (suc n) (length body) && leb (length body) (suc n)
  | some b ↦ not (is_continuation b)
]

-- `while !body.is_char_boundary(end) { end -= 1 }`.
unfoldable pub floor_boundary : Bytes → ℕ → ℕ
unfolding is_char_boundary
floor_boundary body zero = zero
floor_boundary body (suc n) =
    let below = floor_boundary body n in if is_char_boundary body (suc n) then suc n else below

unfoldable pub trim_to_char_boundary : Bytes → ℕ → Bytes
unfolding floor_boundary
trim_to_char_boundary body max_bytes =
    if leb (length body) max_bytes then body else take (floor_boundary body max_bytes) body

-- `chars().take(n)`: a byte that does not continue a character starts one.
unfoldable pub take_chars : ℕ → Bytes → Bytes
take_chars n [] = []
take_chars zero (b ∷ bs) =
    let more = take_chars zero bs in if is_continuation b then b ∷ more else []
take_chars (suc n) (b ∷ bs) =
    let same = take_chars (suc n) bs in
    let next = take_chars n bs in if is_continuation b then b ∷ same else b ∷ next

unfoldable pub short_peer_display : Bytes → Bytes
unfolding take_chars
short_peer_display peer = take_chars 8 peer

unfoldable pub short_author_display : Bytes → Bytes
short_author_display pubkey = hex_lower (take 4 pubkey)

-- crates/laye-p2p/src/binding.rs.
abbrev pub BindingTable : Type 0
BindingTable = Map (List SignedBinding)

unfoldable pub first_handle : List SignedBinding → Option Bytes
first_handle [] = none
first_handle (b ∷ bs) = elim b.claim.handle [ none ↦ first_handle bs | some h ↦ some h ]

unfoldable pub resolve_handle : Bytes → BindingTable → Option Bytes
unfolding first_handle
resolve_handle peer_pubkey table = lookup peer_pubkey table >>= first_handle

unfoldable pub attribute_author : Option BindingTable → Bytes → Bytes
unfolding resolve_handle short_author_display
attribute_author none author = short_author_display author
attribute_author (some table) author = elim (resolve_handle author table) [
  | none ↦ short_author_display author
  | some handle ↦ handle
]

abbrev pub accept {ℓ κ} : {E : Type κ} {A : Type ℓ} → Result E A → Option A
accept (ok a) = some a
accept (err e) = none

-- `self_pubkey` is some key, and it is this one.
unfoldable pub is_self : Option Bytes → Bytes → Bool
is_self none author = false
is_self (some sp) author = bytes_eq author sp

module _ (e : Ed25519) (j : Json ChatJson) (jp : Json PlaintextChat) where
  unfoldable pub build_signed_wire : e.Keypair → Bytes → ℕ → Option Bytes
  build_signed_wire keypair body at_ms = do
    author ← e.public_bytes keypair
    let unsigned : SignedChat = record {
      author_peer_pubkey = author;
      body = body;
      at_ms = at_ms;
      signature = [];
    }
    signature ← accept (e.sign keypair (chat_canonical_bytes unsigned))
    j.to_vec (chat_to_json (record unsigned { signature = signature }))

  unfoldable pub ingest_signed : Bytes → Option Bytes → Option IncomingChat
  ingest_signed bytes self_pubkey = do
    json ← j.from_slice bytes
    chat ← chat_from_json json
    verified ← accept (verify_chat e chat)
    if is_self self_pubkey chat.author_peer_pubkey then none else some (signed chat)

  unfoldable pub ingest_plaintext : Bytes → Bytes → Option IncomingChat
  ingest_plaintext bytes self_peer_id = do
    chat ← jp.from_slice bytes
    if bytes_eq chat.peer self_peer_id then none else some (plaintext chat)

  unfoldable pub ingest : Bytes → Bytes → Option Bytes → Bytes → Option IncomingChat
  unfolding ingest_signed ingest_plaintext
  ingest topic bytes self_pubkey self_peer_id =
      if bytes_eq topic chat_topic
      then ingest_signed bytes self_pubkey
      else if bytes_eq topic legacy_chat_topic
      then ingest_plaintext bytes self_peer_id
      else none
