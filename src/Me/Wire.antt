-- ===== src/Me/Wire.antt =====
-- How the signed records travel: serde turns byte fields into hexadecimal strings, and `serde_json`,
-- which is not part of the repository, is a parameter.
use laye.Base.{
  ℕ, ◌≡◌, List, [], ◌∷◌, Bytes, Option, none, some, length, Result, ok, err, IsBytes, ◌>>=◌,
}
use laye.Me.Hex.{
  hex_lower, hex_decode, decode_32, hex_decode-hex_lower, decode_32-hex_lower, HexError,
}
use laye.Me.Claims.{SignedBinding, SignedChat}

-- A JSON encoder and decoder of one type of values: `serde_json::to_vec` and `from_slice`.
pub record Json {ℓ} (A : Type ℓ) : Type ℓ where
  pub to_vec : A → Option Bytes
  pub from_slice : Bytes → Option A

-- What `serde_json` documents of a derived type: an encoded value is read back.
abbrev pub ReadsBack {ℓ} : {A : Type ℓ} → Json A → Type ℓ
ReadsBack {A = A} j = (a : A) (b : Bytes) → j.to_vec a ≡ some b → j.from_slice b ≡ some a

-- The JSON object of a `SignedChat`.
pub record ChatJson : Type 0 where
  pub author_peer_pubkey_hex : Bytes
  pub body : Bytes
  pub at_ms : ℕ
  pub signature_hex : Bytes

-- The JSON object of a `SignedBinding`, its `claim` included.
pub record BindingJson : Type 0 where
  pub peer_pubkey_hex : Bytes
  pub provider : Bytes
  pub canonical_id : Bytes
  pub handle : Option Bytes
  pub issued_at : ℕ
  pub signature_hex : Bytes
  pub signer_pubkey_hex : Bytes

abbrev pub accept : Result HexError Bytes → Option Bytes
accept (ok b) = some b
accept (err e) = none

unfoldable pub chat_to_json : SignedChat → ChatJson
chat_to_json c = record {
  author_peer_pubkey_hex = hex_lower c.author_peer_pubkey;
  body = c.body;
  at_ms = c.at_ms;
  signature_hex = hex_lower c.signature;
}

unfoldable pub chat_from_json : ChatJson → Option SignedChat
chat_from_json j = do
  author ← accept (decode_32 j.author_peer_pubkey_hex)
  signature ← accept (hex_decode j.signature_hex)
  some (record {
    author_peer_pubkey = author;
    body = j.body;
    at_ms = j.at_ms;
    signature = signature;
  })

unfoldable pub binding_to_json : SignedBinding → BindingJson
binding_to_json b = record {
  peer_pubkey_hex = hex_lower b.claim.peer_pubkey;
  provider = b.claim.provider;
  canonical_id = b.claim.canonical_id;
  handle = b.claim.handle;
  issued_at = b.claim.issued_at;
  signature_hex = hex_lower b.signature;
  signer_pubkey_hex = hex_lower b.signer_pubkey;
}

unfoldable pub binding_from_json : BindingJson → Option SignedBinding
binding_from_json j = do
  peer ← accept (decode_32 j.peer_pubkey_hex)
  signature ← accept (hex_decode j.signature_hex)
  signer ← accept (decode_32 j.signer_pubkey_hex)
  some (record {
    claim = record {
      peer_pubkey = peer;
      provider = j.provider;
      canonical_id = j.canonical_id;
      handle = j.handle;
      issued_at = j.issued_at;
    };
    signature = signature;
    signer_pubkey = signer;
  })

-- `Vec<SignedBinding>`: one bad entry fails the list.
unfoldable pub bindings_from_json : List BindingJson → Option (List SignedBinding)
unfolding binding_from_json
bindings_from_json [] = some []
bindings_from_json (j ∷ js) = do b ← binding_from_json j; bs ← bindings_from_json js; some (b ∷ bs)

-- `[u8; 32]`.
pub record IsKey (k : Bytes) : Type 0 where
  pub bytes : IsBytes k
  pub size : length k ≡ 32

pub record IsChat (c : SignedChat) : Type 0 where
  pub author : IsKey c.author_peer_pubkey
  pub signature : IsBytes c.signature

pub record IsBinding (b : SignedBinding) : Type 0 where
  pub peer : IsKey b.claim.peer_pubkey
  pub signer : IsKey b.signer_pubkey
  pub signature : IsBytes b.signature

-- A chat message of a well-formed key that is written as JSON is read back as it was.
pub chat_from_json-chat_to_json :
    (c : SignedChat) → IsChat c → chat_from_json (chat_to_json c) ≡ some c
unfolding chat_from_json chat_to_json
chat_from_json-chat_to_json c v = rw (
  decode_32-hex_lower c.author_peer_pubkey v.author.bytes v.author.size,
  hex_decode-hex_lower c.signature v.signature,
)

-- A signed binding of well-formed keys that is written as JSON is read back as it was.
pub binding_from_json-binding_to_json :
    (b : SignedBinding) → IsBinding b → binding_from_json (binding_to_json b) ≡ some b
unfolding binding_from_json binding_to_json
binding_from_json-binding_to_json b v = rw (
  decode_32-hex_lower b.claim.peer_pubkey v.peer.bytes v.peer.size,
  hex_decode-hex_lower b.signature v.signature,
  decode_32-hex_lower b.signer_pubkey v.signer.bytes v.signer.size,
)
