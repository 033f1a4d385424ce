-- ===== src/Me/Canonical.antt =====
-- Which records have the same signed bytes.
use laye.Base.{
  ℕ, ◌≡◌, ◌∷◌, [], ◌++◌, Bytes, some, codes, get_or_else, arith, IsBytes, Lacks, All,
  append-separator-injective, append_cancel, append_assoc,
}
use laye.Base.Decimal.{to_string, to_string-injective, to_string-IsDigit, IsDigit}
use laye.Me.Hex.{hex_lower, hex_lower-Lacks, hex_lower-injective}
use laye.Me.Claims.{BindingClaim, SignedChat, chat_canonical_bytes, binding_canonical_bytes}

-- Neither the hexadecimal nor the decimal prints hold a pipe.
hex_no_pipe : (bs : Bytes) → IsBytes bs → Lacks b'|' (hex_lower bs)
hex_no_pipe bs h = hex_lower-Lacks b'|' bs h (λ l. ground arith)

digits_no_pipe : (xs : Bytes) → All IsDigit xs → Lacks b'|' xs
digits_no_pipe [] h = tt
digits_no_pipe (x ∷ xs) h = (λ e. omega arith, digits_no_pipe xs h.1)

to_string_no_pipe : (n : ℕ) → Lacks b'|' (to_string n)
to_string_no_pipe n = digits_no_pipe (to_string n) (to_string-IsDigit n)

-- Two chat messages with the same signed bytes have the same author, time and body, whatever
-- bytes the bodies hold.
pub chat_canonical_bytes-injective :
    (c d : SignedChat)
    → IsBytes c.author_peer_pubkey
    → IsBytes d.author_peer_pubkey
    → chat_canonical_bytes c ≡ chat_canonical_bytes d
    → (c.author_peer_pubkey ≡ d.author_peer_pubkey) × (c.at_ms ≡ d.at_ms) × (c.body ≡ d.body)
unfolding chat_canonical_bytes
chat_canonical_bytes-injective c d hc hd e =
    let s1 = append_cancel (codes "laye-chat/v1|") e in
    let (keys, s2) =
      append-separator-injective b'|' (hex_lower c.author_peer_pubkey)
        (hex_lower d.author_peer_pubkey) (hex_no_pipe _ hc) (hex_no_pipe _ hd) s1 in
    let (times, bodies) =
      append-separator-injective b'|' (to_string c.at_ms) (to_string d.at_ms)
        (to_string_no_pipe c.at_ms) (to_string_no_pipe d.at_ms) s2 in
    (hex_lower-injective _ _ hc hd keys, to_string-injective _ _ times, bodies)

-- No text of the claim holds the pipe that separates the fields.
pub record HasNoPipe (c : BindingClaim) : Type 0 where
  pub provider_ok : Lacks b'|' c.provider
  pub id_ok : Lacks b'|' c.canonical_id
  pub handle_ok : Lacks b'|' (get_or_else c.handle [])
  pub key_ok : IsBytes c.peer_pubkey

-- Two claims with no pipe in their texts and the same signed bytes agree in every field, but that an
-- absent handle is signed as an empty one.
pub binding_canonical_bytes-injective :
    (c d : BindingClaim)
    → HasNoPipe c
    → HasNoPipe d
    → binding_canonical_bytes c ≡ binding_canonical_bytes d
    → (c.peer_pubkey ≡ d.peer_pubkey)
      × (c.provider ≡ d.provider)
      × (c.canonical_id ≡ d.canonical_id)
      × (get_or_else c.handle [] ≡ get_or_else d.handle [])
      × (c.issued_at ≡ d.issued_at)
unfolding binding_canonical_bytes
binding_canonical_bytes-injective c d p q e =
    let s1 = append_cancel (codes "laye-binding/v1|") e in
    let (keys, s2) =
      append-separator-injective b'|' (hex_lower c.peer_pubkey) (hex_lower d.peer_pubkey)
        (hex_no_pipe _ p.key_ok) (hex_no_pipe _ q.key_ok) s1 in
    let (providers, s3) =
      append-separator-injective b'|' c.provider d.provider p.provider_ok q.provider_ok s2 in
    let (ids, s4) =
      append-separator-injective b'|' c.canonical_id d.canonical_id p.id_ok q.id_ok s3 in
    let (handles, times) =
      append-separator-injective b'|' (get_or_else c.handle []) (get_or_else d.handle [])
        p.handle_ok q.handle_ok s4 in
    (
      hex_lower-injective _ _ p.key_ok q.key_ok keys,
      providers,
      ids,
      handles,
      to_string-injective _ _ times,
    )

-- With a pipe in the handle the signed bytes do not tell where the id ends: a claim with the handle
-- `a|b` is signed as the claim with the handle `b` whose id is longer by `|a`.
pub binding_canonical_bytes_ambiguous :
    (c : BindingClaim) (a b : Bytes)
    → binding_canonical_bytes (record c { handle = some (a ++ b'|' ∷ b) })
      ≡ binding_canonical_bytes
          (record c { canonical_id = c.canonical_id ++ b'|' ∷ a; handle = some b })
unfolding binding_canonical_bytes
binding_canonical_bytes_ambiguous c a b = simp append_assoc
