-- ===== src/P2p/Chat/Receive.antt =====
-- What is accepted as chat, and what a signed message is received as.
use laye.Base.{
  ℕ, ◌≡◌, ◌∙◌, ◌≢◌, refl, sym, ap, [], Bytes, none, some, bytes_eq, bytes_eq_iff, bytes_eq_refl,
  if◌then◌else◌, ok, Option-cases, Result-cases, Bool-cases, inl, inr, arith,
}
use laye.Me.Keys.{Ed25519, IsLawful}
use laye.Me.Claims.{SignedChat, chat_canonical_bytes, verify_chat, verify_bytes}
use laye.Me.Wire.{
  Json, ReadsBack, ChatJson, IsChat, chat_to_json, chat_from_json, chat_from_json-chat_to_json,
}
use laye.P2p.Chat.{
  PlaintextChat, signed, chat_topic, is_self, build_signed_wire, ingest_signed, ingest_plaintext,
  ingest,
}

module _ (e : Ed25519) (j : Json ChatJson) (jp : Json PlaintextChat) where
  ingest_signed_sound :
      (bytes self_pubkey : Bytes) (c : SignedChat)
      → ingest_signed e j jp bytes (some self_pubkey) ≡ some (signed c)
      → (verify_chat e c ≡ ok tt) × (c.author_peer_pubkey ≢ self_pubkey)
  unfolding ingest_signed is_self
  ingest_signed_sound bytes sp c h = elim (Option-cases (j.from_slice bytes)) [
    | inl n ↦ absurd (ground (arith, n))
    | inr (json, n) ↦ elim (Option-cases (chat_from_json json)) [
      | inl m ↦ absurd (ground (arith, n, m))
      | inr (chat, m) ↦ elim (Result-cases (verify_chat e chat)) [
        | inl (x, r) ↦ absurd (ground (arith, n, m, r))
        | inr (u, r) ↦ elim (Bool-cases (bytes_eq chat.author_peer_pubkey sp)) [
          | inl t ↦ absurd (ground (arith, n, m, r, t))
          | inr t ↦
              let same : chat ≡ c = ground (arith, n, m, r, t) in
              (
                ap (verify_chat e) (sym same) ∙ r,
                λ q. ground (arith, t, bytes_eq_iff chat.author_peer_pubkey sp, same, q),
              )
        ]
      ]
    ]
  ]

  ingest_plaintext-signed :
      (bytes id : Bytes) (c : SignedChat) → ingest_plaintext e j jp bytes id ≢ some (signed c)
  unfolding ingest_plaintext
  ingest_plaintext-signed bytes id c = λ h. elim (Option-cases (jp.from_slice bytes)) [
    | inl n ↦ ground (arith, n)
    | inr (chat, n) ↦ ground (arith, n)
  ]

  -- Whatever the bytes are, a signed message that `ingest` accepts came in on the chat topic,
  -- carries a signature that verifies under its author's key, and is not the page's own.
  pub ingest_sound :
      (topic bytes self_pubkey self_peer_id : Bytes) (c : SignedChat)
      → ingest e j jp topic bytes (some self_pubkey) self_peer_id ≡ some (signed c)
      → (topic ≡ chat_topic) × ((verify_chat e c ≡ ok tt) × (c.author_peer_pubkey ≢ self_pubkey))
  unfolding ingest
  ingest_sound topic bytes sp id c h = elim (Bool-cases (bytes_eq topic chat_topic)) [
    | inl t ↦
        let (v, d) = ingest_signed_sound bytes sp c (ground (arith, t)) in
        ((bytes_eq_iff topic chat_topic).0 t, (v, d))
    | inr t ↦ absurd (ingest_plaintext-signed bytes id c (ground (arith, t)))
  ]

  verify_chat-sign :
      (kp : e.Keypair) (c : SignedChat)
      → IsLawful e kp
      → e.public_bytes kp ≡ some c.author_peer_pubkey
      → e.sign kp (chat_canonical_bytes c) ≡ ok c.signature
      → verify_chat e c ≡ ok tt
  unfolding verify_chat verify_bytes
  verify_chat-sign kp c l p s =
      let (key, k, v) =
        l.sign_verifies c.author_peer_pubkey (chat_canonical_bytes c) c.signature p s in
      rw (k, v) refl

  pub ingest_signed-chat_to_json :
      (c : SignedChat) (wire : Bytes) (self_pubkey : Bytes)
      → ReadsBack j
      → IsChat c
      → verify_chat e c ≡ ok tt
      → j.to_vec (chat_to_json c) ≡ some wire
      → ingest_signed e j jp wire (some self_pubkey)
        ≡ (if bytes_eq c.author_peer_pubkey self_pubkey then none else some (signed c))
  unfolding ingest_signed is_self
  ingest_signed-chat_to_json c wire sp r v t h =
      rw (r (chat_to_json c) wire h, chat_from_json-chat_to_json c v, t) refl

  -- What `build_signed_wire` makes of a body under a lawful Ed25519 key pair is received by another
  -- page as the chat with that author, body and time, and by the page itself as nothing.
  pub ingest-build_signed_wire :
      (kp : e.Keypair) (author body wire other : Bytes) (at_ms : ℕ) (id : Bytes)
      → IsLawful e kp
      → ReadsBack j
      → e.public_bytes kp ≡ some author
      → build_signed_wire e j jp kp body at_ms ≡ some wire
      → other ≢ author
      → ((c : SignedChat) × ((ingest e j jp chat_topic wire (some other) id ≡ some (signed c))
            × ((c.author_peer_pubkey ≡ author) × ((c.body ≡ body) × (c.at_ms ≡ at_ms)))))
        × (ingest e j jp chat_topic wire (some author) id ≡ none)
  unfolding build_signed_wire ingest bytes_eq chat_canonical_bytes
  ingest-build_signed_wire kp author body wire other at_ms id l r p b d =
      let unsigned : SignedChat = record {
        author_peer_pubkey = author;
        body = body;
        at_ms = at_ms;
        signature = [];
      } in
      elim (Result-cases (e.sign kp (chat_canonical_bytes unsigned))) [
        | inl (x, s) ↦ absurd (ground (arith, p, s))
        | inr (sig, s) ↦
            let c : SignedChat = record unsigned { signature = sig } in
            let v : IsChat c = record {
              author = record {
                bytes = l.public_IsBytes author p;
                size = l.public_length author p;
              };
              signature = l.sign_IsBytes (chat_canonical_bytes unsigned) sig s;
            } in
            let t = verify_chat-sign kp c l p s in
            let q : j.to_vec (chat_to_json c) ≡ some wire = ground (arith, p, s, b) in
            (
              (
                c,
                (
                  ingest_signed-chat_to_json c wire other r v t q
                      ∙ ground (arith, bytes_eq_iff author other),
                  (refl, (refl, refl)),
                ),
              ),
              ingest_signed-chat_to_json c wire author r v t q
                  ∙ ground (arith, bytes_eq_refl author),
            )
      ]
