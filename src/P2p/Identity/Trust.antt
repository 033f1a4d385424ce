-- ===== src/P2p/Identity/Trust.antt =====
-- Every entry of the table is about its peer and carries signatures that verify.
use laye.Base.{
  ◌≡◌, refl, ◌∷◌, [], List, Bytes, true, some, All, filter, map, bytes_eq_iff, Option-cases,
  Bool-cases, Result-cases, inl, inr, ok, arith,
}
use laye.Base.Maps.{All-insert, All-remove}
use laye.Me.Keys.{Ed25519}
use laye.Me.Claims.{SignedBinding, verify_binding}
use laye.Me.Wire.{
  Json, ReadsBack, BindingJson, IsBinding, binding_to_json, bindings_from_json,
  binding_from_json-binding_to_json,
}
use laye.P2p.Chat.{BindingTable}
use laye.P2p.Identity.{encode_wire, is_trusted, parse_list, parse_and_verify, absorb}

-- A binding that is about the peer and whose signature verifies.
pub record IsAbout (e : Ed25519) (peer : Bytes) (b : SignedBinding) : Type 0 where
  pub peer_pubkey : b.claim.peer_pubkey ≡ peer
  pub verified : verify_binding e b ≡ ok tt

-- What the table holds under any key is about that peer, and verified.
abbrev pub IsTrusted : Ed25519 → BindingTable → Type 0
IsTrusted e = All (λ entry. All (IsAbout e entry.0) entry.1)

module _ (j : Json (List BindingJson)) (e : Ed25519) where
  is_trusted_sound :
      (peer : Bytes) (b : SignedBinding) → is_trusted j e peer b ≡ true → IsAbout e peer b
  unfolding is_trusted
  is_trusted_sound peer b h = elim (Result-cases (verify_binding e b)) [
    | inl (x, r) ↦ absurd (ground (arith, r))
    | inr (u, r) ↦ record {
      peer_pubkey = ground (arith, r, bytes_eq_iff b.claim.peer_pubkey peer);
      verified = r;
    }
  ]

  filter_sound :
      (peer : Bytes) (bs : List SignedBinding)
      → All (IsAbout e peer) (filter (is_trusted j e peer) bs)
  filter_sound peer [] = tt
  filter_sound peer (b ∷ bs) = elim (Bool-cases (is_trusted j e peer b)) [
    | inl h ↦ rw h (is_trusted_sound peer b h, filter_sound peer bs)
    | inr h ↦ rw h (filter_sound peer bs)
  ]

  -- Whatever the bytes are, every binding that is read from them is about the publisher and carries
  -- a signature that verifies.
  pub parse_and_verify_sound :
      (bytes publisher : Bytes) → All (IsAbout e publisher) (parse_and_verify j e bytes publisher)
  unfolding parse_and_verify
  parse_and_verify_sound bytes publisher = elim (Option-cases (parse_list j e bytes)) [
    | inl h ↦ rw (parse_and_verify, h) tt
    | inr (bs, h) ↦ rw (parse_and_verify, h) (filter_sound publisher bs)
  ]

  pub absorb-IsTrusted :
      (table : BindingTable) (peer : Bytes) (bs : List SignedBinding)
      → IsTrusted e table
      → All (IsAbout e peer) bs
      → IsTrusted e (absorb table peer bs)
  unfolding absorb
  absorb-IsTrusted table peer [] v a =
      All-remove (λ entry. All (IsAbout e entry.0) entry.1) peer table v
  absorb-IsTrusted table peer (b ∷ bs) v a =
      All-insert (λ entry. All (IsAbout e entry.0) entry.1) peer (b ∷ bs) table a v

  bindings_round :
      (bs : List SignedBinding)
      → All IsBinding bs
      → bindings_from_json (map binding_to_json bs) ≡ some bs
  unfolding bindings_from_json
  bindings_round [] v = refl
  bindings_round (b ∷ bs) v =
      rw (binding_from_json-binding_to_json b v.0, bindings_round bs v.1) refl

  filter-All :
      (peer : Bytes) (bs : List SignedBinding)
      → All (IsAbout e peer) bs
      → filter (is_trusted j e peer) bs ≡ bs
  unfolding is_trusted
  filter-All peer [] v = refl
  filter-All peer (b ∷ bs) v = ground (
    arith,
    filter-All peer bs v.1,
    bytes_eq_iff b.claim.peer_pubkey peer,
    v.0.peer_pubkey,
    v.0.verified,
  )

  -- What `encode_wire` makes of bindings that are about the publisher and verify is read back as those
  -- bindings.
  pub parse_and_verify-encode_wire :
      (bs : List SignedBinding) (wire publisher : Bytes)
      → ReadsBack j
      → All IsBinding bs
      → All (IsAbout e publisher) bs
      → encode_wire j bs ≡ some wire
      → parse_and_verify j e wire publisher ≡ bs
  unfolding parse_and_verify parse_list encode_wire
  parse_and_verify-encode_wire bs wire publisher r v a h =
      rw (parse_and_verify, parse_list, r (map binding_to_json bs) wire h, bindings_round bs v)
        (filter-All publisher bs a)
