-- ===== src/P2p/Identity.antt =====
-- crates/laye-p2p/src/identity.rs: the links of a peer on the wire, and the table of every peer's.
pub mod Trust
use laye.Base.{
  ◌∷◌, [], List, Bytes, Bool, true, false, ◌&&◌, Option, none, some, codes, map, filter, is_empty,
  is_ok, bytes_eq, if◌then◌else◌,
}
use laye.Base.Maps.{insert, remove}
use laye.Me.Keys.{Ed25519}
use laye.Me.Claims.{SignedBinding, verify_binding}
use laye.Me.Wire.{Json, BindingJson, binding_to_json, bindings_from_json}
use laye.P2p.Chat.{BindingTable}

abbrev pub identity_topic : Bytes
identity_topic = codes "laye-identity/v1"

module _ (j : Json (List BindingJson)) where
  unfoldable pub encode_wire : List SignedBinding → Option Bytes
  encode_wire bindings = j.to_vec (map binding_to_json bindings)

  module _ (e : Ed25519) where
    unfoldable pub is_trusted : Bytes → SignedBinding → Bool
    is_trusted publisher b = bytes_eq b.claim.peer_pubkey publisher && is_ok (verify_binding e b)

    unfoldable pub parse_list : Bytes → Option (List SignedBinding)
    parse_list bytes = elim (j.from_slice bytes) [ none ↦ none | some js ↦ bindings_from_json js ]

    unfoldable pub parse_and_verify : Bytes → Bytes → List SignedBinding
    unfolding parse_list is_trusted
    parse_and_verify bytes publisher_pubkey = elim (parse_list bytes) [
      | none ↦ []
      | some bs ↦ filter (is_trusted publisher_pubkey) bs
    ]

unfoldable pub absorb : BindingTable → Bytes → List SignedBinding → BindingTable
absorb table peer_pubkey bindings =
    if is_empty bindings then remove peer_pubkey table else insert peer_pubkey bindings table
