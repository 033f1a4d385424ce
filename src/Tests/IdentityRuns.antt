-- ===== src/Tests/IdentityRuns.antt =====
-- The theorems on keys, signed records and links at concrete inputs.
use laye.Base.{
  ◌≡◌, ◌≢◌, refl, ◌∷◌, [], ◌++◌, Bytes, none, some, codes, arith, ok, get_or_else, Lacks, bytes_eq,
}
use laye.Me.Claims.{
  BindingClaim, SignedBinding, SignedChat, chat_canonical_bytes, binding_canonical_bytes,
  verify_chat, verify_binding,
}
use laye.Me.Canonical.{
  HasNoPipe, chat_canonical_bytes-injective, binding_canonical_bytes-injective,
  binding_canonical_bytes_ambiguous,
}
use laye.Me.Wire.{IsBinding, binding_to_json}
use laye.P2p.Chat.{signed, PlaintextChat, chat_topic, ingest}
use laye.P2p.Chat.Receive.{ingest_signed-chat_to_json, ingest_sound}
use laye.P2p.Identity.{encode_wire, parse_and_verify}
use laye.P2p.Identity.Trust.{IsAbout, parse_and_verify-encode_wire}
use laye.Me.Claims.{verify_bytes}
use laye.Me.Wire.{Json, chat_to_json}
use laye.Tests.Doubles.{
  write_chat, write_bindings, toy, key_bytes, key-IsBytes, seal, seal-IsBytes, chat_json,
  chat_json-ReadsBack, bindings_json, bindings_json-ReadsBack,
}

abbrev said : SignedChat
said = record { author_peer_pubkey = key_bytes; body = codes "a|b"; at_ms = 12; signature = seal }

same_bytes : chat_canonical_bytes said ≡ chat_canonical_bytes (record said { signature = [] })
unfolding chat_canonical_bytes
same_bytes = refl

chat_canonical_bytes-injective_example :
    (said.author_peer_pubkey ≡ key_bytes) × (said.at_ms ≡ said.at_ms) × (said.body ≡ codes "a|b")
chat_canonical_bytes-injective_example =
    chat_canonical_bytes-injective said (record said { signature = [] }) key-IsBytes key-IsBytes
      same_bytes

abbrev claim : BindingClaim
claim = record {
  peer_pubkey = key_bytes;
  provider = codes "mastodon";
  canonical_id = codes "https://chaos.social/@onf";
  handle = none;
  issued_at = 3;
}

claim-HasNoPipe : (h : Bytes) → Lacks b'|' h → HasNoPipe (record claim { handle = some h })
claim-HasNoPipe h l = record {
  provider_ok = ground arith;
  id_ok = ground arith;
  handle_ok = l;
  key_ok = key-IsBytes;
}

binding_canonical_bytes-injective_example :
    (key_bytes ≡ key_bytes)
    × (codes "mastodon" ≡ codes "mastodon")
    × (codes "https://chaos.social/@onf" ≡ codes "https://chaos.social/@onf")
    × (get_or_else (some []) [] ≡ get_or_else (some (codes "")) [])
    × (claim.issued_at ≡ claim.issued_at)
binding_canonical_bytes-injective_example =
    binding_canonical_bytes-injective (record claim { handle = some [] })
      (record claim { handle = some [] }) (claim-HasNoPipe [] tt) (claim-HasNoPipe [] tt) refl

binding_canonical_bytes_ambiguous_example :
    binding_canonical_bytes (record claim { handle = some (codes "x" ++ b'|' ∷ codes "@eve") })
    ≡ binding_canonical_bytes (record claim {
      canonical_id = codes "https://chaos.social/@onf" ++ b'|' ∷ codes "x";
      handle = some (codes "@eve");
    })
binding_canonical_bytes_ambiguous_example =
    binding_canonical_bytes_ambiguous claim (codes "x") (codes "@eve")

abbrev link : SignedBinding
link = record { claim = claim; signature = seal; signer_pubkey = key_bytes }

link-IsBinding : IsBinding link
link-IsBinding = record {
  peer = record { bytes = key-IsBytes; size = refl };
  signer = record { bytes = key-IsBytes; size = refl };
  signature = seal-IsBytes;
}

abbrev plain_json : Json PlaintextChat
plain_json = record { to_vec = λ c. none; from_slice = λ b. none }

abbrev wire : Bytes
wire = write_chat (chat_to_json said)

said_verifies : verify_chat toy said ≡ ok tt
unfolding verify_chat verify_bytes bytes_eq
said_verifies = refl

heard : ingest toy chat_json plain_json chat_topic wire (some (3 ∷ [])) [] ≡ some (signed said)
unfolding ingest bytes_eq
heard =
    ingest_signed-chat_to_json toy chat_json plain_json said wire (3 ∷ []) chat_json-ReadsBack
      (record { author = record { bytes = key-IsBytes; size = refl }; signature = seal-IsBytes })
      said_verifies refl

ingest_sound_example :
    (chat_topic ≡ chat_topic) × ((verify_chat toy said ≡ ok tt) × (key_bytes ≢ (3 ∷ [])))
ingest_sound_example = ingest_sound toy chat_json plain_json chat_topic wire (3 ∷ []) [] said heard

abbrev links_wire : Bytes
links_wire = 1 ∷ write_bindings (binding_to_json link ∷ [])

link_verifies : verify_binding toy link ≡ ok tt
unfolding verify_binding verify_bytes bytes_eq
link_verifies = refl

link-IsAbout : IsAbout toy key_bytes link
link-IsAbout = record { peer_pubkey = refl; verified = link_verifies }

encoded : encode_wire bindings_json (link ∷ []) ≡ some links_wire
unfolding encode_wire
encoded = refl

parse_and_verify-encode_wire_example :
    parse_and_verify bindings_json toy links_wire key_bytes ≡ link ∷ []
parse_and_verify-encode_wire_example =
    parse_and_verify-encode_wire bindings_json toy (link ∷ []) links_wire key_bytes
      bindings_json-ReadsBack (link-IsBinding, tt) (link-IsAbout, tt) encoded
