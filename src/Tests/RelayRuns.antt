-- ===== src/Tests/RelayRuns.antt =====
-- The theorems on the relay's counters, forms, flows and signatures at concrete inputs.
use laye.Base.{
  ◌≡◌, refl, subst, ◌∷◌, [], Bytes, true, none, some, codes, arith, ok, IsBytes, bytes_eq,
}
use laye.Base.Maps.{lookup}
use laye.Base.Utf8.{is_utf8, is_utf8-ascii}
use laye.Gateway.Registry.{empty}
use laye.Me.Claims.{SignedBinding, verify_binding}
use laye.Me.Wire.{binding_to_json, binding_from_json}
use laye.Relaye.Stats.{
  Relay, event, tick, connection_established, connection_closed, gossip, fresh_stats, happen_all,
}
use laye.Relaye.Stats.Counters.{IsConsistent, happen_all-IsConsistent}
use laye.Relaye.Flows.{
  FlowState, FlowCache, empty_cache, insert_flow, take_flow, insert_result, get_result, flow_ttl,
}
use laye.Relaye.Flows as Flows
use laye.Relaye.Flows.Expiry.{get_result-insert_result}
use laye.Relaye.Sign.{SignRequest, SignError, Outside, handle_sign, fetch_mastodon_actor_url}
use laye.Relaye.Sign as Sign
use laye.Relaye.Sign.Soundness.{handle_sign_sound}
use laye.Tests.Doubles.{toy, toy-IsLawful, key_bytes, key-IsBytes, seal, write_bindings}

spaced_is_utf8 : is_utf8 (codes "a b&c") ≡ true
spaced_is_utf8 = is_utf8-ascii (codes "a b&c") (ground arith)

abbrev relay : Relay
relay = record { stats = fresh_stats; registry = empty }

happen_all-IsConsistent_example :
    IsConsistent
      (happen_all 15
        (event connection_established
          ∷ tick
          ∷ event (gossip (codes "a") (1 ∷ []))
          ∷ event connection_closed
          ∷ [])
        (0, relay)).1.stats
happen_all-IsConsistent_example =
    happen_all-IsConsistent 15
      (event connection_established
        ∷ tick
        ∷ event (gossip (codes "a") (1 ∷ []))
        ∷ event connection_closed
        ∷ [])
      0 relay
      (record {
        peers_are_conns = refl;
        conns_accepted = omega arith;
        same_length = refl;
        peers_bounded = omega arith;
      })

abbrev flow : FlowState (Unit {0})
flow = record {
  peer_pubkey_hex = codes "00";
  handle = codes "h";
  did = codes "did:plc:x";
  secrets = tt;
  created_at = 5;
}

abbrev cache : FlowCache (Unit {0})
cache = empty_cache Unit

abbrev held : FlowCache (Unit {0})
held = record { flows = (codes "s", flow) ∷ []; results = [] }

taken : (take_flow Unit 9 (codes "s") held).0 ≡ some flow
unfolding take_flow Flows.gc Flows.retain_flows lookup bytes_eq
taken = refl

abbrev link : SignedBinding
link = record {
  claim = record {
    peer_pubkey = key_bytes;
    provider = codes "mastodon";
    canonical_id = codes "https://chaos.social/@onf";
    handle = none;
    issued_at = 3;
  };
  signature = seal;
  signer_pubkey = key_bytes;
}

get_result-insert_result_example :
    ((get_result Unit 9 (codes "s") (insert_result Unit 5 (codes "s") link cache)).0 ≡ some link)
    × ((get_result Unit 20
          (codes "s")
          (get_result Unit 9 (codes "s") (insert_result Unit 5 (codes "s") link cache)).1).0
        ≡ some link)
get_result-insert_result_example =
    get_result-insert_result Unit 5 9 20 (codes "s") link cache (omega arith) (omega arith)

abbrev request : SignRequest
request = record {
  peer_pubkey_hex = codes "key";
  provider = codes "mastodon";
  canonical_id = codes "https://chaos.social/@onf";
  handle = none;
  mastodon_token = codes "token";
  mastodon_instance = codes "chaos.social";
}

abbrev outside : Outside
outside = record {
  build_client = ok tt;
  get = λ url token. ok (200, ok (some (codes "https://chaos.social/@onf")));
  decode_hex = λ s. some key_bytes;
  read_request = λ b. ok request;
  write_response = λ j. ok (write_bindings (j ∷ []));
}

abbrev answer : Bytes
answer = write_bindings (binding_to_json link ∷ [])

answered : handle_sign outside toy (λ x. []) 3 (1 ∷ []) tt ≡ ok answer
unfolding handle_sign Sign.guard Sign.fetch_mastodon_actor_url Sign.decode_peer_pubkey
    Sign.sign_claim bytes_eq binding_to_json
answered = refl

hexed : (s b : Bytes) → outside.decode_hex s ≡ some b → IsBytes b
hexed s b h = subst IsBytes {x = key_bytes} (ground (arith, h)) key-IsBytes

handle_sign_sound_example :
    (req : SignRequest) × (b : SignedBinding) × ((outside.read_request (1 ∷ []) ≡ ok req)
      × ((req.provider ≡ codes "mastodon")
          × ((fetch_mastodon_actor_url outside req.mastodon_instance req.mastodon_token
                ≡ ok req.canonical_id)
              × ((outside.decode_hex req.peer_pubkey_hex ≡ some b.claim.peer_pubkey)
                  × ((b.claim.canonical_id ≡ req.canonical_id)
                      × ((b.claim.handle ≡ req.handle)
                          × ((verify_binding toy b ≡ ok tt)
                              × ((binding_from_json (binding_to_json b) ≡ some b)
                                  × (outside.write_response (binding_to_json b) ≡ ok answer)))))))))
handle_sign_sound_example =
    handle_sign_sound outside toy (λ x. []) 3 (1 ∷ []) tt toy-IsLawful hexed answered
