-- ===== src/Tests/LoginDoubles.antt =====
-- A server, its answers and a login that waits, in the place of the code that is not in the repository.
use laye.Base.{ℕ, zero, suc, ◌∷◌, [], List, Bytes, none, some, codes, ok, err}
use laye.Base.Maps.{Map}
use laye.Relaye.Flows.{FlowState}
use laye.Relaye.Resolve.{Web, Resolved, AuthServerMetadata, DidDocument}
use laye.Relaye.Dpop.{Poster}
use laye.Relaye.Callback.{FlowSecrets, ClientConfig, Calls, Cache}
use laye.Relaye.Start.{Drawn, StartJson}
use laye.Relaye.Sign.{Outside}
use laye.Tests.Doubles.{toy, key_bytes, write_bindings}

-- A server that counts the POSTs, and asks for a nonce at the first one.
abbrev pub server : Poster ℕ Unit
server = record {
  proof = λ key url under w. (ok (codes "proof"), w);
  post = λ url dpop body w. elim w [
    | zero ↦ (
      ok (record {
        status = 401;
        new_nonce = some (codes "n");
        body = ok (codes "use_dpop_nonce");
      }),
      1,
    )
    | suc n ↦ (
      ok (record { status = 200; new_nonce = some (codes "m"); body = ok (codes "did:plc:x") }),
      suc (suc n),
    )
  ];
}

abbrev pub calls : Calls ℕ toy
calls = record {
  client = ok tt;
  assertion = λ cfg issuer w. (codes "assertion", w);
  read_sub = λ b. ok (some b);
  decode_hex = λ s. some key_bytes;
  write_binding = λ j. ok (write_bindings (j ∷ []));
  print_signing = λ x. [];
}

abbrev pub auth_metadata : AuthServerMetadata
auth_metadata = record {
  issuer = codes "https://as";
  authorization_endpoint = codes "https://as/a";
  token_endpoint = codes "https://as/t";
  pushed_authorization_request_endpoint = codes "https://as/p";
}

abbrev pub document : DidDocument
document = record {
  id = codes "did:plc:x";
  also_known_as = codes "at://b.c" ∷ codes "at://a.b" ∷ [];
  service =
      record {
        id = codes "#pds";
        type_ = codes "AtprotoPersonalDataServer";
        service_endpoint = codes "https://pds/";
      }
      ∷ [];
}

abbrev pub web : Web
web = record {
  client = ok tt;
  get = λ url. ok (record { status = 200; body = ok url });
  get_query = λ url query. ok (record { status = 200; body = ok url });
  print_status = λ s. [];
  dns_data = λ b. ok (some (codes "\"did=did:plc:x\"" ∷ []));
  did_document = λ b. ok document;
  authorization_servers = λ b. ok (codes "https://as/" ∷ []);
  auth_metadata = λ b. ok auth_metadata;
}

abbrev pub login : Resolved web
login = record {
  handle = codes "a.b";
  did = codes "did:plc:x";
  document = document;
  auth_server = codes "https://as/";
  auth_meta = auth_metadata;
}

abbrev pub form : ℕ → List (Bytes × Bytes) × ℕ
form w = ((codes "a", codes "b") ∷ [], w)

abbrev pub config : ClientConfig
config = record {
  client_id = codes "https://laye/client";
  redirect_uri = codes "https://laye/callback";
  client_kid = codes "kid";
}

abbrev pub flow : FlowState (FlowSecrets Unit)
flow = record {
  peer_pubkey_hex = codes "00";
  handle = codes "a.b";
  did = codes "did:plc:x";
  secrets = record {
    auth_meta = auth_metadata;
    dpop_key = tt;
    pkce_verifier = codes "v";
    dpop_nonce_auth = none;
  };
  created_at = 5;
}

abbrev pub waiting : Cache toy server calls
waiting = record { flows = (codes "s", flow) ∷ []; results = [] }

abbrev pub query : Map Bytes
query = (codes "code", codes "c") ∷ (codes "state", codes "s") ∷ []

abbrev pub outside : Outside
outside = record {
  build_client = ok tt;
  get = λ url bearer. err [];
  decode_hex = λ s. some key_bytes;
  read_request = λ b. err b;
  write_response = λ j. ok (write_bindings (j ∷ []));
}

abbrev pub drawn : Drawn Unit
drawn = record {
  dpop_key = tt;
  pkce_verifier = codes "v";
  pkce_challenge = codes "h";
  random_state = codes "r";
}

abbrev pub json : StartJson
json = record {
  read_start = λ b. ok (record { peer_pubkey_hex = codes "00"; handle = b; main_state = none });
  read_request_uri = λ b. ok (some b);
  write_start = λ r. ok r.state;
}
