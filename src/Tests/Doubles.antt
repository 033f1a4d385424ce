-- ===== src/Tests/Doubles.antt =====
-- Concrete functions in the place of the third-party code: a signature scheme with one key pair, and
-- codecs that write a text behind its length.
use laye.Base.{
  ℕ, zero, suc, ◌≡◌, refl, ap, subst, ◌∙◌, ◌∷◌, [], ◌++◌, List, Bytes, Option, none, some, length,
  take, drop, bytes_eq, take-length-append, drop-length-append, ◌>>=◌, ok, IsBytes, arith,
  bytes_eq_refl,
}
use laye.Me.Keys.{Ed25519, IsLawful}
use laye.Me.Wire.{Json, ReadsBack, ChatJson, BindingJson}

abbrev pub key_bytes : Bytes
key_bytes =
    1 ∷ 2 ∷ 3 ∷ 4 ∷ 5 ∷ 6 ∷ 7 ∷ 8 ∷ 9 ∷ 10 ∷ 11 ∷ 12 ∷ 13 ∷ 14 ∷ 15 ∷ 16 ∷ 17 ∷ 18 ∷ 19 ∷ 20 ∷ 21
    ∷ 22 ∷ 23 ∷ 24 ∷ 25 ∷ 26 ∷ 27 ∷ 28 ∷ 29 ∷ 30 ∷ 31 ∷ 32 ∷ []

abbrev pub seal : Bytes
seal = 7 ∷ 8 ∷ []

abbrev pub toy : Ed25519
toy = record {
  Keypair = Unit;
  PublicKey = Bytes;
  DecodingError = Unit;
  SigningError = Unit;
  try_from_bytes = λ b. ok b;
  verify = λ k m s. bytes_eq s seal;
  public_bytes = λ kp. some key_bytes;
  sign = λ kp m. ok seal;
  to_protobuf_encoding = λ kp. ok (9 ∷ []);
  from_protobuf_encoding = λ b. ok tt;
}

pub key-IsBytes : IsBytes key_bytes
key-IsBytes = ground arith

pub seal-IsBytes : IsBytes seal
seal-IsBytes = ground arith

pub toy-IsLawful : IsLawful toy tt
toy-IsLawful = record {
  public_IsBytes = λ pk h. subst IsBytes {x = key_bytes} (ground (arith, h)) key-IsBytes;
  public_length = λ pk h. ground (arith, h);
  sign_verifies = λ pk m sig h s. (pk, refl, ground (arith, s, bytes_eq_refl seal));
  sign_IsBytes = λ m sig s. subst IsBytes {x = seal} (ground (arith, s)) seal-IsBytes;
  protobuf = λ b h. refl;
}

-- A text behind its length.
abbrev pub put : Bytes → Bytes → Bytes
put f rest = length f ∷ (f ++ rest)

abbrev pub get : Bytes → Option (Bytes × Bytes)
get [] = none
get (n ∷ r) = some (take n r, drop n r)

get-put : (f rest : Bytes) → get (put f rest) ≡ some (f, rest)
get-put f rest = rw (take-length-append f rest, drop-length-append f rest) refl

abbrev pub write_chat : ChatJson → Bytes
write_chat c = put c.author_peer_pubkey_hex (put c.body (put c.signature_hex (c.at_ms ∷ [])))

abbrev pub read_chat : Bytes → Option ChatJson
read_chat b = do
  (a, r) ← get b
  (body, r2) ← get r
  (sig, r3) ← get r2
  elim r3 [
    | [] ↦ none
    | t ∷ r4 ↦
        some (record { author_peer_pubkey_hex = a; body = body; at_ms = t; signature_hex = sig })
  ]

abbrev pub chat_json : Json ChatJson
chat_json = record { to_vec = λ c. some (write_chat c); from_slice = read_chat }

read_chat-write_chat : (c : ChatJson) → read_chat (write_chat c) ≡ some c
read_chat-write_chat c = simp (take-length-append, drop-length-append)

pub chat_json-ReadsBack : ReadsBack chat_json
chat_json-ReadsBack a b h =
    let same : write_chat a ≡ b = ground (arith, h) in
    subst (λ x. read_chat x ≡ some a) same (read_chat-write_chat a)

abbrev pub put_option : Option Bytes → Bytes → Bytes
put_option none rest = 0 ∷ rest
put_option (some h) rest = 1 ∷ put h rest

abbrev pub get_option : Bytes → Option (Option Bytes × Bytes)
get_option [] = none
get_option (zero ∷ r) = some (none, r)
get_option (suc n ∷ r) = do (h, r2) ← get r; some (some h, r2)

get_option-put_option :
    (o : Option Bytes) (rest : Bytes) → get_option (put_option o rest) ≡ some (o, rest)
get_option-put_option none rest = refl
get_option-put_option (some h) rest = simp (take-length-append, drop-length-append)

abbrev pub put_binding : BindingJson → Bytes → Bytes
put_binding j rest = put j.peer_pubkey_hex (
    put j.provider (
      put j.canonical_id
        (put j.signature_hex (put j.signer_pubkey_hex (j.issued_at ∷ put_option j.handle rest)))))

abbrev pub get_timed : Bytes → Option (ℕ × (Option Bytes × Bytes))
get_timed [] = none
get_timed (t ∷ r) = do (h, r2) ← get_option r; some (t, (h, r2))

abbrev pub get_binding : Bytes → Option (BindingJson × Bytes)
get_binding b = do
  (peer, r) ← get b
  (provider, r2) ← get r
  (id, r3) ← get r2
  (sig, r4) ← get r3
  (signer, r5) ← get r4
  (t, (h, r6)) ← get_timed r5
  some (
    record {
      peer_pubkey_hex = peer;
      provider = provider;
      canonical_id = id;
      handle = h;
      issued_at = t;
      signature_hex = sig;
      signer_pubkey_hex = signer;
    },
    r6,
  )

get_binding-put_binding :
    (j : BindingJson) (rest : Bytes) → get_binding (put_binding j rest) ≡ some (j, rest)
get_binding-put_binding j rest =
    simp (take-length-append, drop-length-append, get_option-put_option)

abbrev pub write_bindings : List BindingJson → Bytes
write_bindings [] = []
write_bindings (j ∷ js) = put_binding j (write_bindings js)

abbrev pub read_bindings : ℕ → Bytes → Option (List BindingJson)
read_bindings zero b = some []
read_bindings (suc n) b = do (j, r) ← get_binding b; js ← read_bindings n r; some (j ∷ js)

read_bindings-write_bindings :
    (js : List BindingJson) → read_bindings (length js) (write_bindings js) ≡ some js
read_bindings-write_bindings [] = refl
read_bindings-write_bindings (j ∷ js) =
    ap (λ o. o >>= λ p. read_bindings (length js) p.1 >>= λ rest. some (p.0 ∷ rest))
      (get_binding-put_binding j (write_bindings js))
    ∙ ap (λ o. o >>= λ rest. some (j ∷ rest)) (read_bindings-write_bindings js)

abbrev pub read_counted : Bytes → Option (List BindingJson)
read_counted [] = none
read_counted (n ∷ r) = read_bindings n r

abbrev pub bindings_json : Json (List BindingJson)
bindings_json = record {
  to_vec = λ js. some (length js ∷ write_bindings js);
  from_slice = read_counted;
}

pub bindings_json-ReadsBack : ReadsBack bindings_json
bindings_json-ReadsBack a b h =
    let same : length a ∷ write_bindings a ≡ b = ground (arith, h) in
    subst (λ x. read_counted x ≡ some a) same (read_bindings-write_bindings a)
