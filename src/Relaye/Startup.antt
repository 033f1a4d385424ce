-- ===== src/Relaye/Startup.antt =====
-- What the relay reads when it starts: `load_identity` and `load_atproto_client_config` of
-- crates/relaye/src/main.rs. The environment is a record of its variables, the file system an interface,
-- and base64, PKCS8 and the printers of errors are arguments.
pub mod Persists
use laye.Base.{
  ◌∷◌, [], ◌++◌, Bytes, Bool, true, false, Option, none, some, codes, get_or_else, if◌then◌else◌,
  Result, ok, err,
}
use laye.Base.Trim.{trim}
use laye.Base.Try.{◌>>=◌, ◌>>◌, map_err}
use laye.Me.Keys.{Ed25519, MeError, load, to_bytes}
use laye.Relaye.Callback.{ClientConfig}

-- A variable that is not set is none. `identity_file` is the path as `var_os` gives it, whose bytes need
-- be no text; of the others, one that holds no text is none as well.
pub record Environment : Type 0 where
  pub identity_file : Option Bytes
  pub identity_bytes : Option Bytes
  pub client_id : Option Bytes
  pub redirect_uri : Option Bytes
  pub client_kid : Option Bytes
  pub client_key_file : Option Bytes
  pub client_key_bytes : Option Bytes

-- `create_parent` makes the directories above a path, where it has any.
pub record Files (F : Type 0) : Type 0 where
  pub exists_at : Bytes → F → Bool
  pub read : Bytes → F → Result Bytes Bytes
  pub create_parent : Bytes → F → Result Bytes (Unit {0}) × F
  pub write : Bytes → Bytes → F → Result Bytes (Unit {0}) × F

-- `anyhow`'s context goes before what it is about.
abbrev pub because : Bytes → Bytes → Bytes
because context x = context ++ (codes ": " ++ x)

module _ (e : Ed25519) (print_me : MeError e → Bytes) (decode64 : Bytes → Result Bytes Bytes)
    {F : Type 0} (files : Files F) where
  -- The minted key pair, once its bytes are in the file.
  unfoldable pub persist : Bytes → e.Keypair → F → Result Bytes e.Keypair × F
  persist path fresh f =
      elim (map_err (λ x. because (codes "encode fresh identity") (print_me x))
        (to_bytes e fresh)) [
          | err x ↦ (err x, f)
          | ok bytes ↦
              let (made, f1) = files.create_parent path f in
              elim made [
                | err x ↦ (err (because (codes "create identity dir") x), f1)
                | ok u ↦
                    let (written, f2) = files.write path bytes f1 in
                    (map_err (because (codes "write identity file")) written >> ok fresh, f2)
              ]
        ]

  unfoldable pub load_file : Bytes → F → Result Bytes e.Keypair
  load_file path f = do
    bytes ← map_err (because (codes "read identity file")) (files.read path f)
    map_err (λ x. because (codes "decode identity from file") (print_me x)) (load e bytes)

  unfoldable pub load_identity : Environment → e.Keypair → F → Result Bytes e.Keypair × F
  unfolding persist load_file
  load_identity env fresh f = elim env.identity_file [
    | some path ↦ if files.exists_at path f then (load_file path f, f) else persist path fresh f
    | none ↦ elim env.identity_bytes [
      | some b64 ↦ (
        (do
          bytes ←
              map_err (because (codes "RELAYE_IDENTITY_BYTES base64 decode")) (decode64 (trim b64))
          map_err (λ x. because (codes "decode identity from env") (print_me x)) (load e bytes)),
        f,
      )
      | none ↦ (ok fresh, f)
    ]
  ]

  -- `from_pkcs8_der` reads a key, and `fresh` is drawn at random.
  module _ {Key : Type 0} (from_pkcs8_der : Bytes → Result Bytes Key) where
    unfoldable pub load_client_key : Environment → Key → F → Result Bytes Key
    load_client_key env fresh f = elim env.client_key_file [
      | some path ↦
          if files.exists_at path f
          then (do
            bytes ← map_err (because (codes "read atproto client key file")) (files.read path f)
            map_err (because (codes "decode atproto client key pkcs8")) (from_pkcs8_der bytes))
          else ok fresh
      | none ↦ elim env.client_key_bytes [
        | some b64 ↦ do
          bytes ←
              map_err (because (codes "RELAYE_ATPROTO_CLIENT_KEY_BYTES base64 decode"))
                (decode64 (trim b64))
          map_err (because (codes "decode atproto client key pkcs8")) (from_pkcs8_der bytes)
        | none ↦ ok fresh
      ]
    ]

    unfoldable pub load_atproto_client_config :
        Environment → Key → F → Result Bytes (ClientConfig × Key)
    unfolding load_client_key
    load_atproto_client_config env fresh f = do
      key ← load_client_key env fresh f
      ok (
        record {
          client_id =
              get_or_else env.client_id (codes "https://relaye.sbvh.nl/me/client-metadata.json");
          redirect_uri =
              get_or_else env.redirect_uri (codes "https://relaye.sbvh.nl/me/callback/atproto");
          client_kid = get_or_else env.client_kid (codes "laye-relaye-1");
        },
        key,
      )
