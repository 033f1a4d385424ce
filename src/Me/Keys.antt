-- ===== src/Me/Keys.antt =====
-- Key pairs. `libp2p_identity` is not part of the repository: it is a parameter, with what it
-- documents of signatures and of its protobuf encoding.
use laye.Base.{◌≡◌, refl, Bytes, Bool, true, Option, none, some, length, Result, ok, IsBytes, arith}
use laye.Base.Try.{map_err}

-- `Keypair`, `ed25519::PublicKey` and `DecodingError` of `libp2p_identity`.
pub record Ed25519 : Type 1 where
  pub Keypair : Type 0
  pub PublicKey : Type 0
  pub DecodingError : Type 0
  pub SigningError : Type 0
  -- `PublicKey::try_from_bytes`, whose error is printed.
  pub try_from_bytes : Bytes → Result Bytes PublicKey
  pub verify : PublicKey → Bytes → Bytes → Bool
  -- `public().try_into_ed25519().to_bytes()`: none for a key pair of another kind.
  pub public_bytes : Keypair → Option Bytes
  pub sign : Keypair → Bytes → Result SigningError Bytes
  pub to_protobuf_encoding : Keypair → Result SigningError Bytes
  pub from_protobuf_encoding : Bytes → Result DecodingError Keypair

-- What the documentation of the library says of a key pair: its public key has 32 bytes and can be
-- read back, a signature verifies under it, and the protobuf encoding is read back.
pub record IsLawful (e : Ed25519) (kp : e.Keypair) : Type 0 where
  pub public_IsBytes : (pk : Bytes) → e.public_bytes kp ≡ some pk → IsBytes pk
  pub public_length : (pk : Bytes) → e.public_bytes kp ≡ some pk → length pk ≡ 32
  pub sign_verifies :
      (pk m sig : Bytes)
      → e.public_bytes kp ≡ some pk
      → e.sign kp m ≡ ok sig
      → (key : e.PublicKey) × (e.try_from_bytes pk ≡ ok key) × (e.verify key m sig ≡ true)
  pub sign_IsBytes : (m sig : Bytes) → e.sign kp m ≡ ok sig → IsBytes sig
  pub protobuf : (b : Bytes) → e.to_protobuf_encoding kp ≡ ok b → e.from_protobuf_encoding b ≡ ok kp

module _ (e : Ed25519) where
  -- `MeError`.
  pub data MeError : Type 0 where
    decode : e.DecodingError → MeError
    encode : e.SigningError → MeError

  unfoldable pub load : Bytes → Result MeError e.Keypair
  load bytes = map_err decode (e.from_protobuf_encoding bytes)

  unfoldable pub to_bytes : e.Keypair → Result MeError Bytes
  to_bytes kp = map_err encode (e.to_protobuf_encoding kp)

  -- The fresh key pair that `Keypair::generate_ed25519` gives is an argument.
  unfoldable pub load_or_fresh : Option Bytes → e.Keypair → Result MeError e.Keypair
  load_or_fresh (some b) fresh = load b
  load_or_fresh none fresh = ok fresh

  -- What is stored of a key pair gives the key pair back, and with nothing stored a fresh one is
  -- taken.
  pub load_or_fresh-to_bytes :
      (kp fresh : e.Keypair) (b : Bytes)
      → IsLawful e kp
      → to_bytes kp ≡ ok b
      → (load_or_fresh (some b) fresh ≡ ok kp) × (load_or_fresh none fresh ≡ ok fresh)
  unfolding load_or_fresh load to_bytes
  load_or_fresh-to_bytes kp fresh b l h = (ground (arith, l.protobuf b), refl)
