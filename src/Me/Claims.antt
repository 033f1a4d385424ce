-- ===== src/Me/Claims.antt =====
-- The signed records, the bytes that are signed, and the checks of the signatures.
use laye.Base.{
  ℕ, ◌∷◌, [], ◌++◌, List, Bytes, Option, codes, Result, ok, err, get_or_else, if◌then◌else◌,
}
use laye.Base.Decimal.{to_string}
use laye.Base.Try.{◌>>=◌, map_err}
use laye.Me.Hex.{hex_lower}
use laye.Me.Keys.{Ed25519}

pub record BindingClaim : Type 0 where
  pub peer_pubkey : Bytes
  pub provider : Bytes
  pub canonical_id : Bytes
  pub handle : Option Bytes
  pub issued_at : ℕ

pub record SignedBinding : Type 0 where
  pub claim : BindingClaim
  pub signature : Bytes
  pub signer_pubkey : Bytes

pub record Identity : Type 0 where
  pub links : List SignedBinding

pub record SignedChat : Type 0 where
  pub author_peer_pubkey : Bytes
  pub body : Bytes
  pub at_ms : ℕ
  pub signature : Bytes

pub data VerifyError : Type 0 where
  bad_signer_key : Bytes → VerifyError
  bad_signature : VerifyError

-- The parts of a format string are bracketed to the right.
unfoldable pub chat_canonical_bytes : SignedChat → Bytes
chat_canonical_bytes c =
    codes "laye-chat/v1"
    ++ b'|' ∷ (hex_lower c.author_peer_pubkey ++ b'|' ∷ (to_string c.at_ms ++ b'|' ∷ c.body))

unfoldable pub binding_canonical_bytes : BindingClaim → Bytes
binding_canonical_bytes c =
    codes "laye-binding/v1"
    ++ b'|'
      ∷ (hex_lower c.peer_pubkey
          ++ b'|'
            ∷ (c.provider
                ++ b'|'
                  ∷ (c.canonical_id
                      ++ b'|' ∷ (get_or_else c.handle [] ++ b'|' ∷ to_string c.issued_at))))

module _ (e : Ed25519) where
  -- The shared body of the two `verify` methods.
  unfoldable pub verify_bytes : Bytes → Bytes → Bytes → Result VerifyError (Unit {0})
  verify_bytes signer message signature = do
    public ← map_err bad_signer_key (e.try_from_bytes signer)
    if e.verify public message signature then ok tt else err bad_signature

  unfoldable pub verify_chat : SignedChat → Result VerifyError (Unit {0})
  unfolding verify_bytes
  verify_chat c = verify_bytes c.author_peer_pubkey (chat_canonical_bytes c) c.signature

  unfoldable pub verify_binding : SignedBinding → Result VerifyError (Unit {0})
  unfolding verify_bytes
  verify_binding b = verify_bytes b.signer_pubkey (binding_canonical_bytes b.claim) b.signature
