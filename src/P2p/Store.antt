-- ===== src/P2p/Store.antt =====
-- crates/laye-p2p/src/store.rs: a key pair that outlives the page.
use laye.Base.{◌≡◌, Bytes, Option, none, some, Result, ok, err, Result-cases, inl, inr, arith}
use laye.Base.Try.{map_err}
use laye.Me.Keys.{Ed25519, IsLawful, MeError, load, to_bytes}

module _ (e : Ed25519) where
  pub data StoreError : Type 0 where
    codec : MeError e → StoreError
    backend : Bytes → StoreError

  -- The trait, over the state `S` of the store.
  pub record IdentityStore (S : Type 0) : Type 0 where
    pub load_bytes : S → Result StoreError (Option Bytes)
    pub save_bytes : Bytes → S → Result StoreError (Unit {0}) × S

  -- A fresh key pair is encoded and saved before it is handed out.
  unfoldable pub save_fresh :
      {S : Type 0} → IdentityStore S → e.Keypair → S → Result StoreError e.Keypair × S
  save_fresh t fresh s = elim (to_bytes e fresh) [
    | err x ↦ (err (codec x), s)
    | ok b ↦
        let (r, s') = t.save_bytes b s in elim r [ ok u ↦ (ok fresh, s') | err x ↦ (err x, s') ]
  ]

  -- The key pair that `fresh` mints is an argument.
  unfoldable pub load_or_generate :
      {S : Type 0} → IdentityStore S → e.Keypair → S → Result StoreError e.Keypair × S
  unfolding save_fresh
  load_or_generate t fresh s = elim (t.load_bytes s) [
    | err x ↦ (err x, s)
    | ok none ↦ save_fresh t fresh s
    | ok (some b) ↦ (map_err codec (load e b), s)
  ]

  -- `InMemoryStore`: the `RefCell` holds the bytes.
  abbrev pub InMemoryStore : Type 0
  InMemoryStore = Option Bytes

  unfoldable pub in_memory : IdentityStore InMemoryStore
  in_memory = record { load_bytes = λ s. ok s; save_bytes = λ b s. (ok tt, some b) }

  -- A store that starts empty gives every later call the key pair that the first call minted, whatever
  -- a later call would have minted; the later call leaves the store alone.
  load_or_generate_again :
      (kp later : e.Keypair) (s : InMemoryStore)
      → IsLawful e kp
      → load_or_generate in_memory kp none ≡ (ok kp, s)
      → load_or_generate in_memory later s ≡ (ok kp, s)
  unfolding load_or_generate save_fresh in_memory load to_bytes
  load_or_generate_again kp later s l h = elim (Result-cases (e.to_protobuf_encoding kp)) [
    | inl (x, r) ↦ absurd (ground (arith, r))
    | inr (b, r) ↦ ground (arith, r, l.protobuf b r)
  ]
