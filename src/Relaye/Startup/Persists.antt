-- ===== src/Relaye/Startup/Persists.antt =====
-- A relay that starts again is the same peer.
use laye.Base.{
  ◌≡◌, ◌∙◌, refl, ap, Bytes, true, false, some, arith, Result, ok, Result-cases, inl, inr,
}
use laye.Me.Keys.{Ed25519, IsLawful, MeError, load, to_bytes}
use laye.Relaye.Startup.{Environment, Files, persist, load_file, load_identity}

-- What a file system promises: what is written is there and is read back.
pub record Keeps {F : Type 0} (files : Files F) : Type 0 where
  pub exists-write :
      (path bytes : Bytes) (f f' : F)
      → files.write path bytes f ≡ (ok tt, f')
      → files.exists_at path f' ≡ true
  pub read-write :
      (path bytes : Bytes) (f f' : F)
      → files.write path bytes f ≡ (ok tt, f')
      → files.read path f' ≡ ok bytes

module _ (e : Ed25519) (print_me : MeError e → Bytes) (decode64 : Bytes → Result Bytes Bytes)
    {F : Type 0} (files : Files F) where
  -- What a key pair that was persisted leaves: its encoding in the file.
  persist_sound :
      (path : Bytes) (fresh : e.Keypair) (f f' : F) {kp : e.Keypair}
      → persist e print_me decode64 files path fresh f ≡ (ok kp, f')
      → (kp ≡ fresh)
        × ((bytes : Bytes) × ((before : F) × ((e.to_protobuf_encoding fresh ≡ ok bytes)
                × (files.write path bytes before ≡ (ok tt, f')))))
  unfolding persist to_bytes
  persist_sound path fresh f f' {kp} h = elim (Result-cases (e.to_protobuf_encoding fresh)) [
    | inl (x, r) ↦ absurd (
        ground
          (arith, ap (λ (z : Result Bytes e.Keypair × F). z.0) (rw (persist, to_bytes, r) at h)))
    | inr (bytes, r) ↦
        let made = files.create_parent path f in
        elim (Result-cases made.0) [
          | inl (x, q) ↦ absurd (
              ground (
                arith,
                ap (λ (z : Result Bytes e.Keypair × F). z.0) (rw (persist, to_bytes, r, q) at h),
              ))
          | inr (u, q) ↦
              let written = files.write path bytes made.1 in
              elim (Result-cases written.0) [
                | inl (x, o) ↦ absurd (
                    ground (
                      arith,
                      ap (λ (z : Result Bytes e.Keypair × F). z.0)
                          (rw (persist, to_bytes, r, q, o) at h),
                    ))
                | inr (v, o) ↦
                    let done : ◌≡◌ {A = Result Bytes e.Keypair × F} (ok fresh, written.1)
                        (ok kp, f') =
                      rw (persist, to_bytes, r, q, o) at h in
                    (
                      ground (arith, ap (λ z. z.0) done),
                      (
                        bytes,
                        (
                          made.1,
                          (
                            r,
                            ap (λ z. (z, written.1)) o ∙ ap (λ c. (ok tt, c)) (ap (λ z. z.1) done),
                          ),
                        ),
                      ),
                    )
              ]
        ]
  ]

  -- Where the file system keeps what is written and the encoding of key pairs can be undone: a start
  -- that finds no identity file mints a key pair and leaves it there; every later start with that
  -- file gives the same key pair, whatever else is in its environment and whatever it would mint, and
  -- leaves the files alone.
  pub load_identity_again :
      (env env2 : Environment) (path : Bytes) (fresh later kp : e.Keypair) (f f' : F)
      → IsLawful e fresh
      → Keeps files
      → env.identity_file ≡ some path
      → env2.identity_file ≡ some path
      → files.exists_at path f ≡ false
      → load_identity e print_me decode64 files env fresh f ≡ (ok kp, f')
      → (kp ≡ fresh) × (load_identity e print_me decode64 files env2 later f' ≡ (ok kp, f'))
  unfolding load_identity load_file load
  load_identity_again env env2 path fresh later kp f f' law keeps h h2 missing run =
      let (same, (bytes, (before, (enc, saved)))) =
        persist_sound path fresh f f' (rw (load_identity, h, missing) at run) in
      (
        same,
        rw
            (
              load_identity,
              h2,
              keeps.exists-write path bytes before f' saved,
              load_file,
              keeps.read-write path bytes before f' saved,
              load,
              law.protobuf bytes enc,
              same,
            )
            refl,
      )
