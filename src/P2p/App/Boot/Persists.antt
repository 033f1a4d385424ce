-- ===== src/P2p/App/Boot/Persists.antt =====
-- A page that is loaded again is the same peer.
use laye.Base.{
  ◌≡◌, ◌∙◌, refl, ap, sym, subst, List, Bytes, Option, none, some, arith, Result, ok, ok_or,
  Option-cases, Result-cases, inl, inr,
}
use laye.Base.Try.{◌>>◌, map_err, Result->>=, map_err_sound, ok_or_sound}
use laye.Me.Hex.{hex_lower}
use laye.Me.Keys.{Ed25519, IsLawful, load, to_bytes}
use laye.Me.Wire.{Json, BindingJson}
use laye.Net.New.{Libp2p, new}
use laye.P2p.Store.{StoreError, in_memory, load_or_generate, save_fresh}
use laye.P2p.App.{AppState, Outcome}
use laye.P2p.App.Login.Accepted.{links, republish-links}
use laye.P2p.App.Boot.{
  BootConfig, Failure, Browser, Booted, check_config, read_identity, read_boot, save_minted,
  start_net, boot, enter, mount_overlays, init_inner,
}

-- What IndexedDB promises: a write that succeeds is read back.
pub record Remembers {D : Type 0} (b : Browser D) : Type 0 where
  pub read_back :
      (bytes : Bytes) (d d' : D)
      → b.idb_save_bytes bytes d ≡ (ok tt, d')
      → b.idb_load_bytes d' ≡ ok (some bytes)

module _ (e : Ed25519) (print_store : StoreError e → Bytes) (p : Libp2p e) {D : Type 0}
    (b : Browser D) where
  read_boot_sound :
      (parsed : Result Bytes BootConfig) (fresh : e.Keypair) (d : D) {config : BootConfig}
      {kp : e.Keypair} {minted : Option Bytes}
      → read_boot e print_store p b parsed fresh d ≡ ok (config, kp, minted)
      → (existing : Option Bytes) × ((b.idb_load_bytes d ≡ ok existing)
          × (read_identity e print_store p fresh existing ≡ ok (kp, minted)))
  unfolding read_boot
  read_boot_sound parsed fresh d {kp = kp} {minted = minted} h =
      let (config, (c, h1)) = Result->>= (check_config parsed) _ h in
      let (u, (o, h2)) = Result->>= (map_err _ (b.idb_open d)) _ h1 in
      let (existing, (l, h3)) = Result->>= (map_err _ (b.idb_load_bytes d)) _ h2 in
      let ((kp', minted'), (i, h4)) =
        Result->>= (read_identity e print_store p fresh existing) _ h3 in
      let same : ◌≡◌ {A = e.Keypair × Option Bytes} (kp', minted') (kp, minted) =
        ground (arith, h4) in
      (existing, (map_err_sound _ (b.idb_load_bytes d) l, i ∙ ap ok same))

  -- With nothing stored the fresh key pair is taken, and its encoding is what remains to be saved.
  read_identity-none :
      (fresh : e.Keypair) {kp : e.Keypair} {minted : Option Bytes}
      → read_identity e print_store p fresh none ≡ ok (kp, minted)
      → (kp ≡ fresh)
        × ((bytes : Bytes) × ((minted ≡ some bytes) × (e.to_protobuf_encoding fresh ≡ ok bytes)))
  unfolding read_identity load_or_generate save_fresh in_memory to_bytes
  read_identity-none fresh {kp} {minted} h = elim (Result-cases (e.to_protobuf_encoding fresh)) [
    | inl (x, r) ↦ absurd (ground (arith, r, h))
    | inr (bytes, r) ↦ (ground (arith, r, h), (bytes, (ground (arith, r, h), r)))
  ]

  -- What is stored is taken, and nothing remains to be saved.
  read_identity-some :
      (fresh stored : e.Keypair) (bytes : Bytes) {kp : e.Keypair} {minted : Option Bytes}
      → e.from_protobuf_encoding bytes ≡ ok stored
      → read_identity e print_store p fresh (some bytes) ≡ ok (kp, minted)
      → (kp ≡ stored) × (minted ≡ none)
  unfolding read_identity load_or_generate in_memory load
  read_identity-some fresh stored bytes r h = ground (arith, r, h)

  save_minted-some :
      (bytes : Bytes) (d d' : D)
      → save_minted e print_store p b (some bytes) d ≡ (ok tt, d')
      → b.idb_save_bytes bytes d ≡ (ok tt, d')
  unfolding save_minted
  save_minted-some bytes d d' h =
      let r = b.idb_save_bytes bytes d in
      ap (λ z. (z, r.1)) (map_err_sound _ r.0 (ap (λ z. z.0) h))
      ∙ ap (λ c. (ok tt, c)) (ap (λ z. z.1) h)

  start_net_sound :
      (config : BootConfig) (kp : e.Keypair) (d : D) {x : Booted e print_store p}
      → start_net e print_store p b config kp d ≡ ok x
      → (e.public_bytes kp ≡ some x.self_pubkey) × (x.peer_id_hex ≡ hex_lower x.self_pubkey)
  unfolding start_net
  start_net_sound config kp d {x} h =
      let (pk, (k, h1)) = Result->>= (ok_or (e.public_bytes kp) _) _ h in
      let (bindings, (l, h2)) = Result->>= (map_err _ (b.idb_load_bindings d)) _ h1 in
      let ((net, drive), (n, h3)) = Result->>= (map_err _ (new e p _)) _ h2 in
      let made : Booted e print_store p = record {
        net = net;
        drive = drive;
        peer_id_hex = hex_lower pk;
        self_pubkey = pk;
        self_bindings = bindings;
      } in
      let same : made ≡ x = ground (arith, h3) in
      (
        ok_or_sound (e.public_bytes kp) _ k
            ∙ ap (λ (y : Booted e print_store p). some y.self_pubkey) same,
        subst (λ (y : Booted e print_store p). y.peer_id_hex ≡ hex_lower y.self_pubkey) same refl,
      )

  -- A boot that succeeds, taken apart.
  boot_sound :
      (parsed : Result Bytes BootConfig) (fresh : e.Keypair) (d d' : D) {x : Booted e print_store p}
      → boot e print_store p b parsed fresh d ≡ (ok x, d')
      → (existing : Option Bytes) × (kp : e.Keypair) × (minted : Option Bytes) × ((b.idb_load_bytes
              d
            ≡ ok existing)
          × ((read_identity e print_store p fresh existing ≡ ok (kp, minted))
              × ((save_minted e print_store p b minted d ≡ (ok tt, d'))
                  × ((e.public_bytes kp ≡ some x.self_pubkey)
                      × (x.peer_id_hex ≡ hex_lower x.self_pubkey)))))
  unfolding boot
  boot_sound parsed fresh d d' {x} h =
      elim (Result-cases (read_boot e print_store p b parsed fresh d)) [
        | inl (y, r) ↦
            absurd
              (ground (arith, r, ap (λ (z : Result Failure (Booted e print_store p) × D). z.0) h))
        | inr ((config, kp, minted), r) ↦
            let (existing, (l, i)) = read_boot_sound parsed fresh d r in
            let saved = save_minted e print_store p b minted d in
            let done : ◌≡◌ {A = Result Failure (Booted e print_store p) × D}
                (saved.0 >> start_net e print_store p b config kp saved.1, saved.1) (ok x, d') =
              rw (boot, r) at h in
            let (u, (s, started)) = Result->>= saved.0 _ (ap (λ z. z.0) done) in
            let (pk, hexed) = start_net_sound config kp saved.1 started in
            (
              existing,
              kp,
              minted,
              (
                l,
                (
                  i,
                  (
                    ap (λ z. (z, saved.1)) s ∙ ap (λ c. (ok tt, c)) (ap (λ z. z.1) done),
                    (pk, hexed),
                  ),
                ),
              ),
            )
      ]

  mount_overlays-links :
      (jb : Json (List BindingJson)) (now : Bytes) (st st' : AppState)
      → mount_overlays e print_store p b jb now st ≡ (ok tt, st')
      → links st' ≡ links st
  unfolding mount_overlays
  mount_overlays-links jb now st st' h = elim (Option-cases b.install_error_overlay) [
    | inr (x, o) ↦ absurd (ground (arith, ap (λ (y : Outcome). y.0) (rw (mount_overlays, o) at h)))
    | inl o ↦ elim (Option-cases b.install_chat_overlay) [
      | inr (x, c) ↦
          absurd (ground (arith, ap (λ (y : Outcome). y.0) (rw (mount_overlays, o, c) at h)))
      | inl c ↦
          ap (λ (y : Outcome). links y.1) (sym (rw (mount_overlays, o, c) at h))
          ∙ republish-links jb now st
    ]
  ]

  -- What an init that succeeds knows of the page.
  init_inner_sound :
      (jb : Json (List BindingJson)) (now : Bytes) (parsed : Result Bytes BootConfig)
      (fresh : e.Keypair) (st st' : AppState) (d d' : D)
      → init_inner e print_store p b jb now parsed fresh st d ≡ ((ok tt, st'), d')
      → (existing : Option Bytes) × (kp : e.Keypair) × (minted : Option Bytes) × (pk : Bytes)
        × ((b.idb_load_bytes d ≡ ok existing)
            × ((read_identity e print_store p fresh existing ≡ ok (kp, minted))
                × ((save_minted e print_store p b minted d ≡ (ok tt, d'))
                    × ((e.public_bytes kp ≡ some pk)
                        × ((st'.self_pubkey ≡ some pk) × (st'.peer_id_hex ≡ hex_lower pk))))))
  unfolding init_inner enter
  init_inner_sound jb now parsed fresh st st' d d' h =
      let run = boot e print_store p b parsed fresh d in
      elim (Result-cases run.0) [
        | inl (y, r) ↦
            absurd (ground (arith, ap (λ (z : Outcome × D). z.0.0) (rw (init_inner, r) at h)))
        | inr (x, r) ↦
            let ended : run ≡ (ok x, d') =
              ap (λ z. (z, run.1)) r ∙ ap (λ c. (ok x, c)) (ap (λ (z : Outcome × D). z.1) h) in
            let (existing, kp, minted, (l, (i, (s, (k, hexed))))) =
              boot_sound parsed fresh d d' ended in
            let ids =
              mount_overlays-links jb now (enter e print_store p b x st) st'
                (ap (λ (z : Outcome × D). z.0) (rw (init_inner, r) at h)) in
            (
              existing,
              kp,
              minted,
              x.self_pubkey,
              (l, (i, (s, (k, (ap (λ y. y.0) ids, ap (λ y. y.1.1.1) ids ∙ hexed))))),
            )
      ]

  -- Where the store of the page reads back what was written and the encoding of key pairs can be undone:
  -- a first init that succeeds with nothing stored makes the page the peer of the key pair it minted.
  -- Every later init that succeeds on the store that it left makes the page the same peer, whatever it
  -- is configured with and would have minted, and does not write to the store.
  pub init_inner_again :
      (jb : Json (List BindingJson)) (now now2 : Bytes) (parsed parsed2 : Result Bytes BootConfig)
      (fresh later : e.Keypair) (st st' page page' : AppState) (d d' d'' : D)
      → IsLawful e fresh
      → Remembers b
      → b.idb_load_bytes d ≡ ok none
      → init_inner e print_store p b jb now parsed fresh st d ≡ ((ok tt, st'), d')
      → init_inner e print_store p b jb now2 parsed2 later page d' ≡ ((ok tt, page'), d'')
      → (e.public_bytes fresh ≡ st'.self_pubkey)
        × ((page'.self_pubkey ≡ st'.self_pubkey)
            × ((page'.peer_id_hex ≡ st'.peer_id_hex) × (d'' ≡ d')))
  unfolding save_minted
  init_inner_again jb now now2 parsed parsed2 fresh later st st' page page' d d' d'' law mem empty h
        h2 =
      let (existing, kp, minted, pk, (l, (i, (s, (k, (own, hexed)))))) =
        init_inner_sound jb now parsed fresh st st' d d' h in
      let nothing : existing ≡ none = ground (arith, l, empty) in
      let (taken, (bytes, (m, enc))) =
        read_identity-none fresh
          (ap (λ o. read_identity e print_store p fresh o) (sym nothing) ∙ i) in
      let saved : b.idb_save_bytes bytes d ≡ (ok tt, d') =
        save_minted-some bytes d d' (ap (λ o. save_minted e print_store p b o d) (sym m) ∙ s) in
      let (existing2, kp2, minted2, pk2, (l2, (i2, (s2, (k2, (own2, hexed2)))))) =
        init_inner_sound jb now2 parsed2 later page page' d' d'' h2 in
      let there : existing2 ≡ some bytes = ground (arith, l2, mem.read_back bytes d d' saved) in
      let (taken2, m2) =
        read_identity-some later fresh bytes (law.protobuf bytes enc)
          (ap (λ o. read_identity e print_store p later o) (sym there) ∙ i2) in
      let same : pk2 ≡ pk = ground (arith, sym k2 ∙ (ap e.public_bytes (taken2 ∙ sym taken) ∙ k)) in
      (
        ap e.public_bytes (sym taken) ∙ (k ∙ sym own),
        (
          own2 ∙ (ap some same ∙ sym own),
          (
            hexed2 ∙ (ap hex_lower same ∙ sym hexed),
            ap (λ z. z.1) (sym s2 ∙ ap (λ o. save_minted e print_store p b o d') m2),
          ),
        ),
      )
