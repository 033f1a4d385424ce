-- ===== src/Host/Scene/Fresh.antt =====
-- How long the scene keeps the other players.
use laye.Base.{
  ℕ, ◌≡◌, ◌∙◌, refl, ap, subst, ◌-◌, ◌∷◌, [], List, Bytes, true, false, none, All, bytes_eq_iff,
  ltb, arith, Bool-cases, Option-cases, inl, inr,
}
use laye.Base.Maps.{lookup, contains}
use laye.Host.Scene.{
  RemoteEntry, RemotePlayers, Cells, stale_peers, stale_ms, take_entry, remove_stale, show_entry,
  show_all, render_remote_players,
}
use laye.Host.Scene.Unique.{IsUnique, take_entry-IsTaken, take_entry-All, take_entry-none}

contains-here : (k : Bytes) (ps : List Bytes) → contains k (k ∷ ps) ≡ true
unfolding contains
contains-here k ps = ground (arith, bytes_eq_iff k k)

module _ {Vec : Type 0} where
  -- Who is stale is still on the list of those to be removed.
  abbrev IsListed : ℕ → List Bytes → Bytes × RemoteEntry Vec → Type 0
  IsListed cutoff peers entry =
      ltb entry.1.last_seen_ms cutoff ≡ true → contains entry.0 peers ≡ true

  IsListed-cons :
      (cutoff : ℕ) (peer : Bytes) (peers : List Bytes) (m : RemotePlayers Vec)
      → All (IsListed cutoff peers) m
      → All (IsListed cutoff (peer ∷ peers)) m
  unfolding contains
  IsListed-cons cutoff peer peers [] v = tt
  IsListed-cons cutoff peer peers (entry ∷ m) (v, vs) =
      (λ s. ground (arith, v s), IsListed-cons cutoff peer peers m vs)

  stale_peers-IsListed :
      (cutoff : ℕ) (m : RemotePlayers Vec) → All (IsListed cutoff (stale_peers cutoff m)) m
  unfolding stale_peers contains
  stale_peers-IsListed cutoff [] = tt
  stale_peers-IsListed cutoff ((k, e) ∷ m) = elim (Bool-cases (ltb e.last_seen_ms cutoff)) [
    | inl h ↦
        (let rest = stale_peers cutoff m in
          let same : k ∷ rest ≡ stale_peers cutoff ((k, e) ∷ m) = ground (arith, h) in
          let here : IsListed cutoff (k ∷ rest) (k, e) = λ s. contains-here k rest in
          subst (λ ps. All (IsListed cutoff ps) ((k, e) ∷ m)) same
            (here, IsListed-cons cutoff k rest m (stale_peers-IsListed cutoff m)))
    | inr h ↦
        (let rest = stale_peers cutoff m in
          let same : rest ≡ stale_peers cutoff ((k, e) ∷ m) = ground (arith, h) in
          let here : IsListed cutoff rest (k, e) = λ s. absurd (ground (arith, s, h)) in
          subst (λ ps. All (IsListed cutoff ps) ((k, e) ∷ m)) same
            (here, stale_peers-IsListed cutoff m))
  ]

  -- A peer that is not among the players need not be listed.
  IsListed-gone :
      (cutoff : ℕ) (peer : Bytes) (peers : List Bytes) (m : RemotePlayers Vec)
      → lookup peer m ≡ none
      → All (IsListed cutoff (peer ∷ peers)) m
      → All (IsListed cutoff peers) m
  unfolding contains lookup
  IsListed-gone cutoff peer peers [] g v = tt
  IsListed-gone cutoff peer peers ((k, e) ∷ m) g (v, vs) = (
    λ s. ground (arith, v s, g, bytes_eq_iff k peer, bytes_eq_iff peer k),
    IsListed-gone cutoff peer peers m (ground (arith, g)) vs,
  )

  abbrev pub IsSeen : ℕ → Bytes × RemoteEntry Vec → Type 0
  IsSeen cutoff entry = ltb entry.1.last_seen_ms cutoff ≡ false

  IsListed-nil :
      (cutoff : ℕ) (m : RemotePlayers Vec) → All (IsListed cutoff []) m → All (IsSeen cutoff) m
  unfolding contains
  IsListed-nil cutoff [] v = tt
  IsListed-nil cutoff (entry ∷ m) (v, vs) = (ground (arith, v), IsListed-nil cutoff m vs)

  module _ {World : Type 0} (cells : Cells World Vec) where
    remove_stale-IsSeen :
        (cutoff : ℕ) (peers : List Bytes) (m : RemotePlayers Vec) (w : World)
        → IsUnique m
        → All (IsListed cutoff peers) m
        → IsUnique (remove_stale cells peers m w).0
          × All (IsSeen cutoff) (remove_stale cells peers m w).0
    unfolding remove_stale
    remove_stale-IsSeen cutoff [] m w u v = (u, IsListed-nil cutoff m v)
    remove_stale-IsSeen cutoff (peer ∷ peers) m w u v = elim (Option-cases (take_entry peer m)) [
      | inl t ↦
          rw (remove_stale, t)
            (remove_stale-IsSeen cutoff peers m w u
              (IsListed-gone cutoff peer peers m (take_entry-none peer m t) v))
      | inr ((e, m'), t) ↦
          (let taken = take_entry-IsTaken peer m u t in
            rw (remove_stale, t)
              (remove_stale-IsSeen cutoff peers m' _ taken.unique (
                IsListed-gone cutoff peer peers m' taken.gone
                  (take_entry-All (IsListed cutoff (peer ∷ peers)) peer m v t))))
    ]

    pub show_entry-last_seen_ms :
        (e : RemoteEntry Vec) (w : World) → (show_entry cells e w).0.last_seen_ms ≡ e.last_seen_ms
    unfolding show_entry
    show_entry-last_seen_ms e w = elim (Option-cases e.entity) [
      | inl n ↦ rw (show_entry, n) refl
      | inr (i, n) ↦ rw (show_entry, n) refl
    ]

    show_all-none :
        (j : Bytes) (m : RemotePlayers Vec) (w : World)
        → lookup j m ≡ none
        → lookup j (show_all cells m w).0 ≡ none
    unfolding show_all lookup
    show_all-none j [] w h = h
    show_all-none j ((k, e) ∷ m) w h = ground (arith, h, show_all-none j m (show_entry cells e w).1)

    show_all-IsSeen :
        (cutoff : ℕ) (m : RemotePlayers Vec) (w : World)
        → IsUnique m
        → All (IsSeen cutoff) m
        → IsUnique (show_all cells m w).0 × All (IsSeen cutoff) (show_all cells m w).0
    unfolding show_all
    show_all-IsSeen cutoff [] w u v = (u, v)
    show_all-IsSeen cutoff ((k, e) ∷ m) w (n, u) (s, v) =
        let w1 = (show_entry cells e w).1 in
        let rest = show_all-IsSeen cutoff m w1 u v in
        (
          (show_all-none k m w1 n, rest.0),
          (ap (λ t. ltb t cutoff) (show_entry-last_seen_ms e w) ∙ s, rest.1),
        )

    -- Whom rendering leaves was seen in the last 30 seconds.
    pub render_remote_players-IsSeen :
        (now : ℕ) (m : RemotePlayers Vec) (w : World)
        → IsUnique m
        → IsUnique (render_remote_players cells now m w).0
          × All (IsSeen (now - stale_ms)) (render_remote_players cells now m w).0
    unfolding render_remote_players
    render_remote_players-IsSeen now m w u =
        let cutoff = now - stale_ms in
        let left =
          remove_stale-IsSeen cutoff (stale_peers cutoff m) m w u (stale_peers-IsListed cutoff m) in
        let (m1, w1) = remove_stale cells (stale_peers cutoff m) m w in
        show_all-IsSeen cutoff m1 w1 left.0 left.1
