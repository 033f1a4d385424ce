-- ===== src/Host/Scene/Shown.antt =====
-- What the scene shows of the other players.
use laye.Base.{
  ℕ, ◌≡◌, ◌∙◌, refl, sym, ap, ◌+◌, ◌-◌, ◌≤◌, ◌==◌, ◌∷◌, [], Bytes, false, some, All, if◌then◌else◌,
  arith, Option-cases, inl, inr,
}
use laye.Host.Scene.{
  RemoteEntry, RemotePlayers, Cells, stale_peers, stale_ms, remove_stale, show_entry, show_all,
  render_remote_players,
}
use laye.Host.Scene.Tidy.{IsLawful, owns, owners, live, IsTidy, remove_stale-IsTidy}

module _ {World Vec : Type 0} (cells : Cells World Vec) where
  -- Showing one player: the cell is that of the entry, stands where the entry says, no other changes, and
  -- the cell is counted once.
  record IsShownEntry (e : RemoteEntry Vec) (w : World) (others : ℕ → ℕ) : Type 0 where
    pub i : ℕ
    pub entity : (show_entry cells e w).0.entity ≡ some i
    pub pos : (show_entry cells e w).0.pos ≡ e.pos
    pub here : cells.cell i (show_entry cells e w).1 ≡ some e.pos
    pub unmoved :
        (k : ℕ) → (i == k) ≡ false → cells.cell k (show_entry cells e w).1 ≡ cells.cell k w
    pub counted :
        (k : ℕ) → (if i == k then 1 else 0) + others k ≡ live cells k (show_entry cells e w).1

  show_entry-IsShownEntry :
      (e : RemoteEntry Vec) (w : World) (others : ℕ → ℕ)
      → IsLawful cells
      → ((k : ℕ) → owns k e.entity + others k ≡ live cells k w)
      → IsShownEntry e w others
  unfolding show_entry
  show_entry-IsShownEntry e w others laws v = elim (Option-cases e.entity) [
    | inl n ↦
        (let (i, w1) = cells.spawn e.pos w in
          record {
            i = i;
            entity = rw (show_entry, n) refl;
            pos = rw (show_entry, n) refl;
            here = rw (show_entry, n) (ground (arith, laws.cell-spawn i e.pos w));
            unmoved = λ k h. rw (show_entry, n) (ground (arith, laws.cell-spawn k e.pos w, h));
            counted = λ k.
                rw (show_entry, n)
                  (ground (arith, n, v k, laws.cell-spawn k e.pos w, laws.spawn-fresh e.pos w));
          })
    | inr (i, n) ↦ record {
      i = i;
      entity = rw (show_entry, n) n;
      pos = rw (show_entry, n) refl;
      here = rw (show_entry, n) (ground (arith, n, v i, laws.cell-move_to i i e.pos w));
      unmoved = λ k h. rw (show_entry, n) (ground (arith, laws.cell-move_to k i e.pos w, h));
      counted = λ k. rw (show_entry, n) (ground (arith, n, v k, laws.cell-move_to k i e.pos w));
    }
  ]

  -- The entry has a cell, which stands where the player was last seen.
  abbrev pub IsDrawn : World → Bytes × RemoteEntry Vec → Type 0
  IsDrawn w entry = (i : ℕ) × ((entry.1.entity ≡ some i) × (cells.cell i w ≡ some entry.1.pos))

  -- The next entry's count joins that of the others.
  abbrev with_cell : ℕ → (ℕ → ℕ) → ℕ → ℕ
  with_cell i others k = (if i == k then 1 else 0) + others k

  next_counted :
      (e : RemoteEntry Vec) (m : RemotePlayers Vec) (w : World) (others : ℕ → ℕ)
      → ((k : ℕ) → (owns k e.entity + owners k m) + others k ≡ live cells k w)
      → (s : IsShownEntry e w (λ k. owners k m + others k)) → (k : ℕ)
      → owners k m + with_cell s.i others k ≡ live cells k (show_entry cells e w).1
  next_counted e m w others v s k = omega (arith, s.counted k)

  show_all-others :
      (m : RemotePlayers Vec) (w : World) (others : ℕ → ℕ)
      → IsLawful cells
      → ((k : ℕ) → owners k m + others k ≡ live cells k w)
      → (k : ℕ) → 1 ≤ others k
      → cells.cell k (show_all cells m w).1 ≡ cells.cell k w
  unfolding show_all
  show_all-others [] w others laws v k h = refl
  show_all-others ((peer, e) ∷ m) w others laws v k h =
      let s =
        show_entry-IsShownEntry e w (λ k. owners k m + others k) laws (λ k. omega (arith, v k)) in
      show_all-others m (show_entry cells e w).1 (with_cell s.i others) laws
        (next_counted e m w others v s) k (ground (arith, h))
      ∙ s.unmoved k (ground (arith, s.counted k, h))

  show_all-counted :
      (m : RemotePlayers Vec) (w : World) (others : ℕ → ℕ)
      → IsLawful cells
      → ((k : ℕ) → owners k m + others k ≡ live cells k w)
      → (k : ℕ) → owners k (show_all cells m w).0 + others k ≡ live cells k (show_all cells m w).1
  unfolding show_all
  show_all-counted [] w others laws v k = v k
  show_all-counted ((peer, e) ∷ m) w others laws v k =
      let s =
        show_entry-IsShownEntry e w (λ k. owners k m + others k) laws (λ k. omega (arith, v k)) in
      rw s.entity (
        omega (
          arith,
          show_all-counted m (show_entry cells e w).1 (with_cell s.i others) laws
              (next_counted e m w others v s) k,
        ))

  show_all-IsDrawn :
      (m : RemotePlayers Vec) (w : World) (others : ℕ → ℕ)
      → IsLawful cells
      → ((k : ℕ) → owners k m + others k ≡ live cells k w)
      → All (IsDrawn (show_all cells m w).1) (show_all cells m w).0
  unfolding show_all
  show_all-IsDrawn [] w others laws v = tt
  show_all-IsDrawn ((peer, e) ∷ m) w others laws v =
      let s =
        show_entry-IsShownEntry e w (λ k. owners k m + others k) laws (λ k. omega (arith, v k)) in
      let w1 = (show_entry cells e w).1 in
      let next = next_counted e m w others v s in
      (
        (
          s.i,
          (
            s.entity,
            show_all-others m w1 (with_cell s.i others) laws next s.i (ground arith)
                ∙ (s.here ∙ ap some (sym s.pos)),
          ),
        ),
        show_all-IsDrawn m w1 (with_cell s.i others) laws next,
      )

  -- Rendering leaves every cell with one player, and every player with a cell.
  pub render_remote_players-IsTidy :
      (now : ℕ) (m : RemotePlayers Vec) (w : World)
      → IsLawful cells
      → IsTidy cells m w
      → IsTidy cells (render_remote_players cells now m w).0 (render_remote_players cells now m w).1
        × All
            (IsDrawn (render_remote_players cells now m w).1)
            (render_remote_players cells now m w).0
  unfolding render_remote_players
  render_remote_players-IsTidy now m w laws v =
      let stale = stale_peers (now - stale_ms) m in
      let kept = remove_stale-IsTidy cells laws stale m w v in
      let (m1, w1) = remove_stale cells stale m w in
      let tidy : (k : ℕ) → owners k m1 + 0 ≡ live cells k w1 = λ k. omega (arith, kept k) in
      (
        λ k. omega (arith, show_all-counted m1 w1 (λ j. 0) laws tidy k),
        show_all-IsDrawn m1 w1 (λ j. 0) laws tidy,
      )
