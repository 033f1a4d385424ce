-- ===== src/P2p/Chat/History.antt =====
-- The bounded history, and the cut of a long body.
use laye.Base.{
  ℕ, suc, zero, ◌≡◌, ◌∙◌, refl, sym, ap, ◌≤◌, ◌∷◌, [], ◌++◌, List, Bytes, true, false, none, length,
  take, drop, leb, ltb, arith, append_assoc, append-nil, inl, inr, Bool-cases, Option-cases,
  get_elem?, get_elem?-lt, length-take, ==_iff, ◌==◌, ◌-◌,
}
use laye.Base.Recent.{drop-drop, keep_last, keep_last-append, keep_last_all, length-keep_last-le}
use laye.P2p.Chat.{
  ChatEntry, ChatState, shrink, push, is_char_boundary, floor_boundary, trim_to_char_boundary,
}

keep_last_cons :
    (cap : ℕ) (e : ChatEntry) (es : List ChatEntry)
    → cap ≤ length es
    → keep_last cap (e ∷ es) ≡ keep_last cap es
keep_last_cons cap e es h =
    sym (drop-drop (length es - cap) 1 (suc (length es) - cap) (e ∷ es) (omega arith))

shrink-keep_last : (cap : ℕ) (q : List ChatEntry) → shrink cap q ≡ keep_last cap q
unfolding shrink
shrink-keep_last cap [] = sym (keep_last_all cap [] (omega arith))
shrink-keep_last cap (e ∷ es) = elim (Bool-cases (ltb cap (length (e ∷ es)))) [
  | inl h ↦ ground (arith, shrink-keep_last cap es, keep_last_cons cap e es (ground arith))
  | inr h ↦ ground (arith, keep_last_all cap (e ∷ es) (ground arith))
]

unfoldable pub push_all : List ChatEntry → ChatState → ChatState
push_all [] s = s
push_all (e ∷ es) s = push_all es (push e s)

-- Entries pushed to a history within its cap leave the newest `cap` entries, oldest first.
push_all-history :
    (es : List ChatEntry) (s : ChatState)
    → length s.history ≤ s.cap
    → (push_all es s).history ≡ keep_last s.cap (s.history ++ es)
unfolding push_all push
push_all-history [] s h = rw append-nil (sym (keep_last_all s.cap s.history h))
push_all-history (e ∷ es) s h =
    push_all-history es (push e s) (
      rw (shrink-keep_last s.cap (s.history ++ e ∷ []))
        (length-keep_last-le s.cap (s.history ++ e ∷ [])))
    ∙ rw (shrink-keep_last s.cap (s.history ++ e ∷ []), keep_last-append, append_assoc) refl

get_elem?_end : (body : Bytes) (n : ℕ) → length body ≤ n → get_elem? body n ≡ none
get_elem?_end [] n h = refl
get_elem?_end (b ∷ body) zero h = absurd (omega arith)
get_elem?_end (b ∷ body) (suc n) h = get_elem?_end body n (omega arith)

is_char_boundary-zero : (body : Bytes) → is_char_boundary body 0 ≡ true
unfolding is_char_boundary
is_char_boundary-zero body = refl

is_char_boundary-length : (body : Bytes) → is_char_boundary body (length body) ≡ true
unfolding is_char_boundary
is_char_boundary-length [] = refl
is_char_boundary-length (b ∷ body) = ground (arith, get_elem?_end body (length body) (omega arith))

is_char_boundary-le : (body : Bytes) (k : ℕ) → is_char_boundary body k ≡ true → k ≤ length body
unfolding is_char_boundary
is_char_boundary-le body zero h = omega arith
is_char_boundary-le body (suc k) h = elim (Option-cases (get_elem? body (suc k))) [
  | inl e ↦ ground (arith, e)
  | inr (b, e) ↦ omega (arith, get_elem?-lt body (suc k) e)
]

below_top :
    (body : Bytes) (n k : ℕ)
    → k ≤ suc n
    → is_char_boundary body k ≡ true
    → is_char_boundary body (suc n) ≡ false
    → k ≤ n
below_top body n k h t b = elim (Bool-cases (k == suc n)) [
  | inl e ↦ let same : k ≡ suc n = (==_iff k (suc n)).0 e in absurd (cc)
  | inr e ↦ ground arith
]

floor_boundary_lem :
    (body : Bytes) (n k : ℕ)
    → k ≤ n
    → is_char_boundary body k ≡ true
    → (floor_boundary body n ≤ n)
      × ((is_char_boundary body (floor_boundary body n) ≡ true) × (k ≤ floor_boundary body n))
unfolding floor_boundary
floor_boundary_lem body zero k h t = (omega arith, (is_char_boundary-zero body, h))
floor_boundary_lem body (suc n) k h t = elim (Bool-cases (is_char_boundary body (suc n))) [
  | inl b ↦ ground (arith, b)
  | inr b ↦
      let below : k ≤ n = below_top body n k h t b in
      ground (arith, b, floor_boundary_lem body n k below t)
]

take-drop : (n : ℕ) (xs : Bytes) → take n xs ++ drop n xs ≡ xs
take-drop zero xs = refl
take-drop (suc n) [] = refl
take-drop (suc n) (x ∷ xs) = ap (λ t. x ∷ t) (take-drop n xs)

take-drop_all : (xs : Bytes) → xs ++ drop (length xs) xs ≡ xs
take-drop_all [] = refl
take-drop_all (x ∷ xs) = ap (λ t. x ∷ t) (take-drop_all xs)

-- The cut of a body is a prefix of it within the bound that ends between two characters, and no
-- longer prefix within the bound does.
pub trim_to_char_boundary_lem :
    (body : Bytes) (max_bytes k : ℕ)
    → k ≤ max_bytes
    → is_char_boundary body k ≡ true
    → let t = trim_to_char_boundary body max_bytes in
      (t ++ drop (length t) body ≡ body)
      × ((length t ≤ max_bytes) × ((is_char_boundary body (length t) ≡ true) × (k ≤ length t)))
unfolding trim_to_char_boundary
trim_to_char_boundary_lem body m k h t = elim (Bool-cases (leb (length body) m)) [
  | inl b ↦ rw b (
    take-drop_all body,
    (ground (arith, b), (is_char_boundary-length body, is_char_boundary-le body k t)),
  )
  | inr b ↦
      let (a, (c, d)) = floor_boundary_lem body m k h t in
      let size : length (take (floor_boundary body m) body) ≡ floor_boundary body m =
        ground (arith, length-take (floor_boundary body m) body) in
      rw (b, size) (take-drop (floor_boundary body m) body, (a, (c, d)))
]
