-- ===== src/Frames/Drain.antt =====
-- What `drain_into` and `recv_bytes` hand out of a queue.
use laye.Base.{
  ℕ, suc, zero, ◌≡◌, ◌∙◌, refl, sym, ap, ap₂, ◌+◌, ◌-◌, ◌≤◌, ◌<◌, ◌^◌, ◌∷◌, [], ◌++◌, List, Bytes,
  length, drop, arith, ltb, if◌then◌else◌, length-append, take-length-append, drop-length-append,
  append_assoc, append-nil, append_cancel, ◌≢◌, inl, inr, Option-cases, bytes_eq_iff, Bool-cases,
  length-drop,
}
use laye.Base.Maps.{lookup, lookup_or, lookup-insert}
use laye.Base.Recent.{drop-drop}
use laye.Frames.{
  RxState, pending_bytes, copy_at, to_le_bytes, drain_queue, drain_into, zeros, recv_bytes,
  split_frames,
}
use laye.Frames.Framing.{encode, size, sum_sizes_exact, split_frames-encode}

-- The frames of the front of the queue that fit in `n` bytes, and the frames behind them.
unfoldable pub fitting : ℕ → List Bytes → List Bytes
fitting n [] = []
fitting n (f ∷ q) =
    let rest = fitting (n - (4 + length f)) q in if ltb n (4 + length f) then [] else f ∷ rest

unfoldable pub left_over : ℕ → List Bytes → List Bytes
left_over n [] = []
left_over n (f ∷ q) =
    let rest = left_over (n - (4 + length f)) q in if ltb n (4 + length f) then f ∷ q else rest

fitting-left_over : (n : ℕ) (q : List Bytes) → fitting n q ++ left_over n q ≡ q
unfolding fitting left_over
fitting-left_over n [] = refl
fitting-left_over n (f ∷ q) = ground (arith, fitting-left_over (n - (4 + length f)) q)

size-fitting-le : (n : ℕ) (q : List Bytes) → size (fitting n q) ≤ n
unfolding fitting size
size-fitting-le n [] = omega arith
size-fitting-le n (f ∷ q) = ground (arith, size-fitting-le (n - (4 + length f)) q)

fitting_all : (n : ℕ) (q : List Bytes) → size q ≤ n → (fitting n q ≡ q) × (left_over n q ≡ [])
unfolding fitting left_over size
fitting_all n [] h = (refl, refl)
fitting_all n (f ∷ q) h =
    let (a, b) = fitting_all (n - (4 + length f)) q (omega arith) in (ground arith, ground arith)

drop-append_add : (k : ℕ) (pre suf : Bytes) → drop (length pre + k) (pre ++ suf) ≡ drop k suf
drop-append_add k pre suf =
    sym (drop-drop k (length pre) (length pre + k) (pre ++ suf) refl)
    ∙ ap (drop k) (drop-length-append pre suf)

copy_at-append :
    (at : ℕ) (src pre suf : Bytes)
    → at ≡ length pre
    → copy_at at src (pre ++ suf) ≡ (pre ++ src) ++ drop (length src) suf
unfolding copy_at
copy_at-append at src pre suf e = rw (
  e,
  take-length-append pre suf,
  drop-append_add (length src) pre suf,
  append_assoc pre src (drop (length src) suf),
)

-- The length of a frame and the frame, written one behind the other.
copy_at-frame :
    (at : ℕ) (f pre suf : Bytes)
    → at ≡ length pre
    → copy_at (at + 4) f (copy_at at (to_le_bytes (length f)) (pre ++ suf))
      ≡ ((pre ++ to_le_bytes (length f)) ++ f) ++ drop (4 + length f) suf
unfolding to_le_bytes
copy_at-frame at f pre suf e =
    let le = to_le_bytes (length f) in
    ap (copy_at (at + 4) f) (copy_at-append at le pre suf e)
    ∙ (copy_at-append (at + 4) f (pre ++ le) (drop 4 suf) (omega (arith, length-append pre le))
        ∙ ap (λ t. ((pre ++ le) ++ f) ++ t) (drop-drop (length f) 4 (4 + length f) suf refl))

length-frame :
    (at : ℕ) (f pre : Bytes)
    → at ≡ length pre
    → at + (4 + length f) ≡ length ((pre ++ to_le_bytes (length f)) ++ f)
unfolding to_le_bytes
length-frame at f pre e = omega (
  arith,
  length-append (pre ++ to_le_bytes (length f)) f,
  length-append pre (to_le_bytes (length f)),
)

plus_assoc : (a b c : ℕ) → a + b + c ≡ a + (b + c)
plus_assoc a b c = omega arith

append_frame :
    (pre le f x y : Bytes) → ((pre ++ le) ++ f) ++ (x ++ y) ≡ pre ++ ((le ++ (f ++ x)) ++ y)
append_frame pre le f x y = simp append_assoc

drain_queue_lem :
    (q : List Bytes) (at n : ℕ) (pre suf : Bytes)
    → at ≡ length pre
    → n ≡ length suf
    → drain_queue q at (pre ++ suf) ≡ (
      at + size (fitting n q),
      (pre ++ (encode (fitting n q) ++ drop (size (fitting n q)) suf), left_over n q),
    )
unfolding drain_queue fitting left_over size encode
drain_queue_lem [] at n pre suf e d = ground (arith, append-nil pre)
drain_queue_lem (f ∷ q) at n pre suf e d = elim (Bool-cases (ltb n (4 + length f))) [
  | inl h ↦ ground (arith, length-append pre suf)
  | inr h ↦
      let le = to_le_bytes (length f) in
      let m = n - (4 + length f) in
      let ih =
        drain_queue_lem q (at + (4 + length f)) m ((pre ++ le) ++ f) (drop (4 + length f) suf)
          (length-frame at f pre e) (omega (arith, length-drop (4 + length f) suf)) in
      let out = copy_at (at + 4) f (copy_at at le (pre ++ suf)) in
      let first : drain_queue (f ∷ q) at (pre ++ suf) ≡ drain_queue q (at + (4 + length f)) out =
        ground (arith, length-append pre suf) in
      let fit : fitting n (f ∷ q) ≡ f ∷ fitting m q = ground arith in
      let left : left_over n (f ∷ q) ≡ left_over m q = ground arith in
      let joined =
        ap (λ t. ((pre ++ le) ++ f) ++ (encode (fitting m q) ++ t))
          (drop-drop (size (fitting m q)) (4 + length f) (4 + length f + size (fitting m q)) suf
            refl)
        ∙ append_frame pre le f (encode (fitting m q))
            (drop (4 + length f + size (fitting m q)) suf) in
      let second = ap (drain_queue q (at + (4 + length f))) (copy_at-frame at f pre suf e) in
      let rewritten =
        ap₂ (λ fs lo. (at + size fs, (pre ++ (encode fs ++ drop (size fs) suf), lo))) (sym fit)
          (sym left) in
      let paired =
        ap₂ (λ k t. (k, (t, left_over m q))) (plus_assoc at (4 + length f) (size (fitting m q)))
          joined in
      first ∙ (second ∙ (ih ∙ (paired ∙ rewritten)))
]

-- `drain_into` writes the framing of the longest prefix of the topic's queue that fits, leaves the
-- rest of the buffer as it was and the rest of the queue in its order, and touches no other topic.
drain_into_lem :
    (topic j out : Bytes) (s : RxState)
    → length out < 2 ^ 32
    → topic ≢ j
    → let q = lookup_or [] topic s.queues in
      let sent = fitting (length out) q in
      let (written, (out', s')) = drain_into topic out s in
      (written ≡ size sent)
      × ((out' ≡ encode sent ++ drop (size sent) out)
          × ((sent ++ lookup_or [] topic s'.queues ≡ q) × (lookup j s'.queues ≡ lookup j s.queues)))
unfolding drain_into fitting encode size
drain_into_lem topic j out s h d = elim (Option-cases (lookup topic s.queues)) [
  | inl e ↦ rw (drain_into, lookup_or, e) (refl, (refl, (ground (arith, e), refl)))
  | inr (q, e) ↦
      rw (drain_into, lookup_or, e, drain_queue_lem q 0 (length out) [] out refl refl)
        (
          omega (arith, size-fitting-le (length out) q),
          (
            refl,
            (
              ground (
                arith,
                fitting-left_over (length out) q,
                lookup-insert topic topic (left_over (length out) q) s.queues,
                bytes_eq_iff topic topic,
              ),
              ground (
                arith,
                lookup-insert topic j (left_over (length out) q) s.queues,
                bytes_eq_iff topic j,
              ),
            ),
          ),
        )
]

length-zeros : (n : ℕ) → length (zeros n) ≡ n
unfolding zeros
length-zeros zero = refl
length-zeros (suc n) = ap suc (length-zeros n)

drop_all : (k : ℕ) (xs : Bytes) → length xs ≤ k → drop k xs ≡ []
drop_all zero [] h = refl
drop_all zero (x ∷ xs) h = absurd (omega arith)
drop_all (suc k) [] h = refl
drop_all (suc k) (x ∷ xs) h = drop_all k xs (omega arith)

-- Below 2^32 bytes, `pending_bytes` is the framed size of the topic's queue.
pub pending_bytes_lem :
    (topic : Bytes) (s : RxState)
    → size (lookup_or [] topic s.queues) < 2 ^ 32
    → pending_bytes topic s ≡ size (lookup_or [] topic s.queues)
unfolding pending_bytes size
pending_bytes_lem topic s h = elim (Option-cases (lookup topic s.queues)) [
  | inl e ↦ ground (arith, e)
  | inr (q, e) ↦ ground (arith, e, sum_sizes_exact q)
]

-- A queue whose framed size is below 2^32 is received whole: `split_frames` on what `recv_bytes`
-- hands out gives its frames in order, nothing is pending afterwards, and another topic's queue is
-- untouched.
pub split_frames-recv_bytes :
    (topic j : Bytes) (s : RxState)
    → size (lookup_or [] topic s.queues) < 2 ^ 32
    → topic ≢ j
    → let (buf, s') = recv_bytes topic s in
      (split_frames buf ≡ lookup_or [] topic s.queues)
      × ((pending_bytes topic s' ≡ 0) × (lookup j s'.queues ≡ lookup j s.queues))
unfolding recv_bytes size
split_frames-recv_bytes topic j s h d =
    let n = pending_bytes topic s in
    let q = lookup_or [] topic s.queues in
    let n_size : length (zeros n) ≡ size q = length-zeros n ∙ pending_bytes_lem topic s h in
    let (a, (b, (c, other))) = drain_into_lem topic j (zeros n) s (omega arith) d in
    let (fits, left) = fitting_all (length (zeros n)) q (omega arith) in
    let rest = lookup_or [] topic (drain_into topic (zeros n) s).1.1.queues in
    let empty : rest ≡ [] =
      append_cancel q (ap (λ t. t ++ rest) (sym fits) ∙ (c ∙ sym (append-nil q))) in
    let buf : (drain_into topic (zeros n) s).1.0 ≡ encode q =
      b
      ∙ (ap (λ t. encode t ++ drop (size t) (zeros n)) fits
          ∙ (ap (λ t. encode q ++ t) (drop_all (size q) (zeros n) (omega arith))
              ∙ append-nil (encode q))) in
    let none_left = ap size empty in
    (
      ap split_frames buf ∙ split_frames-encode q h,
      (pending_bytes_lem topic (drain_into topic (zeros n) s).1.1 (omega arith) ∙ none_left, other),
    )
