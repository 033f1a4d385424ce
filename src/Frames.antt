-- ===== src/Frames.antt =====
-- crates/laye-p2p/src/state.rs and `recv_bytes` of crates/laye-p2p/src/wasm.rs: the queues of
-- received messages and the framing under which they are handed out; `split_frames` of
-- bevy-starter/src/laye_extern.rs, which takes the framing apart.
pub mod Framing
pub mod Drain
use laye.Base.{
  ℕ, suc, zero, ◌+◌, ◌-◌, ◌*◌, ◌/◌, ◌%◌, ◌^◌, ◌∷◌, [], ◌++◌, List, Bytes, Bool, true, false, Option,
  none, some, length, take, drop, ltb, if◌then◌else◌,
}
use laye.Base.Maps.{Map, lookup, lookup_or, insert}
use laye.Net.{NetEvent, message}

pub record RxState : Type 0 where
  pub queues : Map (List Bytes)

unfoldable pub ingest : List NetEvent → RxState → RxState
ingest [] s = s
ingest (message topic from bytes at_ms ∷ es) s =
    ingest es
      (record { queues = insert topic (lookup_or [] topic s.queues ++ bytes ∷ []) s.queues })
ingest (_ ∷ es) s = ingest es s

-- The sum of the framed sizes, in 32 bits.
unfoldable pub sum_sizes : List Bytes → ℕ
sum_sizes [] = 0
sum_sizes (b ∷ q) = (4 + length b % 2 ^ 32 + sum_sizes q) % 2 ^ 32

unfoldable pub pending_bytes : Bytes → RxState → ℕ
unfolding sum_sizes
pending_bytes topic s = elim (lookup topic s.queues) [ none ↦ 0 | some q ↦ sum_sizes q ]

-- `(n as u32).to_le_bytes()`, and back.
unfoldable pub to_le_bytes : ℕ → Bytes
to_le_bytes n = n % 256 ∷ n / 256 % 256 ∷ n / 65536 % 256 ∷ n / 16777216 % 256 ∷ []

unfoldable pub from_le_bytes : ℕ → ℕ → ℕ → ℕ → ℕ
from_le_bytes a b c d = a + 256 * b + 65536 * c + 16777216 * d

-- `out[at..at + src.len()].copy_from_slice(src)`.
unfoldable pub copy_at : ℕ → Bytes → Bytes → Bytes
copy_at at src out = take at out ++ (src ++ drop (at + length src) out)

-- The loop: the queue, what is written so far, and the buffer.
unfoldable pub drain_queue : List Bytes → ℕ → Bytes → ℕ × (Bytes × List Bytes)
unfolding copy_at to_le_bytes
drain_queue [] written out = (written, (out, []))
drain_queue (frame ∷ queue) written out =
    let need = 4 + length frame in
    let out' = copy_at (written + 4) frame (copy_at written (to_le_bytes (length frame)) out) in
    let rest = drain_queue queue (written + need) out' in
    if ltb (length out) (written + need) then (written, (out, frame ∷ queue)) else rest

-- The number of bytes written, the buffer, and the state.
unfoldable pub drain_into : Bytes → Bytes → RxState → ℕ × (Bytes × RxState)
unfolding drain_queue
drain_into topic out s = elim (lookup topic s.queues) [
  | none ↦ (0, (out, s))
  | some q ↦
      let (written, (out', q')) = drain_queue q 0 out in
      (written % 2 ^ 32, (out', record { queues = insert topic q' s.queues }))
]

unfoldable pub zeros : ℕ → Bytes
zeros zero = []
zeros (suc n) = 0 ∷ zeros n

-- `recv_bytes` after the events are drained: a buffer of `pending_bytes` zeros is filled.
unfoldable pub recv_bytes : Bytes → RxState → Bytes × RxState
unfolding pending_bytes drain_into zeros
recv_bytes topic s =
    let (written, (buf, s')) = drain_into topic (zeros (pending_bytes topic s)) s in (buf, s')

-- A sum in `usize` is taken without a bound here: on 32 bits, `off + len` wraps only at a length that
-- reaches beyond 2^32, which no buffer of `recv_bytes` holds.
-- The loop of `split_frames` on the bytes from `off` on. A round takes four bytes at least, so the
-- length of the buffer is fuel enough.
unfoldable pub split_loop : ℕ → Bytes → List Bytes
unfolding from_le_bytes
split_loop zero buf = []
split_loop (suc fuel) (a ∷ b ∷ c ∷ d ∷ rest) =
    let len = from_le_bytes a b c d in
    let frames = split_loop fuel (drop len rest) in
    if ltb (length rest) len then [] else take len rest ∷ frames
split_loop (suc fuel) buf = []

unfoldable pub split_frames : Bytes → List Bytes
unfolding split_loop
split_frames buf = split_loop (length buf) buf
