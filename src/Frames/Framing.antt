-- ===== src/Frames/Framing.antt =====
-- The framing of a queue, and what `split_frames` makes of it.
use laye.Base.{
  ℕ, suc, zero, ◌≡◌, refl, ◌+◌, ◌/◌, ◌≤◌, ◌<◌, ◌%◌, ◌^◌, ◌∷◌, [], ◌++◌, List, Bytes, length, arith,
  length-append, take-length-append, drop-length-append,
}
use laye.Frames.{to_le_bytes, from_le_bytes, split_loop, split_frames, sum_sizes}

-- The bytes of a queue: each frame behind its length.
unfoldable pub encode : List Bytes → Bytes
unfolding to_le_bytes
encode [] = []
encode (f ∷ q) = to_le_bytes (length f) ++ (f ++ encode q)

-- The sum of the framed sizes, without a bound.
unfoldable pub size : List Bytes → ℕ
size [] = 0
size (f ∷ q) = 4 + length f + size q

pub length-encode : (q : List Bytes) → length (encode q) ≡ size q
unfolding encode size
length-encode [] = refl
length-encode (f ∷ q) = omega (arith, length-append f (encode q), length-encode q)

-- Where the sum fits in 32 bits, the wrapping sum is the sum.
pub sum_sizes_exact : (q : List Bytes) → size q < 2 ^ 32 → sum_sizes q ≡ size q
unfolding sum_sizes size
sum_sizes_exact [] h = refl
sum_sizes_exact (f ∷ q) h = omega (arith, sum_sizes_exact q (omega arith))

from_le_bytes-to_le_bytes :
    (n : ℕ)
    → n < 2 ^ 32
    → from_le_bytes (n % 256) (n / 256 % 256) (n / 65536 % 256) (n / 16777216 % 256) ≡ n
unfolding from_le_bytes
from_le_bytes-to_le_bytes n h = omega arith

split_loop-encode :
    (fuel : ℕ) (q : List Bytes) → size q < 2 ^ 32 → size q ≤ fuel → split_loop fuel (encode q) ≡ q
unfolding split_loop encode size
split_loop-encode zero [] h g = refl
split_loop-encode (suc fuel) [] h g = refl
split_loop-encode zero (f ∷ q) h g = absurd (omega arith)
split_loop-encode (suc fuel) (f ∷ q) h g = ground (
  arith,
  from_le_bytes-to_le_bytes (length f),
  take-length-append f (encode q),
  drop-length-append f (encode q),
  length-append f (encode q),
  split_loop-encode fuel q,
)

-- `split_frames` takes the framing of a queue apart.
pub split_frames-encode : (q : List Bytes) → size q < 2 ^ 32 → split_frames (encode q) ≡ q
unfolding split_frames
split_frames-encode q h = split_loop-encode (length (encode q)) q h (omega (arith, length-encode q))
