-- ===== src/Me/Hex.antt =====
-- `hex_lower`, `hex_decode` and `hex_nibble`, and the two serde helpers over them.
use laye.Base.{
  ℕ, ◌+◌, ◌*◌, ◌-◌, ◌/◌, ◌%◌, ◌<◌, ◌≤◌, ◌≡◌, ◌⊎◌, refl, ap, subst, ◌∷◌, [], true, Bool, Bytes,
  codes, length, get_elem?, get_or_else, arith, leb, ltb, ◌==◌, ==_iff, ◌&&◌, if◌then◌else◌,
  IsBytes, All, Result, Result-cases, inl, inr, ok, err, map, to_ascii_lowercase, Lacks,
}
use laye.Base.Ranges.{holds_below, holds_below_sound}
use laye.Base.Try.{◌>>=◌}

-- `HEX[n]`.
pub hex_digit : ℕ → ℕ
hex_digit n = get_or_else (get_elem? (codes "0123456789abcdef") n) 0

unfoldable pub hex_lower : Bytes → Bytes
unfolding hex_digit
hex_lower [] = []
hex_lower (b ∷ bs) = hex_digit (b / 16) ∷ hex_digit (b % 16) ∷ hex_lower bs

-- The errors, which the source prints.
pub data HexError : Type 0 where
  odd_length : ℕ → HexError
  non_hex_byte : ℕ → HexError
  wrong_length : ℕ → HexError

unfoldable pub hex_nibble : ℕ → Result HexError ℕ
hex_nibble c =
    if leb b'0' c && leb c b'9'
    then ok (c - b'0')
    else if leb b'a' c && leb c b'f'
    then ok (10 + c - b'a')
    else if leb b'A' c && leb c b'F'
    then ok (10 + c - b'A')
    else err (non_hex_byte c)

-- The loop over pairs. The halves of a byte have no bit in common, so `|` is `+`.
decode_pairs : Bytes → Result HexError Bytes
decode_pairs [] = ok []
decode_pairs (c ∷ []) = err (odd_length 1)
decode_pairs (h ∷ l ∷ s) = do
  hi ← hex_nibble h
  lo ← hex_nibble l
  out ← decode_pairs s
  ok ((hi * 16 + lo) ∷ out)

unfoldable pub hex_decode : Bytes → Result HexError Bytes
unfolding decode_pairs hex_nibble
hex_decode s = if length s % 2 == 0 then decode_pairs s else err (odd_length (length s))

-- `hex_bytes_32::deserialize`, behind the string.
unfoldable pub decode_32 : Bytes → Result HexError Bytes
decode_32 s = do
  bytes ← hex_decode s
  if length bytes == 32 then ok bytes else err (wrong_length (length bytes))

length-hex_lower : (bs : Bytes) → length (hex_lower bs) ≡ 2 * length bs
unfolding hex_lower
length-hex_lower [] = omega arith
length-hex_lower (b ∷ bs) = omega (arith, length-hex_lower bs)

digit_shape : ℕ → Bool
digit_shape n = hex_digit n == (if ltb n 10 then n + b'0' else n + 87)

hex_digit_table : holds_below digit_shape 16 ≡ true
unfolding hex_digit digit_shape
hex_digit_table = refl

pub hex_digit_lem : (n : ℕ) → n < 16 → hex_digit n ≡ (if ltb n 10 then n + b'0' else n + 87)
unfolding digit_shape
hex_digit_lem n h = (==_iff _ _).0 (holds_below_sound digit_shape 16 n hex_digit_table h)

nibble-digit : (n : ℕ) → n < 16 → hex_nibble (hex_digit n) ≡ ok n
unfolding hex_nibble
nibble-digit n h = ground (arith, hex_digit_lem n h)

decode_pairs-hex_lower : (bs : Bytes) → IsBytes bs → decode_pairs (hex_lower bs) ≡ ok bs
unfolding decode_pairs hex_lower
decode_pairs-hex_lower [] h = refl
decode_pairs-hex_lower (b ∷ bs) h =
    rw
      (
        nibble-digit (b / 16) (omega arith),
        nibble-digit (b % 16) (omega arith),
        decode_pairs-hex_lower bs h.1,
      )
      (ground arith)

-- Decoding the hex print of a byte string gives the byte string back.
pub hex_decode-hex_lower : (bs : Bytes) → IsBytes bs → hex_decode (hex_lower bs) ≡ ok bs
unfolding hex_decode
hex_decode-hex_lower bs h = ground (arith, length-hex_lower bs, decode_pairs-hex_lower bs h)

-- What a nibble stands for prints as the nibble in lower case.
digit-nibble :
    (c : ℕ) {n : ℕ} → hex_nibble c ≡ ok n → (n < 16) × (hex_digit n ≡ to_ascii_lowercase c)
unfolding hex_nibble to_ascii_lowercase
digit-nibble c {n} h = ground (arith, hex_digit_lem n)

pair_sound :
    (x y hi lo : ℕ) (s out : Bytes)
    → hex_nibble x ≡ ok hi
    → hex_nibble y ≡ ok lo
    → IsBytes out × (hex_lower out ≡ map to_ascii_lowercase s)
    → IsBytes ((hi * 16 + lo) ∷ out)
      × (hex_lower ((hi * 16 + lo) ∷ out) ≡ map to_ascii_lowercase (x ∷ y ∷ s))
unfolding hex_lower
pair_sound x y hi lo s out p q ih =
    let dx = digit-nibble x p in
    let dy = digit-nibble y q in
    let high : (hi * 16 + lo) / 16 ≡ hi = omega arith in
    let low : (hi * 16 + lo) % 16 ≡ lo = omega arith in
    ((omega arith, ih.0), rw (high, low) (cc (dx.1, dy.1, ih.1)))

-- A decoded byte string prints as the text that it was decoded from, in lower case.
decode_pairs_sound :
    (s : Bytes) (bs : Bytes)
    → decode_pairs s ≡ ok bs
    → IsBytes bs × (hex_lower bs ≡ map to_ascii_lowercase s)
unfolding decode_pairs hex_lower
decode_pairs_sound [] [] h = (tt, refl)
decode_pairs_sound [] (b ∷ bs) h = absurd (cc)
decode_pairs_sound (c ∷ []) bs h = cc
decode_pairs_sound (x ∷ y ∷ s) bs h = elim (Result-cases (hex_nibble x)) [
  | inl (e, p) ↦ absurd (ground arith)
  | inr (hi, p) ↦ elim (Result-cases (hex_nibble y)) [
    | inl (e, q) ↦ absurd (ground arith)
    | inr (lo, q) ↦ elim (Result-cases (decode_pairs s)) [
      | inl (e, r) ↦ absurd (ground arith)
      | inr (out, r) ↦
          let e : (hi * 16 + lo) ∷ out ≡ bs = ground arith in
          rw (← e) (pair_sound x y hi lo s out p q (decode_pairs_sound s out r))
    ]
  ]
]

-- Texts that decode to the same bytes differ in the case of their letters at most.
hex_decode_sound :
    (s bs : Bytes) → hex_decode s ≡ ok bs → IsBytes bs × (hex_lower bs ≡ map to_ascii_lowercase s)
unfolding hex_decode
hex_decode_sound s bs h = ground (arith, decode_pairs_sound s bs)

abbrev pub IsLowerHex : ℕ → Type 0
IsLowerHex c = ((b'0' ≤ c) × (c ≤ b'9')) ⊎ ((b'a' ≤ c) × (c ≤ b'f'))

hex_digit-IsLowerHex : (n : ℕ) → n < 16 → IsLowerHex (hex_digit n)
hex_digit-IsLowerHex n h = ground (arith, hex_digit_lem n h)

-- The print has two lower-case hexadecimal digits for each byte.
pub hex_lower-IsLowerHex : (bs : Bytes) → IsBytes bs → All IsLowerHex (hex_lower bs)
unfolding hex_lower
hex_lower-IsLowerHex [] h = tt
hex_lower-IsLowerHex (b ∷ bs) h = (
  hex_digit-IsLowerHex (b / 16) (omega arith),
  (hex_digit-IsLowerHex (b % 16) (omega arith), hex_lower-IsLowerHex bs h.1),
)

pub hex_lower-Lacks : (c : ℕ) (bs : Bytes) → IsBytes bs → ¬ IsLowerHex c → Lacks c (hex_lower bs)
hex_lower-Lacks c bs h n = go (hex_lower bs) (hex_lower-IsLowerHex bs h)
  where
    go : (xs : Bytes) → All IsLowerHex xs → Lacks c xs
    go [] a = tt
    go (x ∷ xs) a = (λ e. n (subst IsLowerHex e a.0), go xs a.1)

pub hex_lower-injective :
    (xs ys : Bytes) → IsBytes xs → IsBytes ys → hex_lower xs ≡ hex_lower ys → xs ≡ ys
hex_lower-injective xs ys ha hb e =
    ground (arith, hex_decode-hex_lower xs ha, hex_decode-hex_lower ys hb, ap hex_decode e)

-- A key of 32 bytes goes through its JSON string unchanged.
pub decode_32-hex_lower :
    (key : Bytes) → IsBytes key → length key ≡ 32 → decode_32 (hex_lower key) ≡ ok key
unfolding decode_32
decode_32-hex_lower key h l = rw (hex_decode-hex_lower key h) (ground arith)
