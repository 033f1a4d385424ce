-- ===== src/Relaye/Percent/RoundTrip.antt =====
-- What is percent-encoded is decoded again.
use laye.Base.{
  ℕ, ◌≡◌, ◌∙◌, refl, ap, ◌/◌, ◌%◌, ◌<◌, ◌∷◌, [], Bytes, true, some, IsBytes, arith, Bool-cases, inl,
  inr,
}
use laye.Base.Utf8.{is_utf8}
use laye.Relaye.Percent.{
  hex_nibble, hex_pair, decode_bytes, percent_decode, percent_encode, hex_upper_digit,
  is_unreserved,
}

hex_pair-hex_upper_digit :
    (c : ℕ) → c < 256 → hex_pair (hex_upper_digit (c / 16)) (hex_upper_digit (c % 16)) ≡ some c
unfolding hex_pair hex_nibble hex_upper_digit
hex_pair-hex_upper_digit c h = ground arith

decode_bytes-plain :
    (c : ℕ) (s : Bytes) → is_unreserved c ≡ true → decode_bytes (c ∷ s) ≡ c ∷ decode_bytes s
unfolding decode_bytes
decode_bytes-plain c [] h = ground arith
decode_bytes-plain c (a ∷ []) h = ground arith
decode_bytes-plain c (a ∷ b ∷ s) h = ground arith

decode_bytes-nil : decode_bytes [] ≡ []
unfolding decode_bytes
decode_bytes-nil = refl

decode_bytes-escape :
    (c : ℕ) (s : Bytes)
    → c < 256
    → decode_bytes (b'%' ∷ hex_upper_digit (c / 16) ∷ hex_upper_digit (c % 16) ∷ s)
      ≡ c ∷ decode_bytes s
unfolding decode_bytes
decode_bytes-escape c s h = rw (hex_pair-hex_upper_digit c h) refl

decode_bytes-percent_encode : (s : Bytes) → IsBytes s → decode_bytes (percent_encode s) ≡ s
unfolding percent_encode
decode_bytes-percent_encode [] h = decode_bytes-nil
decode_bytes-percent_encode (c ∷ s) h = elim (Bool-cases (is_unreserved c)) [
  | inl u ↦
      rw (percent_encode, u)
        (decode_bytes-plain c (percent_encode s) u
          ∙ ap (λ t. c ∷ t) (decode_bytes-percent_encode s h.1))
  | inr u ↦
      rw (percent_encode, u)
        (decode_bytes-escape c (percent_encode s) h.0
          ∙ ap (λ t. c ∷ t) (decode_bytes-percent_encode s h.1))
]

-- A text that is percent-encoded as a form field is decoded to itself.
pub percent_decode-percent_encode :
    (s : Bytes) → IsBytes s → is_utf8 s ≡ true → percent_decode (percent_encode s) ≡ s
unfolding percent_decode
percent_decode-percent_encode s h u = rw (decode_bytes-percent_encode s h, u) refl
