-- ===== src/Relaye/Percent/Query.antt =====
-- A query reads back what a form writes.
use laye.Base.{
  ℕ, ◌≡◌, ◌≢◌, ◌∙◌, refl, ap, sym, ◌/◌, ◌%◌, ◌<◌, ◌∷◌, [], ◌++◌, append_assoc, List, Bytes, true,
  false, arith, Bool-cases, inl, inr, All, All-append, IsBytes, Lacks, split, split_once-append,
  is_empty,
}
use laye.Base.Maps.{Map, insert}
use laye.Base.Utf8.{is_utf8}
use laye.Relaye.Percent.{
  percent_encode, hex_upper_digit, is_unreserved, put_pairs, split_path_and_query, url_encode_form,
}
use laye.Relaye.Percent.RoundTrip.{percent_decode-percent_encode}

-- A separator of queries: neither an unreserved character nor one that an escape is made of.
abbrev pub IsSeparator : ℕ → Type 0
IsSeparator b = (is_unreserved b ≡ false) × (b ≢ b'%')

hex_upper_digit_plain : (b n : ℕ) → IsSeparator b → n < 16 → hex_upper_digit n ≢ b
unfolding hex_upper_digit
hex_upper_digit_plain b n h s e = ground (arith, h.0, s, e)

percent_encode-Lacks : (b : ℕ) (s : Bytes) → IsSeparator b → IsBytes s → Lacks b (percent_encode s)
unfolding percent_encode
percent_encode-Lacks b [] h v = tt
percent_encode-Lacks b (c ∷ s) h v =
    let rest = percent_encode-Lacks b s h v.1 in
    elim (Bool-cases (is_unreserved c)) [
      | inl u ↦ rw (percent_encode, u) ((λ e. ground (arith, ap is_unreserved e, u, h.0)), rest)
      | inr u ↦
          rw (percent_encode, u)
            (
              (λ e. h.1 (sym e)),
              (
                hex_upper_digit_plain b (c / 16) h (omega (arith, v.0)),
                (hex_upper_digit_plain b (c % 16) h (omega arith), rest),
              ),
            )
    ]

split-Lacks : (sep : ℕ) (a : Bytes) → Lacks sep a → split sep a ≡ a ∷ []
unfolding split
split-Lacks sep [] h = refl
split-Lacks sep (c ∷ a) h = ground (arith, split-Lacks sep a h.1)

split-append : (sep : ℕ) (a b : Bytes) → Lacks sep a → split sep (a ++ sep ∷ b) ≡ a ∷ split sep b
unfolding split
split-append sep [] b h = ground arith
split-append sep (c ∷ a) b h = ground (arith, split-append sep a b h.1)

abbrev pub put_all : List (Bytes × Bytes) → Map Bytes → Map Bytes
put_all [] m = m
put_all ((k, v) ∷ ps) m = put_all ps (insert k v m)

-- The keys and the values are UTF-8 texts.
abbrev pub IsText : Bytes → Type 0
IsText s = IsBytes s × (is_utf8 s ≡ true)

abbrev pub ArePairs : List (Bytes × Bytes) → Type 0
ArePairs = All (λ p. IsText p.0 × IsText p.1)

abbrev encoded : Bytes → Bytes → Bytes
encoded k v = percent_encode k ++ b'=' ∷ percent_encode v

is_empty-append : (xs ys : Bytes) (c : ℕ) → is_empty (xs ++ c ∷ ys) ≡ false
is_empty-append [] ys c = refl
is_empty-append (x ∷ xs) ys c = refl

ampersand : IsSeparator b'&'
ampersand = (refl, ground arith)

equals : IsSeparator b'='
equals = (refl, ground arith)

encoded-Lacks : (k v : Bytes) → IsText k → IsText v → Lacks b'&' (encoded k v)
encoded-Lacks k v hk hv =
    All-append (λ c. c ≢ b'&') (percent_encode k) (b'=' ∷ percent_encode v)
      (percent_encode-Lacks b'&' k ampersand hk.0)
      ((λ e. ground (arith, e)), percent_encode-Lacks b'&' v ampersand hv.0)

put_pairs-encoded :
    (k v : Bytes) (rest : List Bytes) (m : Map Bytes)
    → IsText k
    → IsText v
    → put_pairs (encoded k v ∷ rest) m ≡ put_pairs rest (insert k v m)
unfolding put_pairs
put_pairs-encoded k v rest m hk hv =
    rw
      (
        put_pairs,
        is_empty-append (percent_encode k) (percent_encode v) b'=',
        split_once-append b'=' (percent_encode k) (percent_encode v)
            (percent_encode-Lacks b'=' k equals hk.0),
        percent_decode-percent_encode k hk.0 hk.1,
        percent_decode-percent_encode v hv.0 hv.1,
      )
      refl

put_pairs-url_encode_form :
    (ps : List (Bytes × Bytes)) (m : Map Bytes)
    → ArePairs ps
    → put_pairs (split b'&' (url_encode_form ps)) m ≡ put_all ps m
unfolding url_encode_form put_pairs split
put_pairs-url_encode_form [] m h = refl
put_pairs-url_encode_form ((k, v) ∷ []) m h =
    ap (λ t. put_pairs t m) (split-Lacks b'&' (encoded k v) (encoded-Lacks k v h.0.0 h.0.1))
    ∙ put_pairs-encoded k v [] m h.0.0 h.0.1
put_pairs-url_encode_form ((k, v) ∷ p ∷ ps) m h =
    let rest = url_encode_form (p ∷ ps) in
    ap (λ t. put_pairs (split b'&' t) m)
      (sym (append_assoc (percent_encode k) (b'=' ∷ percent_encode v) (b'&' ∷ rest)))
    ∙ (ap (λ t. put_pairs t m)
          (split-append b'&' (encoded k v) rest (encoded-Lacks k v h.0.0 h.0.1))
        ∙ (put_pairs-encoded k v (split b'&' rest) m h.0.0 h.0.1
            ∙ put_pairs-url_encode_form (p ∷ ps) (insert k v m) h.1))

-- A target that is a path without a question mark, and a form behind one, is read back as the path and
-- the pairs of the form, of which the later ones win.
pub split_path_and_query-url_encode_form :
    (path : Bytes) (ps : List (Bytes × Bytes))
    → Lacks b'?' path
    → ArePairs ps
    → split_path_and_query (path ++ b'?' ∷ url_encode_form ps) ≡ (path, put_all ps [])
unfolding split_path_and_query
split_path_and_query-url_encode_form path ps q h =
    rw
      (
        split_path_and_query,
        split_once-append b'?' path (url_encode_form ps) q,
        put_pairs-url_encode_form ps [] h,
      )
      refl
