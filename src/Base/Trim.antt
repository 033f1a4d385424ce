-- ===== src/Base/Trim.antt =====
-- `str::trim` and its relatives, on UTF-8 bytes: the characters of the Unicode property White_Space.
use Prim.Native.Nat.{ℕ}
use mathlib.Core.Bool.{Bool, ◌&&◌, ◌||◌}
use mathlib.Core.List.{[], ◌∷◌}
use laye.Base.Tests.{leb, ◌==◌, if◌then◌else◌}
use laye.Base.Texts.{Bytes}

-- White space of one byte, of two and of three.
abbrev pub is_space1 : ℕ → Bool
is_space1 c = (leb 9 c && leb c 13) || c == 32

abbrev pub is_space2 : ℕ → ℕ → Bool
is_space2 c d = c == 0xc2 && (d == 0x85 || d == 0xa0)

abbrev pub is_space3 : ℕ → ℕ → ℕ → Bool
is_space3 c d e =
    (c == 0xe1 && d == 0x9a && e == 0x80)
    || (c == 0xe2
        && d == 0x80
        && ((leb 0x80 e && leb e 0x8a) || e == 0xa8 || e == 0xa9 || e == 0xaf))
    || (c == 0xe2 && d == 0x81 && e == 0x9f)
    || (c == 0xe3 && d == 0x80 && e == 0x80)

unfoldable pub trim_start : Bytes → Bytes
trim_start [] = []
trim_start (c ∷ []) = if is_space1 c then [] else c ∷ []
trim_start (c ∷ d ∷ []) =
    let one = trim_start (d ∷ []) in
    if is_space1 c then one else if is_space2 c d then [] else c ∷ d ∷ []
trim_start (c ∷ d ∷ e ∷ s) =
    let one = trim_start (d ∷ e ∷ s) in
    let two = trim_start (e ∷ s) in
    let three = trim_start s in
    if is_space1 c
    then one
    else if is_space2 c d
    then two
    else if is_space3 c d e
    then three
    else c ∷ d ∷ e ∷ s

-- The same on reversed bytes.
unfoldable pub trim_reversed : Bytes → Bytes
trim_reversed [] = []
trim_reversed (c ∷ []) = if is_space1 c then [] else c ∷ []
trim_reversed (c ∷ d ∷ []) =
    let one = trim_reversed (d ∷ []) in
    if is_space1 c then one else if is_space2 d c then [] else c ∷ d ∷ []
trim_reversed (c ∷ d ∷ e ∷ s) =
    let one = trim_reversed (d ∷ e ∷ s) in
    let two = trim_reversed (e ∷ s) in
    let three = trim_reversed s in
    if is_space1 c
    then one
    else if is_space2 d c
    then two
    else if is_space3 e d c
    then three
    else c ∷ d ∷ e ∷ s

unfoldable pub reverse_onto : Bytes → Bytes → Bytes
reverse_onto [] acc = acc
reverse_onto (c ∷ s) acc = reverse_onto s (c ∷ acc)

unfoldable pub trim : Bytes → Bytes
unfolding trim_start trim_reversed reverse_onto
trim s = reverse_onto (trim_reversed (reverse_onto (trim_start s) [])) []

-- `trim_start_matches(c)` and `trim_end_matches(c)`.
unfoldable pub trim_start_matches : ℕ → Bytes → Bytes
trim_start_matches k [] = []
trim_start_matches k (c ∷ s) = let rest = trim_start_matches k s in if c == k then rest else c ∷ s

unfoldable pub trim_end_matches : ℕ → Bytes → Bytes
unfolding trim_start_matches reverse_onto
trim_end_matches k s = reverse_onto (trim_start_matches k (reverse_onto s [])) []
