-- ===== src/Relaye/Http/Chunks.antt =====
-- How a request is cut into pieces does not matter.
use laye.Base.{
  ℕ, zero, suc, ◌≡◌, ◌≢◌, ◌≤◌, ◌<◌, ◌∙◌, refl, ap, sym, ◌+◌, ◌-◌, ◌∷◌, [], ◌++◌, append_assoc,
  append-nil, List, Bytes, true, false, none, some, map, take, length, length-append, get_or_else,
  leb, ltb, arith, All, Result, ok, Option-cases, inl, inr,
}
use laye.Base.Search.{find_sub_fits, find_sub-append}
use laye.Relaye.Http.{
  max_http_request_bytes, double_crlf, find_double_crlf, parse_content_length, parse_request,
  complete, read_loop, read_full_request,
}

abbrev pub joined : List Bytes → Bytes
joined [] = []
joined (c ∷ cs) = c ++ joined cs

-- What the head at the first empty line announces.
abbrev pub announced : ℕ → Bytes → ℕ
announced head_end raw = get_or_else (parse_content_length (take head_end raw)) 0

take-append_short : (n : ℕ) (xs ys : Bytes) → n ≤ length xs → take n (xs ++ ys) ≡ take n xs
take-append_short zero xs ys h = refl
take-append_short (suc n) [] ys h = absurd (omega (arith, h))
take-append_short (suc n) (x ∷ xs) ys h =
    ap (λ t. x ∷ t) (take-append_short n xs ys (omega (arith, h)))

complete-whole :
    (raw : Bytes) (h : ℕ)
    → find_double_crlf raw ≡ some h
    → length raw ≡ h + 4 + announced h raw
    → complete raw ≡ some (parse_request raw h (h + 4) (announced h raw))
unfolding complete
complete-whole raw h f l =
    let enough : leb (announced h raw) (length raw - (h + 4)) ≡ true = ground (arith, l) in
    rw (complete, f, enough) refl

-- A strict prefix of a request is not taken for a request.
complete-prefix :
    (buf post : Bytes) (h : ℕ)
    → find_double_crlf (buf ++ post) ≡ some h
    → length (buf ++ post) ≡ h + 4 + announced h (buf ++ post)
    → length buf < length (buf ++ post)
    → complete buf ≡ none
unfolding complete find_double_crlf
complete-prefix buf post h f l s = elim (Option-cases (find_double_crlf buf)) [
  | inl n ↦ rw (complete, n) refl
  | inr (k, n) ↦
      let same : k ≡ h = ground (arith, find_sub-append double_crlf buf post n, f) in
      let inside : k + 4 ≤ length buf = find_sub_fits double_crlf buf n in
      let head : announced k buf ≡ announced h (buf ++ post) =
        ap (λ t. get_or_else (parse_content_length t) 0)
          (sym (take-append_short k buf post (omega (arith, inside))))
        ∙ ap (λ i. announced i (buf ++ post)) same in
      let short : leb (announced k buf) (length buf - (k + 4)) ≡ false =
        ground (arith, head, l, s, same) in
      rw (complete, n, short) refl
]

module _ (raw : Bytes) (h : ℕ) (more : List (Result Bytes Bytes))
    (f : find_double_crlf raw ≡ some h) (l : length raw ≡ h + 4 + announced h raw)
    (small : length raw ≤ max_http_request_bytes) where
  read_loop-chunks :
      (buf : Bytes) (chunks : List Bytes)
      → All (λ c. c ≢ []) chunks
      → buf ++ joined chunks ≡ raw
      → length buf < length raw
      → read_loop buf (map ok chunks ++ more) ≡ ok (parse_request raw h (h + 4) (announced h raw))
  unfolding read_loop
  read_loop-chunks buf [] ne e s = absurd (omega (arith, s, ap length (sym (append-nil buf) ∙ e)))
  read_loop-chunks buf ([] ∷ chunks) ne e s = absurd (ne.0 refl)
  read_loop-chunks buf ((c ∷ cs) ∷ []) ne e s =
      let full : complete (buf ++ c ∷ cs) ≡ some (parse_request raw h (h + 4) (announced h raw)) =
        ap complete (ap (λ t. buf ++ t) (sym (append-nil (c ∷ cs))) ∙ e)
        ∙ complete-whole raw h f l in
      rw (read_loop, full) refl
  read_loop-chunks buf ((c ∷ cs) ∷ [] ∷ chunks) ne e s = absurd (ne.1.0 refl)
  read_loop-chunks buf ((c ∷ cs) ∷ (d ∷ ds) ∷ chunks) ne e s =
      let post = (d ∷ ds) ++ joined chunks in
      let whole : (buf ++ c ∷ cs) ++ post ≡ raw = append_assoc buf (c ∷ cs) post ∙ e in
      let grows : length (buf ++ c ∷ cs) < length raw =
        omega (arith, ap length whole, length-append (buf ++ c ∷ cs) post) in
      let waits : complete (buf ++ c ∷ cs) ≡ none =
        complete-prefix (buf ++ c ∷ cs) post h (ap find_double_crlf whole ∙ f)
          (ap length whole ∙ l ∙ ap (λ t. h + 4 + announced h t) (sym whole))
          (omega (arith, ap length whole, grows)) in
      let fits : ltb max_http_request_bytes (length (buf ++ c ∷ cs)) ≡ false =
        ground (arith, grows, small) in
      rw (read_loop, waits, fits)
        (read_loop-chunks (buf ++ c ∷ cs) ((d ∷ ds) ∷ chunks) ne.1 whole grows)

  -- A request of at most 64 KiB whose length is what its head announces is read, and parsed the same,
  -- however it is cut into pieces; what the socket would give after it is not waited for.
  pub read_full_request-chunks :
      (chunks : List Bytes)
      → All (λ c. c ≢ []) chunks
      → joined chunks ≡ raw
      → read_full_request (map ok chunks ++ more)
        ≡ ok (parse_request raw h (h + 4) (announced h raw))
  unfolding read_full_request
  read_full_request-chunks chunks ne e = read_loop-chunks [] chunks ne e (omega (arith, l))
