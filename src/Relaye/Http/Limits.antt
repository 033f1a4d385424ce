-- ===== src/Relaye/Http/Limits.antt =====
-- How much of a request is kept.
use laye.Base.{
  ◌≡◌, ◌≢◌, ◌≤◌, ◌<◌, ◌∙◌, refl, ap, sym, ◌∷◌, [], ◌++◌, append_assoc, append-nil, List, Bytes,
  Bool-cases, none, map, length, ltb, arith, All, Result, ok, err, Option-cases, inl, inr,
}
use laye.Base.Search.{find_sub-append}
use laye.Relaye.Http.{
  max_http_request_bytes, double_crlf, find_double_crlf, complete, exceeds_size_limit, read_loop,
  read_full_request,
}
use laye.Relaye.Http.Chunks.{joined}

complete-headless : (buf post : Bytes) → find_double_crlf (buf ++ post) ≡ none → complete buf ≡ none
unfolding complete find_double_crlf
complete-headless buf post f = elim (Option-cases (find_double_crlf buf)) [
  | inl n ↦ rw (complete, n) refl
  | inr (k, n) ↦ absurd (ground (arith, f, find_sub-append double_crlf buf post n))
]

module _ (raw : Bytes) (more : List (Result Bytes Bytes)) (f : find_double_crlf raw ≡ none)
    (large : max_http_request_bytes < length raw) where
  read_loop-headless :
      (buf : Bytes) (chunks : List Bytes)
      → All (λ c. c ≢ []) chunks
      → buf ++ joined chunks ≡ raw
      → length buf ≤ max_http_request_bytes
      → read_loop buf (map ok chunks ++ more) ≡ err exceeds_size_limit
  unfolding read_loop
  read_loop-headless buf [] ne e s =
      absurd (omega (arith, s, large, ap length (sym (append-nil buf) ∙ e)))
  read_loop-headless buf ([] ∷ chunks) ne e s = absurd (ne.0 refl)
  read_loop-headless buf ((c ∷ cs) ∷ chunks) ne e s =
      let whole : (buf ++ c ∷ cs) ++ joined chunks ≡ raw =
        append_assoc buf (c ∷ cs) (joined chunks) ∙ e in
      let waits : complete (buf ++ c ∷ cs) ≡ none =
        complete-headless (buf ++ c ∷ cs) (joined chunks) (ap find_double_crlf whole ∙ f) in
      elim (Bool-cases (ltb max_http_request_bytes (length (buf ++ c ∷ cs)))) [
        | inl over ↦ rw (read_loop, waits, over) refl
        | inr under ↦
            rw (read_loop, waits, under)
              (read_loop-headless (buf ++ c ∷ cs) chunks ne.1 whole (ground (arith, under)))
      ]

  -- More than 64 KiB in which no empty line ends the head are refused, however they are cut into pieces
  -- that are not empty and whatever comes after them: the reading ends with the error, and not with the
  -- end of the stream.
  pub read_full_request-headless :
      (chunks : List Bytes)
      → All (λ c. c ≢ []) chunks
      → joined chunks ≡ raw
      → read_full_request (map ok chunks ++ more) ≡ err exceeds_size_limit
  unfolding read_full_request
  read_full_request-headless chunks ne e = read_loop-headless [] chunks ne e (omega arith)
