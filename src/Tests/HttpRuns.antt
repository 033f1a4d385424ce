-- ===== src/Tests/HttpRuns.antt =====
-- The theorems on requests at concrete inputs.
use laye.Base.{
  ℕ, zero, suc, ap, append-nil, ◌≡◌, refl, ◌∷◌, [], ◌++◌, Bytes, none, length, map, ok, err, arith,
  find_sub, starts_with,
}
use laye.Relaye.Http.{find_double_crlf, exceeds_size_limit, read_full_request}
use laye.Relaye.Http.Limits.{read_full_request-headless}

-- A head that never ends.
unfoldable fill : ℕ → Bytes
fill zero = []
fill (suc n) = b'x' ∷ fill n

length-fill : (n : ℕ) → length (fill n) ≡ n
unfolding fill
length-fill zero = refl
length-fill (suc n) = omega (arith, length-fill n)

fill_headless : (n : ℕ) → find_double_crlf (fill n) ≡ none
unfolding fill find_double_crlf find_sub starts_with
fill_headless zero = refl
fill_headless (suc n) = ground (arith, fill_headless n)

read_full_request-headless_example :
    read_full_request (map ok (fill 70000 ∷ []) ++ []) ≡ err exceeds_size_limit
read_full_request-headless_example =
    read_full_request-headless (fill 70000) [] (fill_headless 70000)
      (omega (arith, length-fill 70000)) (fill 70000 ∷ [])
      ((λ e. omega (arith, length-fill 70000, ap length e)), tt) (append-nil (fill 70000))
