-- ===== src/Relaye/Dpop/Retry.antt =====
-- How often a form is posted.
use laye.Base.{
  ◌≡◌, ◌∙◌, ap, sym, subst, ◌⊎◌, ◌++◌, List, Bytes, false, Option, none, some, ok, codes, find_sub,
  arith, Option-cases, Result-cases, inl, inr,
}
use laye.Base.Search.{find_sub_sound, find_sub_complete}
use laye.Relaye.Resolve.{is_success}
use laye.Relaye.Dpop.{
  DpopResponse, Poster, nonce_challenge, post_round, post_loop, post_form_with_dpop,
}

-- The answer asks for another attempt, under this nonce.
abbrev pub IsChallenge : DpopResponse → Bytes → Type 0
IsChallenge a n =
    (is_success a.status ≡ false)
    × (((pre : Bytes) × ((post : Bytes) × (a.body ≡ pre ++ (codes "use_dpop_nonce" ++ post))))
        × (a.new_nonce ≡ some n))

nonce_challenge-some :
    (a : DpopResponse) {n : Bytes} → nonce_challenge 0 a ≡ some n → IsChallenge a n
unfolding nonce_challenge
nonce_challenge-some a {n} h = elim (Option-cases (find_sub (codes "use_dpop_nonce") a.body)) [
  | inl e ↦ absurd (ground (arith, h, e))
  | inr (k, e) ↦ (
    ground (arith, h, e),
    (find_sub_sound (codes "use_dpop_nonce") a.body e, ground (arith, h, e)),
  )
]

nonce_challenge-none :
    (a : DpopResponse) → nonce_challenge 0 a ≡ none → (n : Bytes) → ¬ (IsChallenge a n)
unfolding nonce_challenge
nonce_challenge-none a h n (failed, ((pre, (post, body)), fresh)) =
    elim (Option-cases (find_sub (codes "use_dpop_nonce") a.body)) [
      | inl e ↦
          find_sub_complete _ _ pre post (ap (find_sub (codes "use_dpop_nonce")) (sym body) ∙ e)
      | inr (k, e) ↦ ground (arith, h, e, failed, fresh)
    ]

module _ {World Key : Type 0} (p : Poster World Key) where
  -- An attempt that is not the first is final.
  second :
      (url : Bytes) (key : Key) (form : World → List (Bytes × Bytes) × World) (n : Bytes)
      (w : World)
      → post_loop p 1 1 url key form (some n) w ≡ post_round p url key form (some n) w
  unfolding post_loop nonce_challenge
  second url key form n w = elim (Result-cases (post_round p url key form (some n) w).0) [
    | inl (e, h) ↦
        rw (post_loop, h) (ap (λ x. (x, (post_round p url key form (some n) w).1)) (sym h))
    | inr (a, h) ↦
        rw (post_loop, h) (ap (λ x. (x, (post_round p url key form (some n) w).1)) (sym h))
  ]

  -- The first attempt is final or a nonce challenge. What it brings stands unless it is a challenge: an
  -- answer without success whose body holds the text `use_dpop_nonce` and that brings a fresh nonce.
  -- After a challenge there is exactly one more attempt, under the fresh nonce, and what that brings
  -- stands, even where it is a challenge again.
  pub post_form_with_dpop_lem :
      (url : Bytes) (key : Key) (nonce : Option Bytes) (form : World → List (Bytes × Bytes) × World)
      (w : World)
      → ((¬ (
            (a : DpopResponse) × ((n : Bytes) × (((post_round p url key form nonce w).0 ≡ ok a)
                × IsChallenge a n))))
          × (post_form_with_dpop p url key nonce form w ≡ post_round p url key form nonce w))
        ⊎ ((a : DpopResponse) × ((n : Bytes) × (((post_round p url key form nonce w).0 ≡ ok a)
                × (IsChallenge a n
                    × (post_form_with_dpop p url key nonce form w
                        ≡ post_round p url key form
                            (some n)
                            (post_round p url key form nonce w).1)))))
  unfolding post_form_with_dpop post_loop
  post_form_with_dpop_lem url key nonce form w =
      let (r, w') = post_round p url key form nonce w in
      elim (Result-cases (post_round p url key form nonce w).0) [
        | inl (e, h) ↦ inl (
          λ (a, (n, (g, c))). absurd (ground (arith, g, h)),
          rw (post_form_with_dpop, post_loop, h) (ap (λ x. (x, w')) (sym h)),
        )
        | inr (a, h) ↦ elim (Option-cases (nonce_challenge 0 a)) [
          | inl c ↦ inl (
            λ (b, (n, (g, v))).
                let same : b ≡ a = ground (arith, g, h) in
                nonce_challenge-none a c n (subst (λ x. IsChallenge x n) same v),
            rw (post_form_with_dpop, post_loop, h, c) (ap (λ x. (x, w')) (sym h)),
          )
          | inr (n, c) ↦ inr (
            a,
            (
              n,
              (
                h,
                (
                  nonce_challenge-some a c,
                  rw (post_form_with_dpop, post_loop, h, c) (second url key form n w'),
                ),
              ),
            ),
          )
        ]
      ]
