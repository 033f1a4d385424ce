-- ===== src/P2p/App/SignIn/Polled.antt =====
-- What the poll for the result of a login comes to.
use laye.Base.{
  Result, ok, ℕ, suc, zero, ◌≡◌, ◌∙◌, refl, ap, sym, ◌+◌, ◌-◌, ◌<◌, ◌≤◌, ◌∷◌, List, Bytes, not,
  none, some, filter, codes, bytes_eq, bytes_eq_refl, arith,
}
use laye.Base.Maps.{lookup, lookup-insert_self}
use laye.Me.Keys.{Ed25519}
use laye.Me.Claims.{SignedBinding, verify_binding}
use laye.Me.Wire.{Json, BindingJson}
use laye.P2p.App.{AppState, emit_err}
use laye.P2p.App.Login.{
  BrokerMessage, republish_self_bindings, add_self_binding, accept_binding, handle_login_message,
}
use laye.P2p.App.Login.Accepted.{links, republish-links}
use laye.P2p.App.SignIn.{
  elapsed, Round, handled, gave_up, answer_text, envelope, poll_rounds, poll_loop,
  poll_atproto_result,
}

module _ (e : Ed25519) (jb : Json (List BindingJson))
    (read_message : Bytes → Result Bytes BrokerMessage) where
  accepted-links :
      (now : Bytes) (b : SignedBinding) (st : AppState)
      → verify_binding e b ≡ ok tt
      → st.self_pubkey ≡ some b.claim.peer_pubkey
      → links (
          emit_err (
            handle_login_message e jb now
              (ok (record { type_ = codes "laye/identity/link"; signed = some b }))
              st))
        ≡ links (add_self_binding b b.claim.peer_pubkey st)
  unfolding handle_login_message accept_binding
  accepted-links now b st v p =
      rw same (republish-links jb now (add_self_binding b b.claim.peer_pubkey st))
    where
      same :
          handle_login_message e jb now
            (ok (record { type_ = codes "laye/identity/link"; signed = some b }))
            st
          ≡ (ok tt, republish_self_bindings jb now (add_self_binding b b.claim.peer_pubkey st))
      same = ground (
        arith,
        v,
        p,
        bytes_eq_refl b.claim.peer_pubkey,
        bytes_eq_refl (codes "laye/identity/link"),
      )

  -- Rounds that bring nothing are passed over.
  poll_loop-skip :
      (k fuel n i : ℕ) (now : ℕ → Bytes) (rounds : ℕ → Round)
      → n ≡ k + fuel
      → ((j : ℕ) → j < i + k → (rounds j).timer ≡ elapsed)
      → ((j : ℕ) → j < i + k → answer_text (rounds j).fetched ≡ none)
      → poll_loop e jb read_message n i now rounds
        ≡ poll_loop e jb read_message fuel (i + k) now rounds
  unfolding poll_loop
  poll_loop-skip zero fuel n i now rounds h t a =
      ap (λ (x : ℕ × ℕ). poll_loop e jb read_message x.0 x.1 now rounds) (ground (arith, h))
  poll_loop-skip (suc k) fuel zero i now rounds h t a = absurd (omega (arith, h))
  poll_loop-skip (suc k) fuel (suc n) i now rounds h t a =
      rw (poll_loop, t i (omega arith), a i (omega arith))
        (poll_loop-skip k fuel n (i + 1) now rounds (omega (arith, h))
            (λ j l. t j (omega (arith, l))) (λ j l. a j (omega (arith, l)))
          ∙ ap (λ x. poll_loop e jb read_message fuel x now rounds) (omega arith))

  poll_loop-hit :
      (fuel i : ℕ) (now : ℕ → Bytes) (rounds : ℕ → Round) (text : Bytes)
      → (rounds i).timer ≡ elapsed
      → answer_text (rounds i).fetched ≡ some text
      → poll_loop e jb read_message (suc fuel) i now rounds
        ≡ handled (
            emit_err
              (handle_login_message e jb (now i) (read_message (envelope text)) (rounds i).page))
  unfolding poll_loop
  poll_loop-hit fuel i now rounds text t a = rw (poll_loop, t, a) refl

  -- Where the timers run and none of the 150 rounds brings an answer, the poll gives up: it never goes on
  -- for ever.
  poll_atproto_result-gave_up :
      (now : ℕ → Bytes) (rounds : ℕ → Round)
      → ((j : ℕ) → j < poll_rounds → (rounds j).timer ≡ elapsed)
      → ((j : ℕ) → j < poll_rounds → answer_text (rounds j).fetched ≡ none)
      → poll_atproto_result e jb read_message now rounds ≡ gave_up
  unfolding poll_atproto_result poll_loop
  poll_atproto_result-gave_up now rounds t a =
      poll_loop-skip poll_rounds 0 poll_rounds 0 now rounds (omega arith) t a

  -- Where the timers of the page run and no round before round k of the 150 brings an answer with status
  -- 200 and a text, the login link of round k is handled, once and in that round: the link is the first of
  -- the page's own, in place of one of the same provider, and stands in the table under the page's key.
  -- The link verifies and names the page's key, and the text reads as it in the broker's envelope.
  pub poll_atproto_result-first :
      (now : ℕ → Bytes) (rounds : ℕ → Round) (k : ℕ) (text : Bytes) (b : SignedBinding)
      → k < poll_rounds
      → ((j : ℕ) → j ≤ k → (rounds j).timer ≡ elapsed)
      → ((j : ℕ) → j < k → answer_text (rounds j).fetched ≡ none)
      → answer_text (rounds k).fetched ≡ some text
      → read_message (envelope text)
        ≡ ok (record { type_ = codes "laye/identity/link"; signed = some b })
      → verify_binding e b ≡ ok tt
      → (rounds k).page.self_pubkey ≡ some b.claim.peer_pubkey
      → (st : AppState) × ((poll_atproto_result e jb read_message now rounds ≡ handled st)
          × ((st.self_bindings
                ≡ b
                  ∷ filter
                      (λ (c : SignedBinding). not (bytes_eq c.claim.provider b.claim.provider))
                      (rounds k).page.self_bindings)
              × (lookup b.claim.peer_pubkey st.bindings ≡ some st.self_bindings)))
  unfolding poll_atproto_result add_self_binding
  poll_atproto_result-first now rounds k text b h t a at_k reads v own =
      let skipped =
        poll_loop-skip k (suc (149 - k)) poll_rounds 0 now rounds (omega (arith, h))
          (λ j l. t j (omega (arith, l))) (λ j l. a j (omega (arith, l))) in
      let at : 0 + k ≡ k = omega arith in
      let hit = poll_loop-hit (149 - k) k now rounds text (t k (omega arith)) at_k in
      let st =
        emit_err
          (handle_login_message e jb (now k) (read_message (envelope text)) (rounds k).page) in
      let same : links st ≡ links (add_self_binding b b.claim.peer_pubkey (rounds k).page) =
        rw reads (accepted-links (now k) b (rounds k).page v own) in
      (
        st,
        (
          skipped ∙ (ap (λ x. poll_loop e jb read_message (suc (149 - k)) x now rounds) at ∙ hit),
          (
            ap (λ x. x.1.0) same,
            ap (λ x. lookup b.claim.peer_pubkey x.1.1.0) same
                ∙ (lookup-insert_self b.claim.peer_pubkey _ (rounds k).page.bindings
                    ∙ ap some (sym (ap (λ x. x.1.0) same))),
          ),
        ),
      )
