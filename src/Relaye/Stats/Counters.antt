-- ===== src/Relaye/Stats/Counters.antt =====
-- What the counters and the histories of the relay say of what happened.
use laye.Base.{ℕ, ◌≡◌, refl, ap, ◌≤◌, ◌-◌, ◌∷◌, [], List, length, arith, length-append, tail}
use laye.Relaye.Stats.{
  RelayeStats, Relay, connection_established, connection_closed, gossip, other, Happening, event,
  tick, happen, happen_all, handle_event, metrics_tick, push_sample, push_bounded, saturating_succ,
  stats_history_len,
}

length-tail {ℓ} : {A : Type ℓ} (q : List A) → length (tail q) ≡ length q - 1
length-tail [] = refl
length-tail (x ∷ q) = omega arith

length-push_bounded {ℓ} :
    {A : Type ℓ} (q : List A) (x : A)
    → length q ≤ stats_history_len
    → length (push_bounded q x) ≤ stats_history_len
unfolding push_bounded
length-push_bounded q x h =
    ground (arith, length-append q (x ∷ []), length-append (tail q) (x ∷ []), length-tail q)

length-push_bounded_same {ℓ κ} :
    {A : Type ℓ} {B : Type κ} (q : List A) (p : List B) (x : A) (y : B)
    → length q ≡ length p
    → length (push_bounded q x) ≡ length (push_bounded p y)
unfolding push_bounded
length-push_bounded_same q p x y h = ground (
  arith,
  length-append q (x ∷ []),
  length-append (tail q) (x ∷ []),
  length-tail q,
  length-append p (y ∷ []),
  length-append (tail p) (y ∷ []),
  length-tail p,
)

-- The two counters agree, and neither history is over its length.
pub record IsConsistent (s : RelayeStats) : Type 0 where
  pub peers_are_conns : s.peer_count ≡ s.conn_count
  pub conns_accepted : s.conn_count ≤ s.total_conns_accepted
  pub same_length : length s.peer_history ≡ length s.msg_rate_history
  pub peers_bounded : length s.peer_history ≤ stats_history_len

happen-IsConsistent :
    (interval : ℕ) (h : Happening) (last : ℕ) (r : Relay)
    → IsConsistent r.stats
    → IsConsistent (happen interval h (last, r)).1.stats
unfolding happen handle_event metrics_tick push_sample
happen-IsConsistent interval (event connection_established) last r v = record {
  peers_are_conns = ap saturating_succ v.peers_are_conns;
  conns_accepted = ground (arith, v.conns_accepted);
  same_length = v.same_length;
  peers_bounded = v.peers_bounded;
}
happen-IsConsistent interval (event connection_closed) last r v = record {
  peers_are_conns = ap (λ n. n - 1) v.peers_are_conns;
  conns_accepted = omega (arith, v.conns_accepted);
  same_length = v.same_length;
  peers_bounded = v.peers_bounded;
}
happen-IsConsistent interval (event (gossip topic bytes)) last r v = record {
  peers_are_conns = v.peers_are_conns;
  conns_accepted = v.conns_accepted;
  same_length = v.same_length;
  peers_bounded = v.peers_bounded;
}
happen-IsConsistent interval (event other) last r v = v
happen-IsConsistent interval tick last r v = record {
  peers_are_conns = v.peers_are_conns;
  conns_accepted = v.conns_accepted;
  same_length =
      length-push_bounded_same r.stats.peer_history r.stats.msg_rate_history r.stats.peer_count _
        v.same_length;
  peers_bounded = length-push_bounded r.stats.peer_history r.stats.peer_count v.peers_bounded;
}

-- Whatever happens to a relay with consistent statistics, the count of peers equals the count of
-- connections, which is at most the count of accepted ones, and the two histories have equally many
-- samples, 60 at most.
pub happen_all-IsConsistent :
    (interval : ℕ) (hs : List Happening) (last : ℕ) (r : Relay)
    → IsConsistent r.stats
    → IsConsistent (happen_all interval hs (last, r)).1.stats
unfolding happen_all
happen_all-IsConsistent interval [] last r v = v
happen_all-IsConsistent interval (h ∷ hs) last r v =
    let (last', r') = happen interval h (last, r) in
    happen_all-IsConsistent interval hs last' r' (happen-IsConsistent interval h last r v)
