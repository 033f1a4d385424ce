-- ===== src/Gateway/Sink/Freshest.antt =====
-- A slow reader gets the freshest frames, in order.
use laye.Base.{
  ℕ, ◌<◌, ◌≤◌, ◌≡◌, ◌∙◌, refl, sym, zero, suc, ◌∷◌, [], ◌++◌, List, none, some, Bytes, length,
  arith, append_assoc, append-nil,
}
use laye.Base.Recent.{
  keep_last, keep_last-append, keep_last_all, length-keep_last-le, bounded_push_lem,
}
use laye.Gateway.Sink.{BroadcastSink, new, push, poll_next}

-- A sink never holds more than `cap` frames.
pub record IsBounded (s : BroadcastSink) : Type 0 where
  pub positive : 0 < s.cap
  pub bounded : length s.queue ≤ s.cap

pub push-keep_last :
    (b : Bytes) (s : BroadcastSink)
    → IsBounded s
    → (push b s).queue ≡ keep_last s.cap (s.queue ++ b ∷ [])
unfolding push
push-keep_last b s v = bounded_push_lem s.cap b s.queue v.positive v.bounded

cap-push : (b : Bytes) (s : BroadcastSink) → (push b s).cap ≡ s.cap
unfolding push
cap-push b s = refl

pub push-IsBounded : (b : Bytes) (s : BroadcastSink) → IsBounded s → IsBounded (push b s)
push-IsBounded b s v = record {
  positive = rw (cap-push b s) v.positive;
  bounded = rw (cap-push b s, push-keep_last b s v) (length-keep_last-le s.cap (s.queue ++ b ∷ []));
}

-- A run of broadcasts to one sink.
abbrev pub push_all : List Bytes → BroadcastSink → BroadcastSink
push_all [] s = s
push_all (b ∷ bs) s = push_all bs (push b s)

-- Whatever is pushed, a bounded sink then holds the last `cap` frames of its old queue followed by
-- the new frames, in order: the oldest are the ones that are lost.
pub push_all-keep_last :
    (bs : List Bytes) (s : BroadcastSink)
    → IsBounded s
    → (push_all bs s).queue ≡ keep_last s.cap (s.queue ++ bs)
push_all-keep_last [] s v = rw append-nil (sym (keep_last_all s.cap s.queue v.bounded))
push_all-keep_last (b ∷ bs) s v =
    push_all-keep_last bs (push b s) (push-IsBounded b s v)
    ∙ rw (cap-push b s, push-keep_last b s v, keep_last-append, append_assoc) refl

-- The frames that `n` calls of `next` return, up to the first that waits.
unfoldable pub reads : ℕ → BroadcastSink → List Bytes
reads zero s = []
reads (suc n) s = elim (poll_next s) [ none ↦ [] | some (b, s') ↦ b ∷ reads n s' ]

pub reads-queue :
    (q : List Bytes) (n : ℕ) (s : BroadcastSink) → s.queue ≡ q → length q ≤ n → reads n s ≡ q
unfolding reads poll_next
reads-queue [] zero s e h = refl
reads-queue [] (suc n) s e h = ground arith
reads-queue (b ∷ q) zero s e h = elim h [ ]
reads-queue (b ∷ q) (suc n) s e h =
    ground (arith, reads-queue q n (record s { queue = q }) refl (omega arith))

new-IsBounded : (cap : ℕ) → 0 < cap → IsBounded (new cap)
unfolding new
new-IsBounded cap h = record { positive = h; bounded = omega arith }

-- A reader that comes only after the frames `bs` were pushed to a fresh outbox of `cap` frames
-- reads the last `cap` of them, oldest first, and nothing else.
pub reads-push_all :
    (cap : ℕ) (bs : List Bytes) (n : ℕ)
    → 0 < cap
    → cap ≤ n
    → reads n (push_all bs (new cap)) ≡ keep_last cap bs
reads-push_all cap bs n h k =
    reads-queue (keep_last cap bs) n (push_all bs (new cap))
      (unfold new in push_all-keep_last bs (new cap) (new-IsBounded cap h))
      (omega (arith, length-keep_last-le cap bs))
