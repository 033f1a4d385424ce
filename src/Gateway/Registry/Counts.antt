-- ===== src/Gateway/Registry/Counts.antt =====
-- How the number of live subscribers of a topic changes.
use laye.Base.{
  ℕ, ◌+◌, ◌<◌, ◌≡◌, ◌∙◌, refl, inl, inr, ◌∷◌, [], ◌++◌, List, none, some, true, false, Option-cases,
  Bytes, length, set, arith, ◌==◌, zero, suc, if◌then◌else◌, is_some, bytes_eq, bytes_eq_iff,
}
use laye.Gateway.Sink
use laye.Gateway.Sink.{BroadcastSink}
use laye.Gateway.Registry.{
  Heap, TopicRegistry, upgrade, subscribe, retain, broadcast, drop_sink, live_count,
  subscriber_count,
}
use laye.Gateway.Registry.Fanout.{
  among, Distinct, sinks, IsValid, sinks-broadcast, heap-broadcast, upgrade-set, upgrade-lt,
  retain_live, retain_dead,
}
use laye.Gateway.Registry.Invariant.{sinks-subscribe}

subscriber_count-sinks :
    (k : Bytes) (r : TopicRegistry) → subscriber_count k r ≡ live_count r.heap (sinks k r)
unfolding subscriber_count
subscriber_count-sinks k r = ground arith

live-lt : (h : Heap) (i : ℕ) → is_some (upgrade h i) ≡ true → i < length h
live-lt h i e = elim (Option-cases (upgrade h i)) [
  | inl n ↦ ground arith
  | inr (s, q) ↦ upgrade-lt h i q
]

live_count-nil : (h : Heap) → live_count h [] ≡ 0
unfolding live_count
live_count-nil h = refl

live_count-cons :
    (h : Heap) (i : ℕ) (is : List ℕ)
    → live_count h (i ∷ is) ≡ live_count h is + (if is_some (upgrade h i) then 1 else 0)
unfolding live_count
live_count-cons h i is = ground arith

-- Delivering a frame neither makes nor frees a sink.
retain-is_some :
    (bytes : Bytes) (is : List ℕ) (h : Heap) (j : ℕ)
    → is_some (upgrade (retain bytes is h).1 j) ≡ is_some (upgrade h j)
retain-is_some bytes [] h j = unfold retain in refl
retain-is_some bytes (i ∷ is) h j = elim (Option-cases (upgrade h i)) [
  | inl e ↦ rw (retain_dead bytes i is h e) (retain-is_some bytes is h j)
  | inr (s, e) ↦
      let o = some (Sink.push bytes s) in
      rw (retain_live bytes i is h s e) (
        retain-is_some bytes is (set h i o) j
        ∙ ground (arith, upgrade-set h i j o (upgrade-lt h i e)))
]

live_count-retain :
    (bytes : Bytes) (is js : List ℕ) (h : Heap)
    → live_count (retain bytes is h).1 js ≡ live_count h js
live_count-retain bytes is [] h = unfold live_count in refl
live_count-retain bytes is (j ∷ js) h =
    simp live_count-cons
      (ground (arith, live_count-retain bytes is js h, retain-is_some bytes is h j))

live_count-set :
    (h : Heap) (i : ℕ) (s : BroadcastSink) (js : List ℕ)
    → is_some (upgrade h i) ≡ true
    → live_count (set h i (some s)) js ≡ live_count h js
live_count-set h i s [] e = unfold live_count in refl
live_count-set h i s (j ∷ js) e =
    simp live_count-cons
      (ground (arith, live_count-set h i s js e, upgrade-set h i j (some s), live-lt h i))

-- What `retain` takes off the list is dead.
live_count-kept :
    (bytes : Bytes) (is : List ℕ) (h : Heap) → live_count h (retain bytes is h).0 ≡ live_count h is
live_count-kept bytes [] h = unfold retain in refl
live_count-kept bytes (i ∷ is) h = elim (Option-cases (upgrade h i)) [
  | inl e ↦
      rw (retain_dead bytes i is h e)
        (ground (arith, live_count-kept bytes is h, live_count-cons h i is))
  | inr (s, e) ↦
      let s' = Sink.push bytes s in
      let h' = set h i (some s') in
      rw (retain_live bytes i is h s e) (
        ground (
          arith,
          live_count-kept bytes is h',
          live_count-cons h i is,
          live_count-cons h i (retain bytes is h').0,
          live_count-set h i s' (retain bytes is h').0,
          live_count-set h i s' is,
        ))
]

-- A broadcast changes the subscriber count of no topic, although it takes dead sinks off its own.
subscriber_count-broadcast :
    (topic bytes k : Bytes) (r : TopicRegistry)
    → subscriber_count k (broadcast topic bytes r) ≡ subscriber_count k r
subscriber_count-broadcast topic bytes k r =
    rw (subscriber_count-sinks, subscriber_count-sinks, heap-broadcast topic bytes r)
      (ground (
        arith,
        sinks-broadcast topic bytes k r,
        bytes_eq_iff topic k,
        live_count-retain bytes (sinks topic r) (sinks k (broadcast topic bytes r)) r.heap,
        live_count-kept bytes (sinks topic r) r.heap,
      ))

upgrade-append :
    (h : Heap) (i : ℕ) (s : BroadcastSink)
    → upgrade (h ++ some s ∷ []) i ≡ (if length h == i then some s else upgrade h i)
unfolding upgrade
upgrade-append [] zero s = ground arith
upgrade-append [] (suc i) s = ground arith
upgrade-append (x ∷ h) zero s = ground arith
upgrade-append (x ∷ h) (suc i) s = ground (arith, upgrade-append h i s)

live_count-append :
    (h : Heap) (is js : List ℕ) → live_count h (is ++ js) ≡ live_count h is + live_count h js
unfolding live_count
live_count-append h [] js = omega arith
live_count-append h (i ∷ is) js = ground (arith, live_count-append h is js)

-- A heap with one more sink counts the old addresses as before.
live_count_grown :
    (h : Heap) (s : BroadcastSink) (is : List ℕ)
    → among (length h) is ≡ false
    → live_count (h ++ some s ∷ []) is ≡ live_count h is
live_count_grown h s [] a = unfold live_count in refl
live_count_grown h s (i ∷ is) a =
    simp live_count-cons (ground (arith, live_count_grown h s is, upgrade-append h i s))

heap-subscribe :
    (topic : Bytes) (cap : ℕ) (r : TopicRegistry)
    → (subscribe topic cap r).1.heap ≡ r.heap ++ some (Sink.new cap) ∷ []
unfolding subscribe
heap-subscribe topic cap r = refl

-- A subscription adds one subscriber to its own topic, and none to any other.
subscriber_count-subscribe :
    (topic k : Bytes) (cap : ℕ) (r : TopicRegistry)
    → IsValid r
    → subscriber_count k (subscribe topic cap r).1
      ≡ subscriber_count k r + (if bytes_eq topic k then 1 else 0)
subscriber_count-subscribe topic k cap r v =
    rw (subscriber_count-sinks, subscriber_count-sinks, heap-subscribe topic cap r)
      (ground (
        arith,
        sinks-subscribe topic k cap r,
        bytes_eq_iff topic k,
        v.made k (length r.heap),
        live_count_grown r.heap (Sink.new cap) (sinks k r),
        live_count-append (r.heap ++ some (Sink.new cap) ∷ []) (sinks k r) (length r.heap ∷ []),
        live_count-cons (r.heap ++ some (Sink.new cap) ∷ []) (length r.heap) [],
        upgrade-append r.heap (length r.heap) (Sink.new cap),
        live_count-nil (r.heap ++ some (Sink.new cap) ∷ []),
      ))

live_count-drop :
    (h : Heap) (i : ℕ) (js : List ℕ)
    → is_some (upgrade h i) ≡ true
    → Distinct js
    → live_count (set h i none) js + (if among i js then 1 else 0) ≡ live_count h js
live_count-drop h i [] e d = unfold live_count in refl
live_count-drop h i (j ∷ js) e d =
    simp live_count-cons
      (ground (arith, live_count-drop h i js e d.1, upgrade-set h i j none, live-lt h i))

-- A live subscriber that drops its sink stops counting at once, on its own topic and no other.
subscriber_count-drop_sink :
    (i : ℕ) (k : Bytes) (r : TopicRegistry)
    → IsValid r
    → is_some (upgrade r.heap i) ≡ true
    → subscriber_count k (drop_sink i r) + (if among i (sinks k r) then 1 else 0)
      ≡ subscriber_count k r
unfolding drop_sink
subscriber_count-drop_sink i k r v e =
    rw (subscriber_count-sinks, subscriber_count-sinks)
      (live_count-drop r.heap i (sinks k r) e (v.distinct k))
