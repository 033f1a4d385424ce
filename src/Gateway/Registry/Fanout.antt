-- ===== src/Gateway/Registry/Fanout.antt =====
-- Who receives a broadcast.
use laye.Base.{
  ℕ, zero, suc, ◌<◌, ◌≡◌, ◌≢◌, ◌∙◌, refl, inl, inr, ◌∷◌, [], List, Option, none, some, true, false,
  Bool, Option-cases, Bytes, length, set, arith, ◌==◌, if◌then◌else◌, length-set, is_some, bytes_eq,
  bytes_eq_iff,
}
use laye.Base.Maps.{lookup, lookup_or, lookup-insert}
use laye.Gateway.Sink.{BroadcastSink}
use laye.Gateway.Sink
use laye.Gateway.Registry.{Heap, TopicRegistry, upgrade, retain, broadcast}

-- Whether an address is among the sinks of a list.
abbrev pub among : ℕ → List ℕ → Bool
among i [] = false
among i (j ∷ js) = if j == i then true else among i js

-- What a sink becomes, if it is live and gets the frame.
abbrev pub deliver : Bool → Bytes → Option BroadcastSink → Option BroadcastSink
deliver false bytes o = o
deliver true bytes none = none
deliver true bytes (some s) = some (Sink.push bytes s)

abbrev pub Distinct : List ℕ → Type 0
Distinct [] = Unit {0}
Distinct (i ∷ is) = (among i is ≡ false) × Distinct is

pub upgrade-set :
    (h : Heap) (i j : ℕ) (o : Option BroadcastSink)
    → i < length h
    → upgrade (set h i o) j ≡ (if i == j then o else upgrade h j)
unfolding upgrade
upgrade-set [] i j o l = elim l [ ]
upgrade-set (x ∷ h) zero zero o l = ground arith
upgrade-set (x ∷ h) zero (suc j) o l = ground arith
upgrade-set (x ∷ h) (suc i) zero o l = ground arith
upgrade-set (x ∷ h) (suc i) (suc j) o l = ground (arith, upgrade-set h i j o (omega arith))

pub upgrade-set-none : (h : Heap) (i : ℕ) → upgrade (set h i none) i ≡ none
unfolding upgrade
upgrade-set-none [] i = refl
upgrade-set-none (x ∷ h) zero = refl
upgrade-set-none (x ∷ h) (suc i) = upgrade-set-none h i

pub upgrade-lt : (h : Heap) (i : ℕ) {s : BroadcastSink} → upgrade h i ≡ some s → i < length h
unfolding upgrade
upgrade-lt [] i e = cc
upgrade-lt (x ∷ h) zero e = omega arith
upgrade-lt (x ∷ h) (suc i) e = omega (arith, upgrade-lt h i e)

-- One round of `retain` at a live sink, and at a dead one.
pub retain_live :
    (bytes : Bytes) (i : ℕ) (is : List ℕ) (h : Heap) (s : BroadcastSink)
    → upgrade h i ≡ some s
    → retain bytes (i ∷ is) h ≡ (
      i ∷ (retain bytes is (set h i (some (Sink.push bytes s)))).0,
      (retain bytes is (set h i (some (Sink.push bytes s)))).1,
    )
unfolding retain
retain_live bytes i is h s e = rw (e, retain)

pub retain_dead :
    (bytes : Bytes) (i : ℕ) (is : List ℕ) (h : Heap)
    → upgrade h i ≡ none
    → retain bytes (i ∷ is) h ≡ retain bytes is h
unfolding retain
retain_dead bytes i is h e = rw (e, retain)

deliver-none : (b : Bool) (bytes : Bytes) → deliver b bytes none ≡ none
deliver-none true bytes = refl
deliver-none false bytes = refl

pub retain-upgrade :
    (bytes : Bytes) (is : List ℕ) (h : Heap) (j : ℕ)
    → Distinct is
    → upgrade (retain bytes is h).1 j ≡ deliver (among j is) bytes (upgrade h j)
retain-upgrade bytes [] h j d = unfold retain in refl
retain-upgrade bytes (i ∷ is) h j d = elim (Option-cases (upgrade h i)) [
  | inl e ↦
      rw (retain_dead bytes i is h e, retain-upgrade bytes is h j d.1)
        (ground (arith, deliver-none (among j is) bytes))
  | inr (s, e) ↦
      let h' = set h i (some (Sink.push bytes s)) in
      rw (retain_live bytes i is h s e, retain-upgrade bytes is h' j d.1)
        (ground (arith, upgrade-set h i j (some (Sink.push bytes s)) (upgrade-lt h i e)))
]

-- The sinks that stay registered are those that are still live.
pub retain-among :
    (bytes : Bytes) (is : List ℕ) (h : Heap) (j : ℕ)
    → among j (retain bytes is h).0 ≡ (if is_some (upgrade h j) then among j is else false)
retain-among bytes [] h j = unfold retain in ground arith
retain-among bytes (i ∷ is) h j = elim (Option-cases (upgrade h i)) [
  | inl e ↦ rw (retain_dead bytes i is h e, retain-among bytes is h j) (ground arith)
  | inr (s, e) ↦
      let h' = set h i (some (Sink.push bytes s)) in
      rw (retain_live bytes i is h s e) (
        ground (
          arith,
          retain-among bytes is h' j,
          upgrade-set h i j (some (Sink.push bytes s)) (upgrade-lt h i e),
        ))
]

pub retain-Distinct :
    (bytes : Bytes) (is : List ℕ) (h : Heap) → Distinct is → Distinct (retain bytes is h).0
retain-Distinct bytes [] h d = unfold retain in tt
retain-Distinct bytes (i ∷ is) h d = elim (Option-cases (upgrade h i)) [
  | inl e ↦ rw (retain_dead bytes i is h e) (retain-Distinct bytes is h d.1)
  | inr (s, e) ↦
      let h' = set h i (some (Sink.push bytes s)) in
      rw (retain_live bytes i is h s e)
        (ground (arith, retain-among bytes is h' i, d.0), retain-Distinct bytes is h' d.1)
]

pub length-retain :
    (bytes : Bytes) (is : List ℕ) (h : Heap) → length (retain bytes is h).1 ≡ length h
length-retain bytes [] h = unfold retain in refl
length-retain bytes (i ∷ is) h = elim (Option-cases (upgrade h i)) [
  | inl e ↦ rw (retain_dead bytes i is h e) (length-retain bytes is h)
  | inr (s, e) ↦
      let o = some (Sink.push bytes s) in
      rw (retain_live bytes i is h s e) (length-retain bytes is (set h i o) ∙ length-set h i o)
]

-- The sinks of a topic.
abbrev pub sinks : Bytes → TopicRegistry → List ℕ
sinks topic r = lookup_or [] topic r.topics

-- No sink is registered twice, each is registered under one topic, and each has been made.
pub record IsValid (r : TopicRegistry) : Type 0 where
  pub distinct : (k : Bytes) → Distinct (sinks k r)
  pub one_topic :
      (j k : Bytes) (i : ℕ) → among i (sinks j r) ≡ true → among i (sinks k r) ≡ true → j ≡ k
  pub made : (k : Bytes) (i : ℕ) → among i (sinks k r) ≡ true → i < length r.heap

pub sinks-broadcast :
    (topic bytes k : Bytes) (r : TopicRegistry)
    → sinks k (broadcast topic bytes r)
      ≡ (if bytes_eq topic k then (retain bytes (sinks topic r) r.heap).0 else sinks k r)
unfolding broadcast
sinks-broadcast topic bytes k r = elim (Option-cases (lookup topic r.topics)) [
  | inl e ↦ rw (e, broadcast) (ground (arith, bytes_eq_iff topic k))
  | inr (is, e) ↦
      rw (e, broadcast) (ground (arith, lookup-insert topic k (retain bytes is r.heap).0 r.topics))
]

pub heap-broadcast :
    (topic bytes : Bytes) (r : TopicRegistry)
    → (broadcast topic bytes r).heap ≡ (retain bytes (sinks topic r) r.heap).1
unfolding broadcast
heap-broadcast topic bytes r = ground arith

-- A broadcast puts the frame once into the outbox of each live sink of the topic, and changes no
-- other sink.
pub upgrade-broadcast :
    (topic bytes : Bytes) (r : TopicRegistry) (i : ℕ)
    → IsValid r
    → upgrade (broadcast topic bytes r).heap i
      ≡ deliver (among i (sinks topic r)) bytes (upgrade r.heap i)
upgrade-broadcast topic bytes r i v =
    rw (heap-broadcast topic bytes r)
      (retain-upgrade bytes (sinks topic r) r.heap i (v.distinct topic))

-- A frame broadcast on one topic leaves the outbox of every subscriber of another topic alone.
broadcast_isolated :
    (topic other bytes : Bytes) (r : TopicRegistry) (i : ℕ)
    → IsValid r
    → topic ≢ other
    → among i (sinks other r) ≡ true
    → upgrade (broadcast topic bytes r).heap i ≡ upgrade r.heap i
broadcast_isolated topic other bytes r i v ne h =
    ground (arith, upgrade-broadcast topic bytes r i v, v.one_topic topic other i)
