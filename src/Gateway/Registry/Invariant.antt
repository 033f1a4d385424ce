-- ===== src/Gateway/Registry/Invariant.antt =====
-- Every history of subscriptions, broadcasts and drops keeps the registry well formed.
use laye.Base.{
  ℕ, ◌+◌, ◌≡◌, refl, ap, ◌∷◌, [], ◌++◌, List, none, some, true, false, Bytes, length, arith, ◌==◌,
  if◌then◌else◌, length-set, length-append, bytes_eq, bytes_eq_iff,
}
use laye.Base.Maps.{lookup, lookup-insert}
use laye.Gateway.Sink
use laye.Gateway.Registry.{TopicRegistry, subscribe, broadcast, drop_sink, empty}
use laye.Gateway.Registry.Fanout.{
  among, Distinct, sinks, IsValid, sinks-broadcast, heap-broadcast, retain-among, retain-Distinct,
  length-retain,
}

among-append :
    (i : ℕ) (is js : List ℕ) → among i (is ++ js) ≡ (if among i is then true else among i js)
among-append i [] js = refl
among-append i (k ∷ is) js = ground (arith, among-append i is js)

Distinct-append : (is : List ℕ) (i : ℕ) → Distinct is → among i is ≡ false → Distinct (is ++ i ∷ [])
Distinct-append [] i d h = (refl, tt)
Distinct-append (k ∷ is) i d h =
    (ground (arith, among-append k is (i ∷ [])), Distinct-append is i d.1 (ground arith))

pub sinks-subscribe :
    (topic k : Bytes) (cap : ℕ) (r : TopicRegistry)
    → sinks k (subscribe topic cap r).1
      ≡ (if bytes_eq topic k then sinks topic r ++ length r.heap ∷ [] else sinks k r)
unfolding subscribe
sinks-subscribe topic k cap r =
    ground (arith, lookup-insert topic k (sinks topic r ++ length r.heap ∷ []) r.topics)

length-subscribe :
    (topic : Bytes) (cap : ℕ) (r : TopicRegistry)
    → length (subscribe topic cap r).1.heap ≡ length r.heap + 1
unfolding subscribe
length-subscribe topic cap r = omega (arith, length-append r.heap (some (Sink.new cap) ∷ []))

-- The new address was registered nowhere.
fresh : (k : Bytes) (r : TopicRegistry) → IsValid r → among (length r.heap) (sinks k r) ≡ false
fresh k r v = ground (arith, v.made k (length r.heap))

among-subscribe :
    (topic k : Bytes) (cap i : ℕ) (r : TopicRegistry)
    → among i (sinks k (subscribe topic cap r).1) ≡ (
        if among i (sinks k r)
        then true
        else (if bytes_eq topic k then length r.heap == i else false))
among-subscribe topic k cap i r = ground (
  arith,
  sinks-subscribe topic k cap r,
  bytes_eq_iff topic k,
  among-append i (sinks topic r) (length r.heap ∷ []),
)

pub subscribe-IsValid :
    (topic : Bytes) (cap : ℕ) (r : TopicRegistry) → IsValid r → IsValid (subscribe topic cap r).1
subscribe-IsValid topic cap r v = record {
  distinct = λ k. ground (
    arith,
    sinks-subscribe topic k cap r,
    v.distinct k,
    Distinct-append (sinks topic r) (length r.heap) (v.distinct topic) (fresh topic r v),
  );
  one_topic = λ j k i p q. ground (
    arith,
    among-subscribe topic j cap i r,
    among-subscribe topic k cap i r,
    v.one_topic j k i,
    fresh j r v,
    fresh k r v,
    bytes_eq_iff topic j,
    bytes_eq_iff topic k,
  );
  made = λ k i p.
      ground (arith, among-subscribe topic k cap i r, length-subscribe topic cap r, v.made k i);
}

-- A broadcast only takes dead sinks off the topic.
among-broadcast :
    (topic bytes k : Bytes) (i : ℕ) (r : TopicRegistry)
    → among i (sinks k (broadcast topic bytes r)) ≡ true
    → among i (sinks k r) ≡ true
among-broadcast topic bytes k i r h = ground (
  arith,
  sinks-broadcast topic bytes k r,
  bytes_eq_iff topic k,
  retain-among bytes (sinks topic r) r.heap i,
)

pub broadcast-IsValid :
    (topic bytes : Bytes) (r : TopicRegistry) → IsValid r → IsValid (broadcast topic bytes r)
broadcast-IsValid topic bytes r v = record {
  distinct = λ k. ground (
    arith,
    sinks-broadcast topic bytes k r,
    v.distinct k,
    retain-Distinct bytes (sinks topic r) r.heap (v.distinct topic),
  );
  one_topic = λ j k i p q.
      v.one_topic j k i (among-broadcast topic bytes j i r p) (among-broadcast topic bytes k i r q);
  made = λ k i p. omega (
    arith,
    v.made k i (among-broadcast topic bytes k i r p),
    ap length (heap-broadcast topic bytes r),
    length-retain bytes (sinks topic r) r.heap,
  );
}

pub drop_sink-IsValid : (i : ℕ) (r : TopicRegistry) → IsValid r → IsValid (drop_sink i r)
unfolding drop_sink
drop_sink-IsValid i r v = record {
  distinct = v.distinct;
  one_topic = v.one_topic;
  made = λ k j p. omega (arith, v.made k j p, length-set r.heap i none);
}

-- What the event loop and the accept tasks do to the shared registry, in the order of its lock.
pub data Step : Type 0 where
  subscribes : Bytes → ℕ → Step
  broadcasts : Bytes → Bytes → Step
  drops : ℕ → Step

unfoldable pub step : TopicRegistry → Step → TopicRegistry
step r (subscribes topic cap) = (subscribe topic cap r).1
step r (broadcasts topic bytes) = broadcast topic bytes r
step r (drops i) = drop_sink i r

unfoldable pub run : TopicRegistry → List Step → TopicRegistry
run r [] = r
run r (s ∷ ss) = run (step r s) ss

step-IsValid : (r : TopicRegistry) (s : Step) → IsValid r → IsValid (step r s)
unfolding step
step-IsValid r (subscribes topic cap) v = subscribe-IsValid topic cap r v
step-IsValid r (broadcasts topic bytes) v = broadcast-IsValid topic bytes r v
step-IsValid r (drops i) v = drop_sink-IsValid i r v

run-IsValid : (r : TopicRegistry) (ss : List Step) → IsValid r → IsValid (run r ss)
unfolding run
run-IsValid r [] v = v
run-IsValid r (s ∷ ss) v = run-IsValid (step r s) ss (step-IsValid r s v)

empty-IsValid : IsValid empty
unfolding empty
empty-IsValid = record {
  distinct = λ k. unfold lookup in tt;
  one_topic = λ j k i p q. unfold lookup in ground arith;
  made = λ k i p. unfold lookup in ground arith;
}

-- Whatever the tasks do and in whatever order, no sink is ever registered twice or under two topics,
-- and each registered sink has been made.
pub run-empty-IsValid : (ss : List Step) → IsValid (run empty ss)
run-empty-IsValid ss = run-IsValid empty ss empty-IsValid
