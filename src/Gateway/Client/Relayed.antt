-- ===== src/Gateway/Client/Relayed.antt =====
-- What one connection sends and another one writes.
use laye.Base.{
  ℕ, zero, suc, ◌≡◌, ◌∙◌, refl, sym, ap, subst, ◌∷◌, [], ◌++◌, List, none, some, true, Bytes, arith,
  map, append_assoc, append-nil, set, Option-cases, inl, inr, bytes_eq_iff,
}
use laye.Base.Recent.{keep_last, length-keep_last-le}
use laye.Gateway.Sink.{BroadcastSink, poll_next}
use laye.Gateway.Sink as Sink
use laye.Gateway.Sink.Freshest.{IsBounded, push_all, push_all-keep_last, reads, reads-queue}
use laye.Gateway.Registry.{upgrade, broadcast}
use laye.Gateway.Registry.Fanout.{
  IsValid, among, sinks, upgrade-broadcast, upgrade-set, upgrade-lt, sinks-broadcast, retain-among,
}
use laye.Gateway.Registry.Invariant.{broadcast-IsValid}
use laye.Gateway.Client.{
  Client, Shared, received, write_round, binary, publish, on_binary, send_polled, write_frame, step,
  handle,
}

-- Binary frames come in on a connection.
abbrev pub send_all : List Bytes → Client → Shared → Client × Shared
send_all [] c sh = (c, sh)
send_all (b ∷ bs) c sh = let (c', sh') = step (received (binary b)) c sh in send_all bs c' sh'

-- Rounds of a connection's write loop, whose socket takes every frame.
abbrev pub write_all : ℕ → Client → Shared → Client × Shared
write_all zero c sh = (c, sh)
write_all (suc n) c sh = let (c', sh') = step (write_round true) c sh in write_all n c' sh'

-- The sink is live and registered, and the commands still have a reader.
record IsServed (topic : Bytes) (i : ℕ) (s : BroadcastSink) (sh : Shared) : Type 0 where
  pub valid : IsValid sh.registry
  pub alive : sh.receiver_alive ≡ true
  pub listed : among i (sinks topic sh.registry) ≡ true
  pub live : upgrade sh.registry.heap i ≡ some s

-- A frame that comes in.
step-binary :
    (bytes : Bytes) (c : Client) (sh : Shared)
    → c.running ≡ true
    → sh.receiver_alive ≡ true
    → step (received (binary bytes)) c sh ≡ (
      c,
      record sh {
        registry = broadcast c.topic bytes sh.registry;
        cmds = sh.cmds ++ publish c.topic bytes ∷ [];
      },
    )
unfolding step handle on_binary
step-binary bytes c sh r a = ground (arith, r, a)

broadcast-IsServed :
    (topic bytes : Bytes) (i : ℕ) (s : BroadcastSink) (sh : Shared) (cs : List _)
    → IsServed topic i s sh
    → IsServed topic i
        (Sink.push bytes s)
        (record sh { registry = broadcast topic bytes sh.registry; cmds = cs })
broadcast-IsServed topic bytes i s sh cs v = record {
  valid = broadcast-IsValid topic bytes sh.registry v.valid;
  alive = v.alive;
  listed = ground (
    arith,
    sinks-broadcast topic bytes topic sh.registry,
    bytes_eq_iff topic topic,
    retain-among bytes (sinks topic sh.registry) sh.registry.heap i,
    v.live,
    v.listed,
  );
  live = upgrade-broadcast topic bytes sh.registry i v.valid ∙ rw (v.listed, v.live) refl;
}

send_all-IsServed :
    (bs : List Bytes) (c : Client) (i : ℕ) (s : BroadcastSink) (sh : Shared)
    → c.running ≡ true
    → IsServed c.topic i s sh
    → IsServed c.topic i (push_all bs s) (send_all bs c sh).1
      × ((send_all bs c sh).1.cmds ≡ sh.cmds ++ map (publish c.topic) bs)
send_all-IsServed [] c i s sh r v = (v, sym (append-nil sh.cmds))
send_all-IsServed (b ∷ bs) c i s sh r v =
    let cs = sh.cmds ++ publish c.topic b ∷ [] in
    let sh' = record sh { registry = broadcast c.topic b sh.registry; cmds = cs } in
    let (served, sent) =
      send_all-IsServed bs c i (Sink.push b s) sh' r (broadcast-IsServed c.topic b i s sh cs v) in
    let first : send_all (b ∷ bs) c sh ≡ send_all bs c sh' =
      ap (λ (out : Client × Shared). send_all bs out.0 out.1) (step-binary b c sh r v.alive) in
    (
      subst (λ (out : Client × Shared). IsServed c.topic i (push_all (b ∷ bs) s) out.1) (sym first)
          served,
      ap (λ (out : Client × Shared). out.1.cmds) first
          ∙ (sent ∙ append_assoc sh.cmds (publish c.topic b ∷ []) (map (publish c.topic) bs)),
    )

-- A round that finds nothing waits, and a round that finds a frame writes it.
step-waits :
    (c : Client) (sh : Shared) (s : BroadcastSink)
    → c.running ≡ true
    → upgrade sh.registry.heap c.sink ≡ some s
    → poll_next s ≡ none
    → step (write_round true) c sh ≡ (c, sh)
unfolding step handle write_frame send_polled
step-waits c sh s r e n = ground (arith, r, e, n)

step-writes :
    (c : Client) (sh : Shared) (s s' : BroadcastSink) (b : Bytes)
    → c.running ≡ true
    → upgrade sh.registry.heap c.sink ≡ some s
    → poll_next s ≡ some (b, s')
    → step (write_round true) c sh ≡ (
      record c { written = c.written ++ b ∷ [] },
      record sh { registry = record sh.registry { heap = set sh.registry.heap c.sink (some s') } },
    )
unfolding step handle write_frame send_polled
step-writes c sh s s' b r e n = ground (arith, r, e, n)

reads_nothing : (n : ℕ) (s : BroadcastSink) → poll_next s ≡ none → reads n s ≡ []
unfolding reads
reads_nothing zero s e = refl
reads_nothing (suc n) s e = ground (arith, e)

write_all-reads :
    (n : ℕ) (c : Client) (sh : Shared) (s : BroadcastSink)
    → c.running ≡ true
    → upgrade sh.registry.heap c.sink ≡ some s
    → (write_all n c sh).0.written ≡ c.written ++ reads n s
unfolding reads
write_all-reads zero c sh s r e = sym (append-nil c.written)
write_all-reads (suc n) c sh s r e = elim (Option-cases (poll_next s)) [
  | inl w ↦
      ap (λ (out : Client × Shared). (write_all n out.0 out.1).0.written) (step-waits c sh s r e w)
      ∙ (write_all-reads n c sh s r e
          ∙ ap (λ q. c.written ++ q) (reads_nothing n s w ∙ sym (reads_nothing (suc n) s w)))
  | inr ((b, s'), w) ↦
      (let c' = record c { written = c.written ++ b ∷ [] } in
        let r' = record sh.registry { heap = set sh.registry.heap c.sink (some s') } in
        let there : upgrade r'.heap c.sink ≡ some s' = ground (
          arith,
          upgrade-set sh.registry.heap c.sink c.sink (some s')
              (upgrade-lt sh.registry.heap c.sink e),
        ) in
        let front : reads (suc n) s ≡ b ∷ reads n s' = ground (arith, w) in
        ap (λ (out : Client × Shared). (write_all n out.0 out.1).0.written)
          (step-writes c sh s s' b r e w)
        ∙ (write_all-reads n c' (record sh { registry = r' }) s' r there
            ∙ (append_assoc c.written (b ∷ []) (reads n s')
                ∙ ap (λ q. c.written ++ q) (sym front))))
]

-- Where two connections run, the outbox of the second is live, registered under the first one's topic and
-- within its bound, and the swarm's loop still takes commands: once the first has sent frames, as many
-- rounds of the second one's write loop as its outbox has room for write, to a socket that takes them,
-- the newest of the frames that waited and of those that were sent, in order, as many as the outbox holds.
-- One publish of each frame went to the mesh, in order. The two connections may be the same.
pub write_all-send_all :
    (bs : List Bytes) (a b : Client) (sh : Shared) (s : BroadcastSink)
    → IsValid sh.registry
    → IsBounded s
    → a.running ≡ true
    → b.running ≡ true
    → sh.receiver_alive ≡ true
    → among b.sink (sinks a.topic sh.registry) ≡ true
    → upgrade sh.registry.heap b.sink ≡ some s
    → ((write_all s.cap b (send_all bs a sh).1).0.written
        ≡ b.written ++ keep_last s.cap (s.queue ++ bs))
      × ((send_all bs a sh).1.cmds ≡ sh.cmds ++ map (publish a.topic) bs)
write_all-send_all bs a b sh s v bounded run_a run_b alive listed live =
    let (served, sent) =
      send_all-IsServed bs a b.sink s sh run_a
        (record { valid = v; alive = alive; listed = listed; live = live }) in
    let queue = push_all-keep_last bs s bounded in
    (
      write_all-reads s.cap b (send_all bs a sh).1 (push_all bs s) run_b served.live
          ∙ ap (λ q. b.written ++ q)
              (reads-queue (keep_last s.cap (s.queue ++ bs)) s.cap (push_all bs s) queue
                (length-keep_last-le s.cap (s.queue ++ bs))),
      sent,
    )
