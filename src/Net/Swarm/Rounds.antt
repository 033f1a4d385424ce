-- ===== src/Net/Swarm/Rounds.antt =====
-- The loop of the swarm over any number of turns.
use laye.Base.{
  ℕ, zero, suc, ◌≡◌, ◌∙◌, refl, ap, sym, ◌∷◌, [], ◌++◌, append_assoc, append-nil, List, Bytes, Bool,
  true, Option, false, none, some, length, map, drop, Result, Option-cases, inl, inr,
}
use laye.Net.{Cmd, Net, publish_cmd, subscribe_cmd, unsubscribe_cmd}
use laye.Net.Swarm.{Transport, SwarmEvent, handle_swarm_event, handle_cmd, take_turn, drive}
use laye.Net.Swarm.Calls.{
  Call, recording, errors_of, announced, told, handle_swarm_event-announced, report-publish_cmd,
  report-subscribe_cmd, nothing_reported, errors_of-append,
}

-- What a run of the loop has done from a queue of commands on: the calls that it made, the commands that
-- are left, and the events that it added.
record IsDriven (t : Transport) (turns : List (Bool × Option (ℕ × SwarmEvent))) (cs : List Cmd)
    (calls : List Call) (n : Net) (out : (t.Swarm × List Call) × Net) : Type 0 where
  pub made : List Call
  pub recorded : out.0.1 ≡ calls ++ made
  pub in_order : map (λ (c : Call). c.0) made ++ out.1.cmds ≡ cs
  pub left : out.1.cmds ≡ drop (length turns) cs
  pub events : out.1.events ≡ n.events ++ (errors_of made ++ told (drop (length cs) turns))

drop_nothing : {A : Type 0} → (k : ℕ) → drop {A = A} k [] ≡ []
drop_nothing zero = refl
drop_nothing (suc k) = refl

module _ (t : Transport) where
  -- What follows a turn.
  follow :
      List (Bool × Option (ℕ × SwarmEvent)) → t.Swarm → Net → Option (t.Swarm × Net) → t.Swarm × Net
  follow turns s n none = (s, n)
  follow turns s n (some next) = drive t turns next.0 next.1

  drive_follows :
      (closed : Bool) (happens : Option (ℕ × SwarmEvent))
      (turns : List (Bool × Option (ℕ × SwarmEvent))) (s : t.Swarm) (n : Net)
      → drive t ((closed, happens) ∷ turns) s n
        ≡ follow turns s n (take_turn t n.cmds closed happens s n)
  unfolding drive follow
  drive_follows closed happens turns s n =
      elim (Option-cases (take_turn t n.cmds closed happens s n)) [
        | inl h ↦ rw (drive, h) refl
        | inr (next, h) ↦ rw (drive, h) refl
      ]

  -- The turn is that of the queue that is there.
  drive_from :
      (cs : List Cmd) (closed : Bool) (happens : Option (ℕ × SwarmEvent))
      (turns : List (Bool × Option (ℕ × SwarmEvent))) (s : t.Swarm) (n : Net)
      → n.cmds ≡ cs
      → drive t ((closed, happens) ∷ turns) s n
        ≡ follow turns s n (take_turn t cs closed happens s n)
  drive_from cs closed happens turns s n e =
      drive_follows closed happens turns s n
      ∙ ap (λ q. follow turns s n (take_turn t q closed happens s n)) e

  -- Where no command waits, the turns take the events.
  drive_idle :
      (turns : List (Bool × Option (ℕ × SwarmEvent))) (s : t.Swarm) (n : Net)
      → n.cmds ≡ []
      → drive t turns s n ≡ (s, record n { events = n.events ++ told turns })
  unfolding drive take_turn follow
  drive_idle [] s n e = ap (λ es. (s, record n { events = es })) (sym (append-nil n.events))
  drive_idle ((true, happens) ∷ turns) s n e =
      let stops : drive t ((true, happens) ∷ turns) s n ≡ (s, n) =
        drive_from [] true happens turns s n e in
      stops ∙ ap (λ es. (s, record n { events = es })) (sym (append-nil n.events))
  drive_idle ((false, none) ∷ turns) s n e =
      let goes_on : drive t ((false, none) ∷ turns) s n ≡ drive t turns s n =
        drive_from [] false none turns s n e in
      goes_on ∙ drive_idle turns s n e
  drive_idle ((false, some (now, event)) ∷ turns) s n e =
      let n' = record n { events = n.events ++ announced now event } in
      let takes : drive t ((false, some (now, event)) ∷ turns) s n
          ≡ drive t turns s (handle_swarm_event now event n) =
        drive_from [] false (some (now, event)) turns s n e in
      takes
      ∙ (ap (drive t turns s) (handle_swarm_event-announced now event n)
          ∙ (drive_idle turns s n' e
              ∙ ap (λ es. (s, record n { events = es }))
                  (append_assoc n.events (announced now event) (told turns))))

module _ (t : Transport) where
  -- Handing one command over.
  handle_cmd-recording :
      (c : Cmd) (s : t.Swarm) (calls : List Call) (n : Net)
      → (s' : t.Swarm) × ((r : Result Bytes (Unit {0})) × (handle_cmd (recording t) c (s, calls) n
            ≡ (
              (s', calls ++ (c, r) ∷ []),
              record n { events = n.events ++ errors_of ((c, r) ∷ []) },
            )))
  unfolding handle_cmd
  handle_cmd-recording (publish_cmd topic bytes) s calls n =
      let (r, s') = t.publish topic bytes s in
      (
        s',
        (
          r,
          ap (λ n'. ((s', calls ++ (publish_cmd topic bytes, r) ∷ []), n'))
              (report-publish_cmd topic bytes r n),
        ),
      )
  handle_cmd-recording (subscribe_cmd topic) s calls n =
      let (r, s') = t.subscribe topic s in
      (
        s',
        (
          r,
          ap (λ n'. ((s', calls ++ (subscribe_cmd topic, r) ∷ []), n'))
              (report-subscribe_cmd topic r n),
        ),
      )
  handle_cmd-recording (unsubscribe_cmd topic) s calls n =
      let (r, s') = t.unsubscribe topic s in
      (
        s',
        (
          r,
          ap (λ n'. ((s', calls ++ (unsubscribe_cmd topic, r) ∷ []), n'))
              (nothing_reported (unsubscribe_cmd topic) r n refl),
        ),
      )

  drive-recording_from :
      (turns : List (Bool × Option (ℕ × SwarmEvent))) (cs : List Cmd) (s : t.Swarm)
      (calls : List Call) (n : Net)
      → n.cmds ≡ cs
      → IsDriven t turns cs calls n (drive (recording t) turns (s, calls) n)
  unfolding drive take_turn follow
  drive-recording_from [] cs s calls n e = record {
    made = [];
    recorded = sym (append-nil calls);
    in_order = e;
    left = e;
    events = sym (ap (λ us. n.events ++ told us) (drop_nothing (length cs)) ∙ append-nil n.events);
  }
  drive-recording_from (u ∷ us) [] s calls n e =
      let idle = drive_idle (recording t) (u ∷ us) (s, calls) n e in
      record {
        made = [];
        recorded = ap (λ out. out.0.1) idle ∙ sym (append-nil calls);
        in_order = ap (λ out. out.1.cmds) idle ∙ e;
        left = ap (λ out. out.1.cmds) idle ∙ e;
        events = ap (λ out. out.1.events) idle;
      }
  drive-recording_from ((closed, happens) ∷ us) (c ∷ cs) s calls n e =
      let (s', (r, handled)) = handle_cmd-recording c s calls (record n { cmds = cs }) in
      let n' = record n { cmds = cs; events = n.events ++ errors_of ((c, r) ∷ []) } in
      let calls' = calls ++ (c, r) ∷ [] in
      let turn : drive (recording t) ((closed, happens) ∷ us) (s, calls) n
          ≡ drive (recording t) us (s', calls') n' =
        drive_from (recording t) (c ∷ cs) closed happens us (s, calls) n e
        ∙ ap (λ out. drive (recording t) us out.0 out.1) handled in
      let rest = drive-recording_from us cs s' calls' n' refl in
      record {
        made = (c, r) ∷ rest.made;
        recorded =
            ap (λ out. out.0.1) turn ∙ (rest.recorded ∙ append_assoc calls ((c, r) ∷ []) rest.made);
        in_order =
            ap (λ out. c ∷ (map (λ (x : Call). x.0) rest.made ++ out.1.cmds)) turn
            ∙ ap (λ x. c ∷ x) rest.in_order;
        left = ap (λ out. out.1.cmds) turn ∙ rest.left;
        events =
            ap (λ out. out.1.events) turn
            ∙ (rest.events
                ∙ (append_assoc n.events (errors_of ((c, r) ∷ []))
                      (errors_of rest.made ++ told (drop (length cs) us))
                    ∙ ap (λ es. n.events ++ es)
                        (sym (
                            append_assoc (errors_of ((c, r) ∷ [])) (errors_of rest.made)
                              (told (drop (length cs) us)))
                          ∙ ap (λ es. es ++ told (drop (length cs) us))
                              (sym (errors_of-append ((c, r) ∷ []) rest.made)))));
      }

  -- However many turns the loop takes with commands in the queue, and whatever is ready at each of them:
  -- the commands from the front of the queue, one for each turn, are handed to the transport in their
  -- order and each once, and the others stay in the queue. The queue of events keeps what it held;
  -- behind that come the transport's refusals to publish and to subscribe, in order, and behind those what
  -- is to be told of the events of the swarm, none of which is taken before the last command is, nor
  -- after the loop has found every sender gone.
  pub drive-recording :
      (turns : List (Bool × Option (ℕ × SwarmEvent))) (s : t.Swarm) (n : Net)
      → let ((s', calls), n') = drive (recording t) turns (s, []) n in
        (map (λ (c : Call). c.0) calls ++ n'.cmds ≡ n.cmds)
        × ((n'.cmds ≡ drop (length turns) n.cmds)
            × (n'.events ≡ n.events ++ (errors_of calls ++ told (drop (length n.cmds) turns))))
  drive-recording turns s n =
      let ran = drive-recording_from turns n.cmds s [] n refl in
      let calls = ran.recorded in
      (
        ap (λ cs. map (λ (c : Call). c.0) cs ++ (drive (recording t) turns (s, []) n).1.cmds) calls
            ∙ ran.in_order,
        (
          ran.left,
          ran.events
              ∙ ap (λ cs. n.events ++ (errors_of cs ++ told (drop (length n.cmds) turns)))
                  (sym calls),
        ),
      )
