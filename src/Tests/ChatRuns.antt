-- ===== src/Tests/ChatRuns.antt =====
-- The theorems on the chat of two pages, the overlay of errors, and the login button at concrete inputs.
use laye.Base.{
  Result, ok, ◌≡◌, refl, ℕ, zero, suc, ◌≤◌, ◌<◌, ◌∷◌, [], ◌++◌, Bytes, true, false, Option, none,
  some, codes, arith, filter, not, bytes_eq, All, get_or_else, ◌+◌,
}
use laye.Base.Maps.{lookup}
use laye.Net.{Net, publish_cmd}
use laye.Me.Wire.{Json}
use laye.Me.Claims.{SignedBinding, verify_binding}
use laye.P2p.Errors.{Error, Pipe, info}
use laye.P2p.Chat.{PlaintextChat, fresh_chat, chat_topic, build_signed_wire, push, attribute_author}
use laye.P2p.App.{AppState, has_mesh_for}
use laye.P2p.App.Login.{BrokerMessage}
use laye.P2p.App.Pump.{drain_net_events}
use laye.P2p.App.PublishChat.{publish_chat}
use laye.P2p.App.PublishChat.Delivered.{deliver, drain_net_events-publish_chat}
use laye.P2p.App.Overlay.{Node, empty_overlay, dedup_key, render_errors}
use laye.P2p.App.Overlay.Tidy.{tally, nodes_of, shown_count, IsTidy}
use laye.P2p.App.Overlay.Coalesced.{render_errors-tally}
use laye.P2p.App.SignIn.{
  Round, elapsed, fetch_failed, answered, handled, answer_text, poll_atproto_result,
}
use laye.P2p.App.SignIn.Polled.{poll_atproto_result-first}
use laye.Tests.Doubles.{
  toy, toy-IsLawful, key_bytes, seal, chat_json, chat_json-ReadsBack, bindings_json,
}

abbrev net : Net
net = record { self_peer_id = codes "me"; cmds = []; receiver_alive = true; events = [] }

abbrev pipe : Pipe
pipe = record { buffer = []; counter = 0 }

abbrev page : AppState
page = record {
  net = some net;
  rx = record { queues = [] };
  peer_id_hex = codes "00";
  self_pubkey = some key_bytes;
  chat = fresh_chat;
  bindings = [];
  self_bindings = [];
  topic_peers = (chat_topic, codes "peer" ∷ []) ∷ [];
  pending_sends = [];
  pipe = pipe;
}

abbrev plain_json : Json PlaintextChat
plain_json = record { to_vec = λ c. none; from_slice = λ b. none }

abbrev sender_key : Bytes → Option Bytes
sender_key from = some key_bytes

abbrev wire : Bytes
wire = get_or_else (build_signed_wire toy chat_json plain_json tt (codes "hi") 5) []

built : build_signed_wire toy chat_json plain_json tt (codes "hi") 5 ≡ some wire
unfolding build_signed_wire
built = refl

meshed : has_mesh_for chat_topic page ≡ true
unfolding has_mesh_for lookup bytes_eq
meshed = refl

drain_net_events-publish_chat_example :
    let sent = publish_chat toy chat_json plain_json (codes "0") 5 tt (codes "hi") page in
    let shown =
      drain_net_events toy chat_json plain_json bindings_json sender_key
        (some (1 ∷ []))
        (codes "0")
        (deliver (codes "peer") wire 6 net page) in
    let echoed =
      drain_net_events toy chat_json plain_json bindings_json sender_key
        (some key_bytes)
        (codes "0")
        (deliver (codes "peer") wire 6 net sent.1) in
    (sent.0 ≡ ok tt)
    × ((sent.1.net ≡ some (record net { cmds = net.cmds ++ publish_cmd chat_topic wire ∷ [] }))
        × ((sent.1.chat ≡ push (record { who = codes "me"; body = codes "hi" }) page.chat)
            × ((shown.chat
                  ≡ push
                      (record {
                        who = attribute_author (some page.bindings) key_bytes;
                        body = codes "hi";
                      })
                      page.chat)
                × (echoed.chat ≡ sent.1.chat))))
drain_net_events-publish_chat_example =
    drain_net_events-publish_chat toy chat_json plain_json bindings_json sender_key tt key_bytes
      (1 ∷ []) (codes "hi") wire (codes "0") (codes "peer") 5 6 page page net net toy-IsLawful
      chat_json-ReadsBack refl built (λ e. ground (arith, e)) refl refl meshed

abbrev failure_of : Bytes → Error
failure_of title = record {
  id = title;
  severity = info;
  context = record { surface = codes "s"; region = none; anchor = none };
  title = title;
  why = [];
  trace = [];
  raw = none;
  at = codes "0";
  source = none;
  ffi_call = none;
  location = none;
  js_stack = none;
  raw_stderr = none;
  requires_reload = false;
}

-- Two errors of one kind and one of another.
abbrev full : Pipe
full = record {
  buffer = failure_of (codes "a") ∷ failure_of (codes "b") ∷ failure_of (codes "a") ∷ [];
  counter = 3;
}

abbrev kind_of : Bytes → Bytes
kind_of id = codes "s||" ++ id

empty-IsTidy : IsTidy kind_of empty_overlay
unfolding lookup
empty-IsTidy = record {
  own = λ k id h. absurd (ground (arith, h));
  counted = λ k id h. absurd (ground (arith, h));
  one_node = λ k. refl;
  told = tt;
}

kinds : All (λ (x : Error). kind_of x.id ≡ dedup_key x) full.buffer
unfolding dedup_key
kinds = (refl, (refl, (refl, tt)))

came : 1 ≤ shown_count (codes "s||a") empty_overlay + tally (codes "s||a") full.buffer
unfolding dedup_key lookup bytes_eq
came = omega arith

render_errors-tally_example :
    (nodes_of (codes "s||a") (render_errors true (λ x. true) empty_overlay full).0.nodes ≡ 1)
    × All
        (λ (y : Node).
          y.counter
          ≡ shown_count (dedup_key y.error) empty_overlay + tally (dedup_key y.error) full.buffer)
        (render_errors true (λ x. true) empty_overlay full).0.nodes
render_errors-tally_example =
    render_errors-tally kind_of (λ x. true) empty_overlay full (refl, (refl, (refl, tt))) kinds
      empty-IsTidy refl (codes "s||a") came

abbrev link : SignedBinding
link = record {
  claim = record {
    peer_pubkey = key_bytes;
    provider = codes "atproto";
    canonical_id = codes "did:plc:1";
    handle = none;
    issued_at = 3;
  };
  signature = seal;
  signer_pubkey = key_bytes;
}

-- The first round's fetch fails; every later one brings the link.
abbrev rounds : ℕ → Round
rounds zero = record { timer = elapsed; fetched = fetch_failed; page = page }
rounds (suc n) = record { timer = elapsed; fetched = answered 200 (some (codes "{}")); page = page }

abbrev read_message : Bytes → Result Bytes BrokerMessage
read_message text = ok (record { type_ = codes "laye/identity/link"; signed = some link })

verified : verify_binding toy link ≡ ok tt
unfolding verify_binding bytes_eq
verified = refl

timers : (j : ℕ) → j ≤ 1 → (rounds j).timer ≡ elapsed
timers zero h = refl
timers (suc j) h = refl

unanswered : (j : ℕ) → j < 1 → answer_text (rounds j).fetched ≡ none
unfolding answer_text
unanswered zero h = refl
unanswered (suc j) h = absurd (omega (arith, h))

answer : answer_text (rounds 1).fetched ≡ some (codes "{}")
unfolding answer_text
answer = refl

poll_atproto_result-first_example :
    (st : AppState) × ((poll_atproto_result toy bindings_json read_message (λ i. codes "0") rounds
        ≡ handled st)
      × ((st.self_bindings
            ≡ link
              ∷ filter
                  (λ (c : SignedBinding). not (bytes_eq c.claim.provider link.claim.provider))
                  page.self_bindings)
          × (lookup link.claim.peer_pubkey st.bindings ≡ some st.self_bindings)))
poll_atproto_result-first_example =
    poll_atproto_result-first toy bindings_json read_message (λ i. codes "0") rounds 1 (codes "{}")
      link (omega arith) timers unanswered answer refl verified refl
