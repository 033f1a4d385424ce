-- ===== src/Tests/PageRuns.antt =====
-- The theorems on the page's queues, chat, errors and state at concrete inputs.
use laye.Base.{
  ok, ◌≡◌, ◌≢◌, refl, ◌≤◌, ◌<◌, ◌∷◌, [], ◌++◌, Bytes, true, false, Option, none, some, codes, arith,
  length, drop, bytes_eq, bytes_eq_iff, ◌^◌,
}
use laye.Base.Maps.{lookup, lookup_or}
use laye.Base.Recent.{keep_last}
use laye.Frames.{RxState, recv_bytes, pending_bytes, split_frames}
use laye.Frames.Framing.{size}
use laye.Frames.Drain.{split_frames-recv_bytes}
use laye.Net.{Net, message}
use laye.P2p.Errors.{Error, Pipe, emit_all, drain, cap, with_anchor, build, info}
use laye.P2p.Errors as Errors
use laye.P2p.Chat.{fresh_chat, is_char_boundary, trim_to_char_boundary, PlaintextChat}
use laye.P2p.Chat.History.{trim_to_char_boundary_lem}
use laye.Me.Wire.{Json}
use laye.P2p.Identity.Trust.{IsTrusted}
use laye.P2p.App.{AppState}
use laye.P2p.App.Pump.{drain_net_events}
use laye.P2p.App.Pump.Handed.{bodies, handed, drain_net_events-handed}
use laye.P2p.App.Pump.Routing.{drain_net_events-IsTrusted}
use laye.P2p.App.Login.{BrokerMessage, handle_login_message}
use laye.P2p.App.Login.Accepted.{IsHonest, handle_login_message-IsHonest}
use laye.Tests.Doubles.{toy, key_bytes, chat_json, bindings_json, seal}

abbrev rx : RxState
rx = record { queues = (codes "t", (1 ∷ 2 ∷ []) ∷ (3 ∷ []) ∷ []) ∷ (codes "u", (4 ∷ []) ∷ []) ∷ [] }

t_is_not_u : codes "t" ≢ codes "u"
unfolding bytes_eq
t_is_not_u e = ground (arith, (bytes_eq_iff (codes "t") (codes "u")).1 e)

small : size (lookup_or [] (codes "t") rx.queues) < 2 ^ 32
unfolding size lookup bytes_eq
small = omega arith

split_frames-recv_bytes_example :
    (split_frames (recv_bytes (codes "t") rx).0 ≡ lookup_or [] (codes "t") rx.queues)
    × ((pending_bytes (codes "t") (recv_bytes (codes "t") rx).1 ≡ 0)
        × (lookup (codes "u") (recv_bytes (codes "t") rx).1.queues ≡ lookup (codes "u") rx.queues))
split_frames-recv_bytes_example =
    split_frames-recv_bytes (codes "t") (codes "u") rx small t_is_not_u

abbrev pipe : Pipe
pipe = record { buffer = []; counter = 0 }

abbrev failure_of : Bytes → Error
failure_of title = record {
  id = codes "err-laye-1";
  severity = info;
  context = record { surface = codes "laye-p2p"; region = none; anchor = none };
  title = title;
  why = [];
  trace = [];
  raw = none;
  at = codes "0";
  source = none;
  ffi_call = none;
  location = none;
  js_stack = none;
  raw_stderr = none;
  requires_reload = false;
}

drain-emit_all_example :
    ((drain (emit_all (failure_of (codes "a") ∷ failure_of (codes "b") ∷ []) pipe)).0
      ≡ keep_last cap ([] ++ failure_of (codes "a") ∷ failure_of (codes "b") ∷ []))
    × ((drain (drain (emit_all (failure_of (codes "a") ∷ failure_of (codes "b") ∷ []) pipe)).1).0
        ≡ [])
drain-emit_all_example =
    Errors.drain-emit_all (failure_of (codes "a") ∷ failure_of (codes "b") ∷ []) pipe (omega arith)

-- `aé`, whose second character takes two bytes.
abbrev accented : Bytes
accented = 97 ∷ 195 ∷ 169 ∷ []

one_is_boundary : is_char_boundary accented 1 ≡ true
unfolding is_char_boundary
one_is_boundary = refl

trim_to_char_boundary_lem_example :
    (trim_to_char_boundary accented 2 ++ drop (length (trim_to_char_boundary accented 2)) accented
      ≡ accented)
    × ((length (trim_to_char_boundary accented 2) ≤ 2)
        × ((is_char_boundary accented (length (trim_to_char_boundary accented 2)) ≡ true)
            × (1 ≤ length (trim_to_char_boundary accented 2))))
trim_to_char_boundary_lem_example =
    trim_to_char_boundary_lem accented 2 1 (omega arith) one_is_boundary

abbrev net : Net
net = record {
  self_peer_id = codes "me";
  cmds = [];
  receiver_alive = true;
  events = message (codes "laye-chat/v1") (codes "peer") (1 ∷ []) 5 ∷ [];
}

abbrev page : AppState
page = record {
  net = some net;
  rx = rx;
  peer_id_hex = codes "00";
  self_pubkey = some key_bytes;
  chat = fresh_chat;
  bindings = [];
  self_bindings = [];
  topic_peers = [];
  pending_sends = [];
  pipe = pipe;
}

abbrev game : Bytes
game = codes "rave"

abbrev plain_json : Json PlaintextChat
plain_json = record { to_vec = λ c. none; from_slice = λ b. none }

abbrev sender_key : Bytes → Option Bytes
sender_key from = some key_bytes

drain_net_events-IsTrusted_example :
    IsTrusted toy
      (drain_net_events toy chat_json plain_json bindings_json sender_key none
        (codes "0")
        page).bindings
drain_net_events-IsTrusted_example =
    drain_net_events-IsTrusted toy chat_json plain_json bindings_json sender_key none (codes "0")
      page tt

abbrev login : BrokerMessage
login = record {
  type_ = codes "laye/identity/link";
  signed = some (record {
    claim = record {
      peer_pubkey = key_bytes;
      provider = codes "mastodon";
      canonical_id = codes "https://chaos.social/@onf";
      handle = none;
      issued_at = 3;
    };
    signature = seal;
    signer_pubkey = key_bytes;
  });
}

handle_login_message-IsHonest_example :
    IsHonest toy (handle_login_message toy bindings_json (codes "0") (ok login) page).1
handle_login_message-IsHonest_example =
    handle_login_message-IsHonest toy bindings_json (codes "0") (ok login) page
      (record { table = tt; own = λ pk p. tt })

-- A line of chat, a message of the game, and one more of each.
abbrev mixed : Net
mixed = record net {
  events =
      message (codes "laye-chat/v1") (codes "peer") (1 ∷ []) 5
      ∷ message game (codes "peer") (2 ∷ []) 5
      ∷ message (codes "rave-chat/v1") (codes "peer") (3 ∷ []) 6
      ∷ message game (codes "peer") (4 ∷ []) 6
      ∷ [];
}

drain_net_events-handed_example :
    lookup_or [] game
      (drain_net_events toy chat_json plain_json bindings_json sender_key none
        (codes "0")
        (record page { net = some mixed })).rx.queues
    ≡ lookup_or [] game page.rx.queues
      ++ bodies game (handed toy chat_json plain_json bindings_json sender_key none mixed.events)
drain_net_events-handed_example =
    drain_net_events-handed toy chat_json plain_json bindings_json sender_key none game (codes "0")
      (record page { net = some mixed }) mixed refl
