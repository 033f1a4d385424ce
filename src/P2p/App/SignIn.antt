-- ===== src/P2p/App/SignIn.antt =====
-- The login button of crates/laye-p2p/src/wasm.rs: `open_login_popup`, the window's message listener,
-- and `poll_atproto_result`. What the browser answers is an argument.
pub mod Polled
use laye.Base.{
  ℕ, suc, zero, ◌+◌, ◌==◌, ◌∷◌, [], ◌++◌, List, Bytes, Bool, true, false, not, Option, none, some,
  codes, em_dash, is_empty, bytes_eq, if◌then◌else◌, Result, ok, err,
}
use laye.Me.Hex.{hex_lower}
use laye.Me.Keys.{Ed25519}
use laye.Me.Wire.{Json, BindingJson}
use laye.P2p.Errors.{Error, Severity, warn, severe}
use laye.P2p.App.{AppState, Outcome, emit_err, failure, report}
use laye.P2p.App.Login.{BrokerMessage, handle_login_message}

abbrev pub broker_origin : Bytes
broker_origin = codes "https://relaye.sbvh.nl"

abbrev pub broker_login_path : Bytes
broker_login_path = codes "/me/"

-- What `getrandom::fill` leaves in the buffer, and the text of its error.
abbrev pub Filled : Type 0
Filled = Bytes × Option Bytes

unfoldable pub random_state_hex : Bytes → Filled → AppState → Bytes × AppState
random_state_hex now (bytes, error) st = elim error [
  | none ↦ (hex_lower bytes, st)
  | some why ↦ (
    hex_lower bytes,
    report now warn (codes "state-random-fill")
        (codes "getrandom::fill failed; atproto flow state will be all-zeros") why st,
  )
]

-- What `window.open` does.
pub data Popup : Type 0 where
  opened : Popup
  blocked : Popup
  threw : Popup

abbrev reject :
    Bytes → Severity → Bytes → Bytes → Bytes → AppState → Result Error (Bytes × Bytes) × AppState
reject now sev region title why st =
    let (x, st') = failure now sev region title why st in (err x, st')

-- Where it succeeds, the state that the popup and `poll_atproto_result` share, and the popup's address.
unfoldable pub open_login_popup :
    Bytes → Bool → Filled → (Bytes → Popup) → AppState → Result Error (Bytes × Bytes) × AppState
unfolding random_state_hex
open_login_popup now has_window random window_open st =
    if not has_window
    then reject now severe (codes "dom-window") (codes "web_sys::window() returned None")
        (codes "no window in this context") st
    else if is_empty st.peer_id_hex
    then reject now severe (codes "login-preinit") (codes "login attempted before init")
        (codes "peer_id_hex is empty") st
    else let (state, st') = random_state_hex now random st in
      let url =
        broker_origin
        ++ (broker_login_path
            ++ (codes "?peer=" ++ (st.peer_id_hex ++ (codes "&state=" ++ state)))) in
      elim (window_open url) [
        | opened ↦ (ok (state, url), st')
        | threw ↦
            reject now warn (codes "login-popup") (codes "window.open threw")
              (codes "window.open_with_url_and_target_and_features returned Err") st'
        | blocked ↦
            reject now warn (codes "login-popup-blocked") (codes "browser blocked the login popup")
              (codes "window.open returned None " ++ (em_dash ++ codes " check popup blocker")) st'
      ]

abbrev pub envelope : Bytes → Bytes
envelope text = codes "{\"type\":\"laye/identity/link\",\"signed\":" ++ (text ++ b'}' ∷ [])

module _ (e : Ed25519) (jb : Json (List BindingJson))
    (read_message : Bytes → Result Bytes BrokerMessage) where
  -- The listener of `install_login_listener`; the data is none where it does not print as JSON.
  unfoldable pub on_window_message : Bytes → Bytes → Option Bytes → AppState → AppState
  unfolding handle_login_message
  on_window_message now origin message st =
      if not (bytes_eq origin broker_origin) then st else elim message [
        | none ↦ st
        | some json ↦ emit_err (handle_login_message e jb now (read_message json) st)
      ]

-- What one round of `poll_atproto_result` meets. A timer that is not set leaves the promise that the
-- round waits for unresolved.
pub data Timer : Type 0 where
  elapsed : Timer
  refused : Bytes → Timer
  windowless : Timer

pub data Fetched : Type 0 where
  no_window : Fetched
  fetch_failed : Fetched
  not_a_response : Fetched
  answered : ℕ → Option Bytes → Fetched

-- `page` is the state of the page when the round's answer is there.
pub record Round : Type 0 where
  pub timer : Timer
  pub fetched : Fetched
  pub page : AppState

pub data PollEnd : Type 0 where
  handled : AppState → PollEnd
  waiting : AppState → PollEnd
  gave_up : PollEnd

-- The text of an answer that the loop does not pass over.
unfoldable pub answer_text : Fetched → Option Bytes
answer_text no_window = none
answer_text fetch_failed = none
answer_text not_a_response = none
answer_text (answered status text) = if status == 200 then text else none

abbrev pub poll_rounds : ℕ
poll_rounds = 150

module _ (e : Ed25519) (jb : Json (List BindingJson))
    (read_message : Bytes → Result Bytes BrokerMessage) where
  unfoldable pub poll_loop : ℕ → ℕ → (ℕ → Bytes) → (ℕ → Round) → PollEnd
  unfolding answer_text handle_login_message
  poll_loop zero i now rounds = gave_up
  poll_loop (suc fuel) i now rounds =
      let rest = poll_loop fuel (i + 1) now rounds in
      let r = rounds i in
      elim r.timer [
        | windowless ↦ waiting r.page
        | refused why ↦ waiting (
            report (now i) warn (codes "atproto-poll-timer")
              (codes "set_timeout failed to schedule next atproto poll") why r.page)
        | elapsed ↦ elim (answer_text r.fetched) [
          | none ↦ rest
          | some text ↦
              handled
                (emit_err (handle_login_message e jb (now i) (read_message (envelope text)) r.page))
        ]
      ]

  unfoldable pub poll_atproto_result : (ℕ → Bytes) → (ℕ → Round) → PollEnd
  unfolding poll_loop
  poll_atproto_result now rounds = poll_loop poll_rounds 0 now rounds
