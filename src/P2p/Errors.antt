-- ===== src/P2p/Errors.antt =====
-- crates/laye-error/src/lib.rs, the shape of an error, and crates/laye-p2p/src/error.rs, the bounded
-- buffer that errors wait in until the page renders them.
use laye.Base.{
  ℕ, ◌≡◌, ◌∙◌, refl, ◌+◌, ◌%◌, ◌^◌, ◌≤◌, ◌∷◌, [], ◌++◌, List, Bytes, Bool, true, false, Option,
  none, some, codes, length, tail, leb, if◌then◌else◌, arith,
}
use laye.Base.Decimal.{to_string}
use laye.Base.Recent.{keep_last, bounded_push_all, bounded_push_all_lem}

pub data Severity : Type 0 where
  info warn severe panic : Severity

-- The two coordinates are `f64`, here their bits.
pub record Anchor : Type 0 where
  pub x : ℕ
  pub y : ℕ

pub record Context : Type 0 where
  pub surface : Bytes
  pub region : Option Bytes
  pub anchor : Option Anchor

pub record Error : Type 0 where
  pub id : Bytes
  pub severity : Severity
  pub context : Context
  pub title : Bytes
  pub why : Bytes
  pub trace : List Bytes
  pub raw : Option Bytes
  pub at : Bytes
  pub source : Option Bytes
  pub ffi_call : Option Bytes
  pub location : Option Bytes
  pub js_stack : Option Bytes
  pub raw_stderr : Option Bytes
  pub requires_reload : Bool

-- The thread's `BUFFER` and `COUNTER`.
pub record Pipe : Type 0 where
  pub buffer : List Error
  pub counter : ℕ

abbrev pub cap : ℕ
cap = 100

unfoldable pub next_id : Pipe → Bytes × Pipe
next_id p =
    let n = (p.counter + 1) % 2 ^ 64 in (codes "err-laye-" ++ to_string n, record p { counter = n })

unfoldable pub emit : Error → Pipe → Pipe
emit e p =
    let kept = if leb cap (length p.buffer) then tail p.buffer else p.buffer in
    record p { buffer = kept ++ e ∷ [] }

unfoldable pub drain : Pipe → List Error × Pipe
drain p = (p.buffer, record p { buffer = [] })

unfoldable pub clear : Pipe → Pipe
clear p = record p { buffer = [] }

-- The time that `now_ms` prints is an argument.
unfoldable pub build : Bytes → Severity → Bytes → Bytes → Bytes → Bytes → Pipe → Error × Pipe
unfolding next_id
build now severity surface region title why p =
    let (id, p') = next_id p in
    (
      record {
        id = id;
        severity = severity;
        context = record { surface = surface; region = some region; anchor = none };
        title = title;
        why = why;
        trace = [];
        raw = none;
        at = now;
        source = some (codes "rust-ffi");
        ffi_call = none;
        location = none;
        js_stack = none;
        raw_stderr = none;
        requires_reload = false;
      },
      p',
    )

unfoldable pub build_panic : Bytes → Option Bytes → Bytes → Option Bytes → Pipe → Error × Pipe
unfolding next_id
build_panic now location message raw_stderr p =
    let (id, p') = next_id p in
    (
      record {
        id = id;
        severity = panic;
        context = record {
          surface = codes "laye-p2p";
          region = some (codes "wasm-panic");
          anchor = none;
        };
        title = codes "laye-p2p panicked";
        why = message;
        trace = [];
        raw = none;
        at = now;
        source = some (codes "rust-panic");
        ffi_call = none;
        location = location;
        js_stack = none;
        raw_stderr = raw_stderr;
        requires_reload = true;
      },
      p',
    )

unfoldable pub with_anchor : Error → ℕ → ℕ → Error
with_anchor e x y = record e {
  context = record e.context { anchor = some (record { x = x; y = y }) };
}

-- Several errors, one after the other.
unfoldable pub emit_all : List Error → Pipe → Pipe
unfolding emit
emit_all [] p = p
emit_all (e ∷ es) p = emit_all es (emit e p)

emit_all-buffer :
    (es : List Error) (p : Pipe) → (emit_all es p).buffer ≡ bounded_push_all cap p.buffer es
unfolding emit_all emit
emit_all-buffer [] p = refl
emit_all-buffer (e ∷ es) p = emit_all-buffer es (emit e p)

-- Whatever is emitted into a pipe of at most 100 errors, `drain` hands out the newest 100 of the
-- errors that were there and those emitted, oldest first, and leaves nothing behind.
pub drain-emit_all :
    (es : List Error) (p : Pipe)
    → length p.buffer ≤ cap
    → ((drain (emit_all es p)).0 ≡ keep_last cap (p.buffer ++ es))
      × ((drain (drain (emit_all es p)).1).0 ≡ [])
unfolding drain
drain-emit_all es p h =
    (emit_all-buffer es p ∙ bounded_push_all_lem cap p.buffer es (omega arith) h, refl)
