-- ===== src/Host/Input.antt =====
-- crates/laye-input/src/lib.rs and crates/bevy-input-capture/src/lib.rs: who holds the input, and the
-- intents of the default keys. What `just_pressed` answers and the messages that wait are arguments.
pub mod Held
use laye.Base.{◌∷◌, [], ◌++◌, List, Bytes, Bool, true, false, not, ◌||◌, is_empty, if◌then◌else◌}
use laye.Base.Maps.{add, delete}

abbrev pub InputClaims : Type 0
InputClaims = List Bytes

unfoldable pub claim : Bytes → InputClaims → InputClaims
claim who c = add who c

unfoldable pub release : Bytes → InputClaims → InputClaims
release who c = delete who c

unfoldable pub release_all : InputClaims → InputClaims
release_all c = []

unfoldable pub is_captured : InputClaims → Bool
is_captured c = not (is_empty c)

pub data Intent : Type 0 where
  chat_focus : Intent
  drawer_toggle : Intent
  screenshot : Intent
  inventory_toggle : Intent
  release_all_claims : Intent

pub data KeyCode : Type 0 where
  escape : KeyCode
  key_t : KeyCode
  backquote : KeyCode
  backslash : KeyCode
  key_p : KeyCode
  tab : KeyCode

unfoldable pub emit_default_intents : (KeyCode → Bool) → List Intent
emit_default_intents just_pressed =
    (if just_pressed escape then release_all_claims ∷ [] else [])
    ++ ((if just_pressed key_t then chat_focus ∷ [] else [])
        ++ ((if just_pressed backquote || just_pressed backslash then drawer_toggle ∷ [] else [])
            ++ ((if just_pressed key_p then screenshot ∷ [] else [])
                ++ (if just_pressed tab then inventory_toggle ∷ [] else []))))

unfoldable pub handle_release_all : List Intent → InputClaims → InputClaims
unfolding release_all
handle_release_all [] c = c
handle_release_all (release_all_claims ∷ is) c = handle_release_all is (release_all c)
handle_release_all (chat_focus ∷ is) c = handle_release_all is c
handle_release_all (drawer_toggle ∷ is) c = handle_release_all is c
handle_release_all (screenshot ∷ is) c = handle_release_all is c
handle_release_all (inventory_toggle ∷ is) c = handle_release_all is c

-- The two systems, chained: `waiting` are the messages that others wrote since the last read.
unfoldable pub default_bindings : (KeyCode → Bool) → List Intent → InputClaims → InputClaims
unfolding emit_default_intents handle_release_all
default_bindings just_pressed waiting c =
    handle_release_all (waiting ++ emit_default_intents just_pressed) c
