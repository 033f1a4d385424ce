-- ===== src/Host/Input/Held.antt =====
-- The input is captured as long as somebody who claimed it has not let go.
use laye.Base.{
  ◌≡◌, ◌↔◌, refl, sym, ◌∙◌, ap, ◌∷◌, [], ◌++◌, List, Bytes, Bool, true, false, not, ◌||◌, ◌&&◌,
  bytes_eq, bytes_eq_refl, if◌then◌else◌, arith,
}
use laye.Base.Maps.{contains, contains-add, contains-delete}
use laye.Host.Input.{
  InputClaims, claim, release, release_all, is_captured, Intent, chat_focus, drawer_toggle,
  screenshot, inventory_toggle, release_all_claims, KeyCode, escape, emit_default_intents,
  handle_release_all, default_bindings,
}

-- What has been done with the claims, the latest first.
pub data Step : Type 0 where
  claimed : Bytes → Step
  released : Bytes → Step
  all_released : Step
  frame : (KeyCode → Bool) → List Intent → Step

abbrev pub run : List Step → InputClaims
run [] = []
run (claimed who ∷ steps) = claim who (run steps)
run (released who ∷ steps) = release who (run steps)
run (all_released ∷ steps) = release_all (run steps)
run (frame keys waiting ∷ steps) = default_bindings keys waiting (run steps)

abbrev pub asks_release : List Intent → Bool
asks_release [] = false
asks_release (release_all_claims ∷ is) = true
asks_release (chat_focus ∷ is) = asks_release is
asks_release (drawer_toggle ∷ is) = asks_release is
asks_release (screenshot ∷ is) = asks_release is
asks_release (inventory_toggle ∷ is) = asks_release is

-- Whether the latest step that concerns `who` is its claim.
abbrev pub holds : Bytes → List Step → Bool
holds who [] = false
holds who (claimed w ∷ steps) = bytes_eq w who || holds who steps
holds who (released w ∷ steps) = not (bytes_eq w who) && holds who steps
holds who (all_released ∷ steps) = false
holds who (frame keys waiting ∷ steps) =
    not (keys escape || asks_release waiting) && holds who steps

handle_release_all-append :
    (is js : List Intent) (c : InputClaims)
    → handle_release_all (is ++ js) c ≡ handle_release_all js (handle_release_all is c)
unfolding handle_release_all
handle_release_all-append [] js c = refl
handle_release_all-append (release_all_claims ∷ is) js c = handle_release_all-append is js []
handle_release_all-append (chat_focus ∷ is) js c = handle_release_all-append is js c
handle_release_all-append (drawer_toggle ∷ is) js c = handle_release_all-append is js c
handle_release_all-append (screenshot ∷ is) js c = handle_release_all-append is js c
handle_release_all-append (inventory_toggle ∷ is) js c = handle_release_all-append is js c

handle_release_all-nil : (is : List Intent) → handle_release_all is [] ≡ []
unfolding handle_release_all
handle_release_all-nil [] = refl
handle_release_all-nil (release_all_claims ∷ is) = handle_release_all-nil is
handle_release_all-nil (chat_focus ∷ is) = handle_release_all-nil is
handle_release_all-nil (drawer_toggle ∷ is) = handle_release_all-nil is
handle_release_all-nil (screenshot ∷ is) = handle_release_all-nil is
handle_release_all-nil (inventory_toggle ∷ is) = handle_release_all-nil is

handle_release_all_lem :
    (is : List Intent) (c : InputClaims)
    → handle_release_all is c ≡ (if asks_release is then [] else c)
unfolding handle_release_all release_all
handle_release_all_lem [] c = refl
handle_release_all_lem (release_all_claims ∷ is) c = handle_release_all-nil is
handle_release_all_lem (chat_focus ∷ is) c = handle_release_all_lem is c
handle_release_all_lem (drawer_toggle ∷ is) c = handle_release_all_lem is c
handle_release_all_lem (screenshot ∷ is) c = handle_release_all_lem is c
handle_release_all_lem (inventory_toggle ∷ is) c = handle_release_all_lem is c

emit_default_intents-asks_release :
    (keys : KeyCode → Bool) → asks_release (emit_default_intents keys) ≡ keys escape
unfolding emit_default_intents
emit_default_intents-asks_release keys = ground arith

contains-default_bindings :
    (who : Bytes) (keys : KeyCode → Bool) (waiting : List Intent) (c : InputClaims)
    → contains who (default_bindings keys waiting c)
      ≡ (not (keys escape || asks_release waiting) && contains who c)
unfolding default_bindings contains
contains-default_bindings who keys waiting c =
    rw
      (
        handle_release_all-append waiting (emit_default_intents keys) c,
        handle_release_all_lem waiting c,
        handle_release_all_lem (emit_default_intents keys),
        emit_default_intents-asks_release keys,
      )
      ground arith

contains-run : (who : Bytes) (steps : List Step) → contains who (run steps) ≡ holds who steps
unfolding contains claim release release_all
contains-run who [] = refl
contains-run who (claimed w ∷ steps) =
    ground (arith, contains-add w who (run steps), contains-run who steps)
contains-run who (released w ∷ steps) =
    ground (arith, contains-delete w who (run steps), contains-run who steps)
contains-run who (all_released ∷ steps) = refl
contains-run who (frame keys waiting ∷ steps) =
    contains-default_bindings who keys waiting (run steps)
    ∙ ap (λ x. not (keys escape || asks_release waiting) && x) (contains-run who steps)

contains-is_captured :
    (who : Bytes) (c : InputClaims) → contains who c ≡ true → is_captured c ≡ true
unfolding is_captured contains
contains-is_captured who [] h = h
contains-is_captured who (w ∷ c) h = refl

claimant : (c : InputClaims) → is_captured c ≡ true → (who : Bytes) × (contains who c ≡ true)
unfolding is_captured contains
claimant [] h = absurd (ground (arith, h))
claimant (w ∷ c) h = (w, ground (arith, bytes_eq_refl w))

-- However the input is claimed and let go, by name, by `release_all`, by the Escape key or by another
-- system's message, it is captured exactly as long as somebody's claim still holds.
pub is_captured-run :
    (steps : List Step)
    → (is_captured (run steps) ≡ true) ↔ ((who : Bytes) × (holds who steps ≡ true))
is_captured-run steps = (
  λ h. let (who, held) = claimant (run steps) h in (who, sym (contains-run who steps) ∙ held),
  λ (who, h). contains-is_captured who (run steps) (contains-run who steps ∙ h),
)
