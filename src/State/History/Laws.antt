-- ===== src/State/History/Laws.antt =====
-- The store refines its history.
use webca.Common.{◌≡◌, refl, sym, ◌∙◌, ap, Option, none, some, List, [], ◌∷◌, ◌++◌}
use webca.State.Actions.{
  AnyAction, on_error, on_certificates, on_user, on_invitation, add_error, remove_error,
  add_certificates, remove_certificates, add_signing_certificates, remove_signing_certificates,
  select_certificate, add_selected_signatory, remove_selected_signatory, deselect_certificate,
  add_options, remove_options, add_user, remove_user, add_invitation,
}
use webca.State.{AppState, reducer, initial_state}
use webca.State.History.{
  View, state_of, empty_view, writes_error, writes_user, writes_invitation, writes_items,
  writes_certificate, writes_signatory, writes_options, writes_signing, get_or, first, latest,
  view_after, run,
}

-- One action, on views.
abbrev pub write : View → AnyAction → View
write v a = record {
  error = get_or (writes_error a) v.error;
  user = get_or (writes_user a) v.user;
  invitation = get_or (writes_invitation a) v.invitation;
  items = get_or (writes_items a) v.items;
  certificate = get_or (writes_certificate a) v.certificate;
  signatory = get_or (writes_signatory a) v.signatory;
  options = get_or (writes_options a) v.options;
  signing = get_or (writes_signing a) v.signing;
}

-- The reducer does to a state what the action does to its view.
pub reducer-state_of : (v : View) (a : AnyAction) → reducer (state_of v) a ≡ state_of (write v a)
unfolding reducer
reducer-state_of v (on_error (add_error e)) = refl
reducer-state_of v (on_error remove_error) = refl
reducer-state_of v (on_certificates (add_certificates items)) = refl
reducer-state_of v (on_certificates remove_certificates) = refl
reducer-state_of v (on_certificates (add_signing_certificates cs)) = refl
reducer-state_of v (on_certificates remove_signing_certificates) = refl
reducer-state_of v (on_certificates (select_certificate c)) = refl
reducer-state_of v (on_certificates (add_selected_signatory c)) = refl
reducer-state_of v (on_certificates remove_selected_signatory) = refl
reducer-state_of v (on_certificates deselect_certificate) = refl
reducer-state_of v (on_certificates (add_options o)) = refl
reducer-state_of v (on_certificates remove_options) = refl
reducer-state_of v (on_user (add_user u)) = refl
reducer-state_of v (on_user remove_user) = refl
reducer-state_of v (on_invitation (add_invitation i)) = refl

get_or-first {ℓ} :
    {X : Type ℓ} (o q : Option X) (d : X) → get_or (first o q) d ≡ get_or o (get_or q d)
get_or-first none q d = refl
get_or-first (some x) q d = refl

view_after-cons :
    (v : View) (a : AnyAction) (acts : List AnyAction)
    → view_after (write v a) acts ≡ view_after v (a ∷ acts)
unfolding view_after latest
view_after-cons v a acts = sym (simp get_or-first)

run-state_of :
    (v : View) (acts : List AnyAction) → run (state_of v) acts ≡ state_of (view_after v acts)
unfolding run view_after latest
run-state_of v [] = refl
run-state_of v (a ∷ acts) =
    ap (λ s. run s acts) (reducer-state_of v a)
    ∙ (run-state_of (write v a) acts ∙ ap state_of (view_after-cons v a acts))

-- The state of the store after any list of actions is the one in which every part is what the
-- latest action that writes it has put there, nothing if there is none, and every `loaded` flag
-- says whether its part is there.
pub run-eq-view_after :
    (acts : List AnyAction) → run initial_state acts ≡ state_of (view_after empty_view acts)
run-eq-view_after acts = run-state_of empty_view acts

-- One more action.
pub run-concat :
    (s : AppState) (acts : List AnyAction) (a : AnyAction)
    → run s (acts ++ a ∷ []) ≡ reducer (run s acts) a
unfolding run
run-concat s [] a = refl
run-concat s (b ∷ acts) a = run-concat (reducer s b) acts a
