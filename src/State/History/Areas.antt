-- ===== src/State/History/Areas.antt =====
-- Which parts of the store an action writes, and that actions of different areas can be swapped.
use webca.Common.{◌≡◌, ◌≢◌, refl, sym, ap, ◌∙◌, ◌⊎◌, inl, inr, Option, none, List, [], ◌∷◌, All}
use webca.State.Actions.{
  AnyAction, on_error, on_certificates, on_user, on_invitation, add_error, remove_error,
  add_certificates, remove_certificates, add_signing_certificates, remove_signing_certificates,
  select_certificate, add_selected_signatory, remove_selected_signatory, deselect_certificate,
  add_options, remove_options, add_user, remove_user, add_invitation,
}
use webca.State.History.{
  View, state_of, writes_error, writes_user, writes_invitation, writes_items, writes_certificate,
  writes_signatory, writes_options, writes_signing, get_or, run,
}
use webca.State.History.Laws.{write, reducer-state_of}

-- The error, the user and the invitation are one area, since a failed call for one of them writes the
-- error; a call that only saves a file writes nothing.
pub data Area : Type 0 where
  account selection listing signing options files : Area

abbrev pub area_of : AnyAction → Area
area_of (on_error a) = account
area_of (on_user a) = account
area_of (on_invitation a) = account
area_of (on_certificates (add_certificates items)) = listing
area_of (on_certificates remove_certificates) = listing
area_of (on_certificates (add_signing_certificates cs)) = signing
area_of (on_certificates remove_signing_certificates) = signing
area_of (on_certificates (select_certificate c)) = selection
area_of (on_certificates (add_selected_signatory c)) = selection
area_of (on_certificates remove_selected_signatory) = selection
area_of (on_certificates deselect_certificate) = selection
area_of (on_certificates (add_options o)) = options
area_of (on_certificates remove_options) = options

-- What is written to a part of the area `part`: nothing, unless the action is of that area.
abbrev Leaves : {X : Type 0} → Area → Option X → Area → Type 0
Leaves a written part = (written ≡ none) ⊎ (a ≡ part)

record Owns (k : Area) (a : AnyAction) : Type 0 where
  error : Leaves k (writes_error a) account
  user : Leaves k (writes_user a) account
  invitation : Leaves k (writes_invitation a) account
  items : Leaves k (writes_items a) listing
  certificate : Leaves k (writes_certificate a) selection
  signatory : Leaves k (writes_signatory a) selection
  options : Leaves k (writes_options a) options
  signing : Leaves k (writes_signing a) signing

none_written : {X : Type 0} {k part : Area} → Leaves {X = X} k none part
none_written = inl refl

own : {X : Type 0} {o : Option X} {k : Area} → Leaves k o k
own = inr refl

area_of-Owns : (a : AnyAction) → Owns (area_of a) a
area_of-Owns (on_error (add_error e)) = search (none_written, own)
area_of-Owns (on_error remove_error) = search (none_written, own)
area_of-Owns (on_certificates (add_certificates items)) = search (none_written, own)
area_of-Owns (on_certificates remove_certificates) = search (none_written, own)
area_of-Owns (on_certificates (add_signing_certificates cs)) = search (none_written, own)
area_of-Owns (on_certificates remove_signing_certificates) = search (none_written, own)
area_of-Owns (on_certificates (select_certificate c)) = search (none_written, own)
area_of-Owns (on_certificates (add_selected_signatory c)) = search (none_written, own)
area_of-Owns (on_certificates remove_selected_signatory) = search (none_written, own)
area_of-Owns (on_certificates deselect_certificate) = search (none_written, own)
area_of-Owns (on_certificates (add_options o)) = search (none_written, own)
area_of-Owns (on_certificates remove_options) = search (none_written, own)
area_of-Owns (on_user (add_user u)) = search (none_written, own)
area_of-Owns (on_user remove_user) = search (none_written, own)
area_of-Owns (on_invitation (add_invitation i)) = search (none_written, own)

-- Two writes to a part of which at most one is there.
get_or-swap :
    {X : Type 0} {k l part : Area} (o q : Option X) (x : X)
    → k ≢ l
    → Leaves k o part
    → Leaves l q part
    → get_or q (get_or o x) ≡ get_or o (get_or q x)
get_or-swap o q x ne (inl e) b = rw e refl
get_or-swap o q x ne (inr e) (inl e') = rw e' refl
get_or-swap o q x ne (inr e) (inr e') = absurd (ne (e ∙ sym e'))

write-swap :
    (v : View) (a b : AnyAction) → area_of a ≢ area_of b → write (write v a) b ≡ write (write v b) a
write-swap v a b ne =
    let h = area_of-Owns a in
    let k = area_of-Owns b in
    rw
      (
        get_or-swap _ _ v.error ne h.error k.error,
        get_or-swap _ _ v.user ne h.user k.user,
        get_or-swap _ _ v.invitation ne h.invitation k.invitation,
        get_or-swap _ _ v.items ne h.items k.items,
        get_or-swap _ _ v.certificate ne h.certificate k.certificate,
        get_or-swap _ _ v.signatory ne h.signatory k.signatory,
        get_or-swap _ _ v.options ne h.options k.options,
        get_or-swap _ _ v.signing ne h.signing k.signing,
      )
      refl

-- A list of actions, on views.
write_all : View → List AnyAction → View
write_all v [] = v
write_all v (a ∷ acts) = write_all (write v a) acts

-- Actions of one area.
abbrev pub AreIn : Area → List AnyAction → Type 0
AreIn k = All (λ a. area_of a ≡ k)

write-past :
    (v : View) (k l : Area) (b : AnyAction) (acts : List AnyAction)
    → k ≢ l
    → AreIn k acts
    → area_of b ≡ l
    → write (write_all v acts) b ≡ write_all (write v b) acts
unfolding write_all
write-past v k l b [] ne h at_l = refl
write-past v k l b (a ∷ acts) ne (at_k, h) at_l =
    write-past (write v a) k l b acts ne h at_l
    ∙ ap (λ u. write_all u acts) (write-swap v a b (λ e. ne (sym at_k ∙ (e ∙ at_l))))

write_all-swap :
    (v : View) (k l : Area) (acts others : List AnyAction)
    → k ≢ l
    → AreIn k acts
    → AreIn l others
    → write_all (write_all v acts) others ≡ write_all (write_all v others) acts
unfolding write_all
write_all-swap v k l acts [] ne h hs = refl
write_all-swap v k l acts (b ∷ others) ne h (at_l, hs) =
    ap (λ u. write_all u others) (write-past v k l b acts ne h at_l)
    ∙ write_all-swap (write v b) k l acts others ne h hs

run-write_all :
    (v : View) (acts : List AnyAction) → run (state_of v) acts ≡ state_of (write_all v acts)
unfolding run write_all
run-write_all v [] = refl
run-write_all v (a ∷ acts) =
    ap (λ s. run s acts) (reducer-state_of v a) ∙ run-write_all (write v a) acts

two_runs :
    (v : View) (acts others : List AnyAction)
    → run (run (state_of v) acts) others ≡ state_of (write_all (write_all v acts) others)
two_runs v acts others =
    ap (λ s. run s others) (run-write_all v acts) ∙ run-write_all (write_all v acts) others

-- Actions of two areas can be dispatched in either order.
pub run-swap :
    (v : View) (k l : Area) (acts others : List AnyAction)
    → k ≢ l
    → AreIn k acts
    → AreIn l others
    → run (run (state_of v) acts) others ≡ run (run (state_of v) others) acts
run-swap v k l acts others ne h hs =
    two_runs v acts others
    ∙ (ap state_of (write_all-swap v k l acts others ne h hs) ∙ sym (two_runs v others acts))
