-- ===== src/Views/SignatorySearch/Laws.antt =====
-- The signatory that the search hands to the form, against what the user has picked and typed.
use webca.Common.{
  ◌⊎◌, inl, inr, ◌≡◌, refl, String, Bool, true, false, ◌&&◌, Option, none, some, List, [], ◌∷◌,
  ◌++◌, if◌then◌else◌, ◌==◌, any, eq_refl, ◌||◌,
}
use mathlib.Core.Bool.{true≢false}
use webca.Common.Text.{truthy}
use webca.Types.{Certificate, Signatory}
use webca.Utils.ApiUtil.{shown}
use webca.Views.SignatorySearch.{
  Search, initial, find_id, on_select, on_type_password, Input, selects, types_password, focuses,
  handle, run, shows_password, after_call,
}

-- One of the search's fields is empty, or the form's signatory is that of the fields.
abbrev pub IsCurrent : Search → Option Signatory → Type 0
IsCurrent s signatory =
    ((truthy s.id && truthy s.password) ≡ false)
    ⊎ (signatory ≡ some (record { id = shown s.id; password = shown s.password }))

-- The same as a conclusion from two filled fields.
abbrev Follows : Search → Option Signatory → Type 0
Follows s signatory =
    truthy s.id ≡ true
    → truthy s.password ≡ true
    → signatory ≡ some (record { id = shown s.id; password = shown s.password })

both : (a b : Bool) (P : Type 0) → (a ≡ true → b ≡ true → P) → ((a && b) ≡ false) ⊎ P
both true true P h = inr (h refl refl)
both true false P h = inl refl
both false b P h = inl refl

Follows-IsCurrent :
    (s : Search) (signatory : Option Signatory) → Follows s signatory → IsCurrent s signatory
Follows-IsCurrent s signatory h = both (truthy s.id) (truthy s.password) _ h

IsCurrent-Follows :
    (s : Search) (signatory : Option Signatory) → IsCurrent s signatory → Follows s signatory
IsCurrent-Follows s signatory (inl empty) hi hp = absurd (true≢false (rw (hi, hp) at empty))
IsCurrent-Follows s signatory (inr current) hi hp = current

abbrev called : Bool → Signatory → Option Signatory → Option Signatory
called b new old = after_call (if b then some new else none) old

both_called :
    (a b : Bool) (new : Signatory) (old : Option Signatory)
    → a ≡ true
    → b ≡ true
    → called (a && b) new old ≡ some new
both_called a b new old ha hb = rw (ha, hb) refl

one_called :
    (a : Bool) (new : Signatory) (old : Option Signatory) → a ≡ true → called a new old ≡ some new
one_called a new old ha = rw ha refl

-- What a handler returns keeps the form's signatory current.
abbrev Renews : Option Signatory → Search × Option Signatory → Type 0
Renews old (s, call) = Follows s (after_call call old)

on_select-Renews :
    (certs : List Certificate) (value : String) (s : Search) (old : Option Signatory)
    → Renews old (on_select certs value s)
unfolding on_select
on_select-Renews certs value s old hi hp =
    both_called (truthy (find_id value certs)) (truthy s.password) _ old hi hp

on_type_password-Renews :
    (value : String) (s : Search) (old : Option Signatory) → Renews old (on_type_password value s)
unfolding on_type_password
on_type_password-Renews value s old hi hp = one_called (truthy s.id) _ old hi

guarded :
    (b : Bool) (old : Option Signatory) (r t : Search × Option Signatory)
    → Renews old r
    → Renews old t
    → Renews old (if b then t else r)
guarded true old r t hr ht = ht
guarded false old r t hr ht = hr

pub handle-IsCurrent :
    (s : Search) (old : Option Signatory) (i : Input)
    → IsCurrent s old
    → IsCurrent (handle s i).0 (after_call (handle s i).1 old)
unfolding handle
handle-IsCurrent s old (selects certs value) h =
    let r = on_select certs value s in
    Follows-IsCurrent r.0 (after_call r.1 old) (on_select-Renews certs value s old)
handle-IsCurrent s old (types_password value) h =
    let r = if shows_password s then on_type_password value s else (s, none) in
    Follows-IsCurrent r.0 (after_call r.1 old) (
      guarded (shows_password s) old (s, none) (on_type_password value s)
        (IsCurrent-Follows s old h) (on_type_password-Renews value s old))
handle-IsCurrent s old focuses h = h

run_keeps :
    (s : Search) (old : Option Signatory) (is : List Input)
    → IsCurrent s old
    → IsCurrent (run s old is).0 (run s old is).1
unfolding run
run_keeps s old [] h = h
run_keeps s old (i ∷ is) h =
    run_keeps (handle s i).0 (after_call (handle s i).1 old) is (handle-IsCurrent s old i h)

pub initial-IsCurrent : (signatory : Option Signatory) → IsCurrent initial signatory
initial-IsCurrent signatory = inl refl

-- After any sequence of inputs to a search that has just been shown, whatever signatory the form had
-- by then and whatever signatories the store held at each selection: if the selected id and the
-- typed password are both non-empty, the signatory of the form is the one with this id and this
-- password.
pub run-IsCurrent :
    (signatory : Option Signatory) (is : List Input)
    → truthy (run initial signatory is).0.id ≡ true
    → truthy (run initial signatory is).0.password ≡ true
    → let (s, signatory') = run initial signatory is in
      signatory' ≡ some (record { id = shown s.id; password = shown s.password })
run-IsCurrent signatory is =
    let r = run initial signatory is in
    IsCurrent-Follows r.0 r.1 (run_keeps initial signatory is (initial-IsCurrent signatory))

or_false : (a b : Bool) → (a || b) ≡ false → (a ≡ false) × (b ≡ false)
or_false false b h = (refl, h)
or_false true b h = (h, absurd (true≢false h))

find_id-append :
    (before after : List Certificate) (c : Certificate)
    → any (λ d. d.name == c.name) before ≡ false
    → find_id c.name (before ++ c ∷ after) ≡ some c.id
unfolding find_id
find_id-append [] after c h = rw (eq_refl c.name) refl
find_id-append (d ∷ ds) after c h =
    let (hd, hds) = or_false (d.name == c.name) (any (λ x. x.name == c.name) ds) h in
    rw hd (find_id-append ds after c hds)

-- Picking the name of the signatory `c` selects the id of `c` if no signatory before it in the
-- store's list has the same name, whatever names those after it have.
pub on_select-first :
    (before after : List Certificate) (c : Certificate) (s : Search)
    → any (λ d. d.name == c.name) before ≡ false
    → (on_select (before ++ c ∷ after) c.name s).0.id ≡ some c.id
unfolding on_select
on_select-first before after c s h = find_id-append before after c h
