-- ===== src/State/Consistency.antt =====
-- The invariant of the store's state: a `loaded` flag says whether the slice's data is there.
use webca.Common.{◌≡◌, refl, false, is_some, [], arith}
use webca.State.Actions.{AnyAction}
use webca.State.{AppState, initial_state, reducer}

pub record IsConsistent (s : AppState) : Type 0 where
  pub user : s.user.loaded ≡ is_some s.user.user
  pub invitation : s.invitation.loaded ≡ is_some s.invitation.invitation
  pub items : s.certificates.certificates.loaded ≡ is_some s.certificates.certificates.items
  pub signatories :
      s.certificates.signatories.loaded ≡ false → s.certificates.signatories.certificates ≡ []

pub initial_state-IsConsistent : IsConsistent initial_state
initial_state-IsConsistent = record {
  user = refl;
  invitation = refl;
  items = refl;
  signatories = λ _. refl;
}

-- Whatever the action, the reducer keeps a state consistent in which the flags `loaded` of the user,
-- the invitation and the certificates say whether their data is there, and no signatories are listed
-- before they are loaded.
pub reducer-IsConsistent :
    (s : AppState) (a : AnyAction) → IsConsistent s → IsConsistent (reducer s a)
unfolding reducer
reducer-IsConsistent s a h = ground arith
