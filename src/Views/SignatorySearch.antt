-- ===== src/Views/SignatorySearch.antt =====
-- certificates/components/SignatorySearch/SignatorySearch.tsx: the state of the component, and the calls
-- of `setSignatory`, with which it writes the state `signatory` of the form around it.
pub mod Laws
use webca.Common.{
  String, Bool, true, false, ◌&&◌, Option, none, some, List, [], ◌∷◌, map, if◌then◌else◌, ◌==◌,
}
use webca.Common.Text.{truthy}
use webca.Types.{Certificate, Signatory}
use webca.Utils.ApiUtil.{shown}

pub record Search : Type 0 where
  pub id : Option String
  pub password : Option String
  pub open_list : Bool

abbrev pub initial : Search
initial = record { id = none; password = none; open_list = true }

-- The loop of `findId`.
unfoldable pub find_id : String → List Certificate → Option String
find_id name [] = none
find_id name (cert ∷ certs) = if cert.name == name then some cert.id else find_id name certs

-- `mapCertificatesToOptions`: the values of the options.
unfoldable pub map_certificates_to_options : List Certificate → List String
map_certificates_to_options certs = map (λ cert. cert.name) certs

-- The two handlers return the state, and the signatory that they hand to `setSignatory` if they call
-- it.
unfoldable pub on_select : List Certificate → String → Search → Search × Option Signatory
unfolding find_id
on_select signatories value s =
    let new_id = find_id value signatories in
    (
      record s { id = new_id; open_list = false },
      if truthy new_id && truthy s.password
          then some (record { id = shown new_id; password = shown s.password })
          else none,
    )

unfoldable pub on_type_password : String → Search → Search × Option Signatory
on_type_password value s = (
  record s { password = some value },
  if truthy s.id then some (record { id = shown s.id; password = value }) else none,
)

-- `onFocus` and `onChange` of the search field.
abbrev pub open_options : Search → Search
open_options s = record s { open_list = true }

-- Whether the password field is shown.
abbrev pub shows_password : Search → Bool
shows_password s = truthy s.id

-- What the user does in the component; the signatories are those of the store at that time.
pub data Input : Type 0 where
  selects : List Certificate → String → Input
  types_password : String → Input
  focuses : Input

unfoldable pub handle : Search → Input → Search × Option Signatory
unfolding on_select on_type_password
handle s (selects signatories value) = on_select signatories value s
handle s (types_password value) = if shows_password s then on_type_password value s else (s, none)
handle s focuses = (open_options s, none)

-- The signatory of the form after `setSignatory` was called, or was not called.
abbrev pub after_call : Option Signatory → Option Signatory → Option Signatory
after_call none signatory = signatory
after_call (some handed) signatory = some handed

-- The state of the search, and the signatory of the form, after some inputs.
unfoldable pub run : Search → Option Signatory → List Input → Search × Option Signatory
unfolding handle
run s signatory [] = (s, signatory)
run s signatory (i ∷ is) = let (s', call) = handle s i in run s' (after_call call signatory) is
