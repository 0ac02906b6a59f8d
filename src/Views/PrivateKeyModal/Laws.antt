-- ===== src/Views/PrivateKeyModal/Laws.antt =====
-- What the modal shows, by the inputs since the last one that decides it.
use webca.Common.{◌≡◌, refl, ap, ◌∙◌, Bool, true, false, List, [], ◌∷◌, if◌then◌else◌}
use webca.Views.PrivateKeyModal.{
  Modal, initial, Input, opens, closes, submits, types, answers, handle, run, download_callback,
  on_finish, remove_error_on_typing,
}

-- What an input says of the error, of the dialog and of the flag `downloading`, given what held before.
abbrev pub error_after : Bool → List Input → Bool
error_after b [] = b
error_after b (types ∷ is) = error_after false is
error_after b (answers false ∷ is) = error_after true is
error_after b (_ ∷ is) = error_after b is

abbrev pub open_after : Bool → List Input → Bool
open_after b [] = b
open_after b (opens ∷ is) = open_after true is
open_after b (closes ∷ is) = open_after false is
open_after b (answers true ∷ is) = open_after false is
open_after b (_ ∷ is) = open_after b is

abbrev pub downloading_after : Bool → List Input → Bool
downloading_after b [] = b
downloading_after b (submits ∷ is) = downloading_after true is
downloading_after b (answers false ∷ is) = downloading_after false is
downloading_after b (_ ∷ is) = downloading_after b is

-- What the user sees of the modal: the dialog, the flag and the error.
abbrev pub shows : Modal → Bool × Bool × Bool
shows m = (m.modal_open, m.downloading, m.show_error)

typed_cases :
    (e : Bool) (m : Modal)
    → m.show_error ≡ e
    → (if e then record m { show_error = false } else m) ≡ record m { show_error = false }
typed_cases true m h = refl
typed_cases false m h = ap (λ b. record m { show_error = b }) h

typed : (m : Modal) → remove_error_on_typing m ≡ record m { show_error = false }
unfolding remove_error_on_typing
typed m = typed_cases m.show_error m refl

shows-run_from :
    (is : List Input) (m : Modal)
    → shows (run m is) ≡ (
      open_after m.modal_open is,
      downloading_after m.downloading is,
      error_after m.show_error is,
    )
unfolding run handle download_callback on_finish
shows-run_from [] m = refl
shows-run_from (opens ∷ is) m = shows-run_from is (record m { modal_open = true })
shows-run_from (closes ∷ is) m = shows-run_from is (record m { modal_open = false })
shows-run_from (submits ∷ is) m = shows-run_from is (record m { downloading = true })
shows-run_from (types ∷ is) m =
    ap (λ x. shows (run x is)) (typed m) ∙ shows-run_from is (record m { show_error = false })
shows-run_from (answers true ∷ is) m = shows-run_from is (record m { modal_open = false })
shows-run_from (answers false ∷ is) m =
    shows-run_from is (record m { show_error = true; downloading = false })

-- After any sequence of inputs, the dialog is open if the last of the clicks that open it, its
-- closings and the successful downloads is a click that opens it. The flag `downloading` is set if
-- the last of the submissions and the failed downloads is a submission, so that a successful
-- download leaves it as it was. The error is shown if the last of the failed downloads and the
-- changes of the password is a failed download.
pub shows-run :
    (is : List Input)
    → shows (run initial is)
      ≡ (open_after false is, downloading_after false is, error_after false is)
shows-run is = shows-run_from is initial
