-- ===== src/Views/PrivateKeyModal.antt =====
-- certificate/components/PrivateKeyModal.tsx, with the state `modalOpen` of CertificateDisplay.tsx.
pub mod Laws
use webca.Common.{String, Bool, true, false, List, [], ◌∷◌, if◌then◌else◌}

pub record Modal : Type 0 where
  pub modal_open : Bool
  pub downloading : Bool
  pub show_error : Bool

abbrev pub initial : Modal
initial = record { modal_open = false; downloading = false; show_error = false }

-- `onClick` of the download button, `onClose`
abbrev pub open_modal : Modal → Modal
open_modal m = record m { modal_open = true }

abbrev pub on_close : Modal → Modal
on_close m = record m { modal_open = false }

unfoldable pub download_callback : Bool → Modal → Modal
download_callback success m =
    if success then on_close m else record m { show_error = true; downloading = false }

-- `onFinish` calls `download` with the password, and then `setDownloading(true)`. The answer comes
-- later.
unfoldable pub on_finish : Modal → Modal
on_finish m = record m { downloading = true }

unfoldable pub remove_error_on_typing : Modal → Modal
remove_error_on_typing m = if m.show_error then record m { show_error = false } else m

pub data Input : Type 0 where
  opens closes submits types : Input
  answers : Bool → Input

unfoldable pub handle : Modal → Input → Modal
unfolding download_callback on_finish remove_error_on_typing
handle m opens = open_modal m
handle m closes = on_close m
handle m submits = on_finish m
handle m types = remove_error_on_typing m
handle m (answers success) = download_callback success m

unfoldable pub run : Modal → List Input → Modal
unfolding handle
run m [] = m
run m (i ∷ is) = run (handle m i) is
