-- ===== src/State/Certificates.antt =====
-- state/certificates/reducer.ts, one function for each function of the source.
use webca.Common.{none, some, List, [], true, false}
use webca.Types.{Certificate, CertificateOptions, CertificateState, Page}
use webca.State.Actions.{AnyAction, on_certificates, CertificateAction}

abbrev pub initial_certificates : CertificateState
initial_certificates = record {
  certificates = record { items = none; loaded = false };
  selected = record { certificate = none; signatory = none };
  options = none;
  signatories = record { certificates = []; loaded = false };
}

add_certificates : CertificateState → Page Certificate → CertificateState
add_certificates s items = record s {
  certificates = record (s.certificates) { loaded = true; items = some items };
}

add_options : CertificateState → CertificateOptions → CertificateState
add_options s options = record s { options = some options }

add_signing_certificates : CertificateState → List Certificate → CertificateState
add_signing_certificates s certs = record s {
  signatories = record (s.signatories) { loaded = true; certificates = certs };
}

select_certificate : CertificateState → Certificate → CertificateState
select_certificate s c = record s { selected = record (s.selected) { certificate = some c } }

add_selected_signatory : CertificateState → Certificate → CertificateState
add_selected_signatory s c = record s { selected = record (s.selected) { signatory = some c } }

remove_certificates : CertificateState → CertificateState
remove_certificates s = record s {
  certificates = record (s.certificates) { items = none; loaded = false };
}

remove_options : CertificateState → CertificateState
remove_options s = record s { options = none }

deselect_certificate : CertificateState → CertificateState
deselect_certificate s = record s { selected = record { certificate = none; signatory = none } }

remove_signing_certificates : CertificateState → CertificateState
remove_signing_certificates s = record s {
  signatories = record (s.signatories) { certificates = []; loaded = false };
}

remove_selected_signatory : CertificateState → CertificateState
remove_selected_signatory s = record s { selected = record (s.selected) { signatory = none } }

-- `certificateReducer`
certificate_reducer : CertificateState → CertificateAction → CertificateState
certificate_reducer s (CertificateAction.select_certificate c) = select_certificate s c
certificate_reducer s (CertificateAction.add_selected_signatory c) = add_selected_signatory s c
certificate_reducer s _ = s

-- `voidReducer`
void_reducer : CertificateState → CertificateAction → CertificateState
void_reducer s CertificateAction.remove_certificates = remove_certificates s
void_reducer s CertificateAction.remove_options = remove_options s
void_reducer s CertificateAction.deselect_certificate = deselect_certificate s
void_reducer s CertificateAction.remove_signing_certificates = remove_signing_certificates s
void_reducer s CertificateAction.remove_selected_signatory = remove_selected_signatory s
void_reducer s _ = s

-- The table of `handleAction` calls.
handle : CertificateState → CertificateAction → CertificateState
handle s (CertificateAction.add_certificates items) = add_certificates s items
handle s (CertificateAction.select_certificate c) =
    certificate_reducer s (CertificateAction.select_certificate c)
handle s (CertificateAction.add_selected_signatory c) =
    certificate_reducer s (CertificateAction.add_selected_signatory c)
handle s (CertificateAction.add_options options) = add_options s options
handle s (CertificateAction.add_signing_certificates certs) = add_signing_certificates s certs
handle s CertificateAction.remove_certificates =
    void_reducer s CertificateAction.remove_certificates
handle s CertificateAction.remove_options = void_reducer s CertificateAction.remove_options
handle s CertificateAction.deselect_certificate =
    void_reducer s CertificateAction.deselect_certificate
handle s CertificateAction.remove_signing_certificates =
    void_reducer s CertificateAction.remove_signing_certificates
handle s CertificateAction.remove_selected_signatory =
    void_reducer s CertificateAction.remove_selected_signatory

unfoldable pub certificates_reducer : CertificateState → AnyAction → CertificateState
unfolding handle certificate_reducer void_reducer add_certificates add_options
    add_signing_certificates select_certificate add_selected_signatory remove_certificates
    remove_options deselect_certificate remove_signing_certificates remove_selected_signatory
certificates_reducer s (on_certificates a) = handle s a
certificates_reducer s _ = s
