-- ===== src/Views/NewCertificate/Laws.antt =====
-- The key size and the signatory that the form submits.
use webca.Common.{
  ◌∙◌, List, [], any, if◌then◌else◌, ℕ, ◌≡◌, refl, ap, String, Option, none, some, ◌∷◌,
}
use webca.Common.Decimal.{ℤ, pos, decimal}
use webca.Common.Decimal.RoundTrip.{parse_int-decimal}
use mathlib.Core.Bool.{Bool, true, false, true≢false}
use webca.Types.{Signatory}
use webca.Platform.{Platform}
use webca.World.{World}
use webca.Utils.RsaUtil.{suggest_key_size}
use webca.Views.NewCertificate.{
  Form, Values, Input, picks_algorithm, picks_type, finds, handle, run, show_signatory_search,
  set_signatory, select_algorithm, select_certificate_type, parsed, key_size_or_suggested,
  on_finish,
}

-- The option of the form for a key size, or no option.
abbrev pub as_option : Option ℕ → Option String
as_option none = none
as_option (some n) = some (decimal n)

-- The size that is submitted, with the world after it is found.
abbrev pub or_suggested : {p : Platform} → Option ℕ → String → World p → ℕ × World p
or_suggested none type w = suggest_key_size type w
or_suggested (some n) type w = (n, w)

abbrev as_integer : {p : Platform} → ℕ × World p → ℤ × World p
as_integer (n, w) = (pos n, w)

submitted :
    {p : Platform} (k : Option String) (o : Option ℕ) (type : String) (w : World p)
    → k ≡ as_option o
    → key_size_or_suggested (parsed k) type w ≡ as_integer (or_suggested o type w)
unfolding key_size_or_suggested
submitted k none type w h = rw h refl
submitted k (some n) type w h = rw (h, parse_int-decimal n) refl

-- The request of the form carries the key size that was chosen among the options, as a number, and
-- when none was chosen, the one suggested for the type of the certificate. A chosen size leaves the
-- world, its log included, as it was; otherwise the world is that after the suggestion.
pub on_finish-key_size :
    {p : Platform} (f : Form) (v : Values) (o : Option ℕ) (w : World p)
    → v.rsa_key_size ≡ as_option o
    → ((on_finish f v w).0.options ≡ ("keySize", pos (or_suggested o v.type w).0) ∷ [])
      × ((on_finish f v w).1 ≡ (or_suggested o v.type w).1)
unfolding on_finish
on_finish-key_size f v o w h =
    let e = submitted v.rsa_key_size o v.type w h in
    (ap (λ r. ("keySize", r.0) ∷ []) e, ap (λ r. r.1) e)

-- Whether an input brings a signatory.
abbrev pub finds_one : Input → Bool
finds_one (finds s) = true
finds_one _ = false

run-without_signatory :
    (f : Form) (is : List Input) → any finds_one is ≡ false → (run f is).signatory ≡ f.signatory
unfolding run handle
run-without_signatory f [] h = refl
run-without_signatory f (picks_algorithm a ∷ is) h =
    run-without_signatory (select_algorithm a f) is h
run-without_signatory f (picks_type t ∷ is) h =
    run-without_signatory (select_certificate_type t f) is h
run-without_signatory f (finds s ∷ is) h = absurd (true≢false h)

found :
    (f : Form) (s : Signatory) (b : Bool)
    → b ≡ true
    → (if b then set_signatory s f else f).signatory ≡ some s
unfolding set_signatory
found f s b h = rw h refl

-- Once the search, while it is shown, has found a signatory, this is submitted with the form
-- whatever is picked in the two dropdowns after that, if no other signatory is found.
pub on_finish-signatory :
    {p : Platform} (f : Form) (s : Signatory) (later : List Input) (v : Values) (w : World p)
    → show_signatory_search f.certificate_type ≡ true
    → any finds_one later ≡ false
    → (on_finish (run f (finds s ∷ later)) v w).0.signatory ≡ some s
unfolding on_finish run handle
on_finish-signatory f s later v w shown h =
    run-without_signatory (handle f (finds s)) later h
    ∙ found f s (show_signatory_search f.certificate_type) shown
