-- ===== src/Utils/RsaUtil.antt =====
-- web-app/src/utils/rsautil.ts
use webca.Common.{ℕ, ◌*◌, String, ◌<>◌, Option, none, some, List, [], ◌∷◌, map, if◌then◌else◌, ◌==◌}
use webca.Common.Decimal.{decimal}
use webca.Constants.{root_ca, intermediate_ca, end_certificate}
use webca.Platform.{Platform}
use webca.World.{World, write_log, info}

abbrev pub base_key_size : ℕ
base_key_size = 1024

unfoldable pub key_sizes : List ℕ
key_sizes = map (λ n. n * base_key_size) (1 ∷ 2 ∷ 4 ∷ 8 ∷ [])

-- The cases of the `switch`; `none` is its default.
unfoldable pub listed_key_size : String → Option ℕ
listed_key_size t =
    if t == root_ca
    then some (8 * base_key_size)
    else if t == intermediate_ca
    then some (4 * base_key_size)
    else if t == end_certificate
    then some (2 * base_key_size)
    else none

unfoldable pub suggest_key_size : {p : Platform} → String → World p → ℕ × World p
unfolding listed_key_size
suggest_key_size certificate_type w = elim (listed_key_size certificate_type) [
  | some bits ↦ (bits, w)
  | none ↦ (
    base_key_size * 2,
    write_log info
        ("Unexpected certificateType: "
          <> (certificate_type <> (". Suggesting RSA key size: " <> decimal (base_key_size * 2))))
        w,
  )
]
