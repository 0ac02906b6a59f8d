-- ===== src/Common/Dict.antt =====
-- A dictionary as an association list, the newest entry first: the headers of a request, a
-- browser's storage, a table of messages. The program never lists the keys, so their order
-- is not visible to it.
use Prim.Native.String.{String}
use mathlib.Core.Path.{◌≡◌}
use mathlib.Core.Option.{Option, none, some}
use mathlib.Core.List.{List, [], ◌∷◌}
use native.Mathlib.Omega.{arith}
use text.Mathlib.Text.{◌==◌}
use text.Mathlib.TextEquality.{eq_iff}
use webca.Common.Tests.{if◌then◌else◌}

abbrev pub Dict : Type 0
Dict = List (String × String)

-- `m[key]`, `storage.getItem(key)`
unfoldable pub lookup : String → Dict → Option String
lookup _ [] = none
lookup key (entry ∷ rest) = if entry.0 == key then some entry.1 else lookup key rest

-- `storage.removeItem(key)`
unfoldable pub remove : String → Dict → Dict
remove _ [] = []
remove key (entry ∷ rest) =
    let others = remove key rest in if entry.0 == key then others else entry ∷ others

-- `{ ...m, [key]: value }`, `storage.setItem(key, value)`
unfoldable pub insert : String → String → Dict → Dict
unfolding remove
insert key value dict = (key, value) ∷ remove key dict

pub lookup-remove :
    (gone key : String) (dict : Dict)
    → lookup key (remove gone dict) ≡ (if gone == key then none else lookup key dict)
unfolding lookup remove
lookup-remove gone key [] = ground arith
lookup-remove gone key (entry ∷ rest) =
    ground
      (arith, eq_iff gone key, eq_iff entry.0 gone, eq_iff entry.0 key, lookup-remove gone key rest)

pub lookup-insert :
    (set key value : String) (dict : Dict)
    → lookup key (insert set value dict) ≡ (if set == key then some value else lookup key dict)
unfolding lookup insert
lookup-insert set key value dict = ground (arith, eq_iff set key, lookup-remove set key dict)

pub ruleset dict_laws = (lookup-insert, lookup-remove)
