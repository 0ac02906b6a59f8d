-- ===== src/Api/Query.antt =====
-- The query of the URL that lists certificates, read back.
use Prim.Native.Char.{Char, code}
use Prim.Native.String.{String, [], ◌∷◌}
use text.Mathlib.TextLemmas.{cons-append, nil-append, append_assoc}
use webca.Common.{
  ◌≡◌, refl, ap, ◌∙◌, true, none, some, List, [], ◌∷◌, ◌<>◌, map, eqb, if◌then◌else◌, All,
}
use webca.Common.Text.{join}
use webca.Common.Text.Split.{split, free, split-join, not_and, eqb_refl}
use webca.Api.{certificates_url, create_certificates_url}

-- The text before the first separator, and the text after it.
unfoldable pub before : Char → String → String
before sep [] = ""
before sep (c ∷ s) = let rest = before sep s in if eqb (code c) (code sep) then "" else c ∷ rest

unfoldable pub after : Char → String → String
after sep [] = ""
after sep (c ∷ s) = let rest = after sep s in if eqb (code c) (code sep) then s else rest

-- The parameters of a URL: `key=value` between `&`, behind the first `?`.
abbrev pub parameter : String → String × String
parameter s = (before "=" s, after "=" s)

abbrev pub read_query : String → List (String × String)
read_query url = map parameter (split "&" (after "?" url))

before-append :
    (sep : Char) (part s : String) → free sep part ≡ true → before sep (part <> (sep ∷ s)) ≡ part
unfolding before free
before-append sep [] s h = rw (nil-append (sep ∷ s), eqb_refl (code sep)) refl
before-append sep (c ∷ part) s h =
    let (other, rest) = not_and (eqb (code c) (code sep)) (free sep part) h in
    rw (cons-append c part, other, before-append sep part s rest) refl

after-append :
    (sep : Char) (part s : String) → free sep part ≡ true → after sep (part <> (sep ∷ s)) ≡ s
unfolding after free
after-append sep [] s h = rw (nil-append (sep ∷ s), eqb_refl (code sep)) refl
after-append sep (c ∷ part) s h =
    let (other, rest) = not_and (eqb (code c) (code sep)) (free sep part) h in
    rw (cons-append c part, other, after-append sep part s rest) refl

free-append :
    (sep : Char) (s t : String) → free sep s ≡ true → free sep t ≡ true → free sep (s <> t) ≡ true
unfolding free
free-append sep [] t h k = rw (nil-append t) k
free-append sep (c ∷ s) t h k =
    let (other, rest) = not_and (eqb (code c) (code sep)) (free sep s) h in
    rw (cons-append c s, other) (free-append sep s t rest k)

-- A text that starts with the separator.
first : (sep : Char) (s : String) → (sep ∷ "") <> s ≡ sep ∷ s
first sep s = cons-append sep "" s ∙ ap (λ t. sep ∷ t) (nil-append s)

keyed :
    (key value : String) → free "=" key ≡ true → parameter (key <> ("=" <> value)) ≡ (key, value)
keyed key value h =
    ap (λ s. parameter (key <> s)) (first "=" value)
    ∙ (ap (λ s. (s, after "=" (key <> ("=" ∷ value)))) (before-append "=" key value h)
        ∙ ap (λ s. (key, s)) (after-append "=" key value h))

-- The two parameters of the list of certificates.
abbrev account : String → String
account id = "accountId=" <> id

abbrev type : String → String
type t = "type=" <> t

abbrev IsFree : String → Type 0
IsFree s = free "&" s ≡ true

account-parameter : (id : String) → parameter (account id) ≡ ("accountId", id)
unfolding free
account-parameter id = ap parameter (append_assoc "accountId" "=" id) ∙ keyed "accountId" id refl

type-parameter : (t : String) → parameter (type t) ≡ ("type", t)
unfolding free
type-parameter t = ap parameter (append_assoc "type" "=" t) ∙ keyed "type" t refl

type-parameters : (ts : List String) → map parameter (map type ts) ≡ map (λ t. ("type", t)) ts
type-parameters [] = refl
type-parameters (t ∷ ts) = rw (type-parameter t, type-parameters ts) refl

types-IsFree : (ts : List String) → All IsFree ts → All IsFree (map type ts)
unfolding free
types-IsFree [] h = tt
types-IsFree (t ∷ ts) (h, hs) = (free-append "&" "type=" t refl h, types-IsFree ts hs)

-- A URL with this query is read as the parameters of its parts.
read_parts :
    (part : String) (parts : List String)
    → All IsFree (part ∷ parts)
    → read_query (certificates_url <> ("?" <> join "&" (part ∷ parts)))
      ≡ map parameter (part ∷ parts)
unfolding free
read_parts part parts h =
    ap (λ s. read_query (certificates_url <> s)) (first "?" (join "&" (part ∷ parts)))
    ∙ (ap (λ s. map parameter (split "&" s))
          (after-append "?" certificates_url (join "&" (part ∷ parts)) refl)
        ∙ ap (map parameter) (split-join "&" part parts h))

account_url : (id : String) → "?accountId=" <> id ≡ "?" <> account id
account_url id = append_assoc "?" "accountId=" id

url-none :
    (id : String)
    → create_certificates_url id none ≡ certificates_url <> ("?" <> join "&" (account id ∷ []))
unfolding create_certificates_url join
url-none id = ap (λ s. certificates_url <> s) (account_url id)

url-some :
    (id t : String) (ts : List String)
    → create_certificates_url id (some (t ∷ ts))
      ≡ certificates_url <> ("?" <> join "&" (account id ∷ map type (t ∷ ts)))
unfolding create_certificates_url join
url-some id t ts =
    let rest = "&" <> join "&" (map type (t ∷ ts)) in
    append_assoc certificates_url ("?accountId=" <> id) rest
    ∙ ap (λ s. certificates_url <> s)
        (ap (λ s. s <> rest) (account_url id) ∙ append_assoc "?" (account id) rest)

-- The URL that lists the certificates of an account, all of them or those of some types, is read back
-- as the account's id and the types in their order, if `&` occurs in none of them.
pub read_query-create_certificates_url :
    (id t : String) (ts : List String)
    → All (λ s. free "&" s ≡ true) (id ∷ t ∷ ts)
    → (read_query (create_certificates_url id none) ≡ ("accountId", id) ∷ [])
      × (read_query (create_certificates_url id (some (t ∷ ts)))
          ≡ ("accountId", id) ∷ map (λ s. ("type", s)) (t ∷ ts))
unfolding free
read_query-create_certificates_url id t ts (h, hs) =
    let free_account = free-append "&" "accountId=" id refl h in
    (
      ap read_query (url-none id)
          ∙ (read_parts (account id) [] (free_account, tt)
              ∙ ap (λ x. x ∷ []) (account-parameter id)),
      ap read_query (url-some id t ts)
          ∙ (read_parts (account id) (map type (t ∷ ts)) (free_account, types-IsFree (t ∷ ts) hs)
              ∙ (ap (λ x. x ∷ map parameter (map type (t ∷ ts))) (account-parameter id)
                  ∙ ap (λ l. ("accountId", id) ∷ l) (type-parameters (t ∷ ts)))),
    )
