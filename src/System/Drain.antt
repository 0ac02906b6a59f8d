-- ===== src/System/Drain.antt =====
-- The calls under way come to an end: a response leads to at most one more call, which leads to none.
use webca.Common.{
  ℕ, zero, suc, ◌+◌, ◌≤◌, ◌<◌, ◌≡◌, refl, ap, String, Option, none, some, List, [], ◌∷◌, ◌++◌,
  arith,
}
use webca.Common.Text.{truthy}
use webca.Types.{HttpResponse}
use webca.Platform.{Platform}
use webca.World.{World}
use webca.Operations.{resume}
use webca.Operations.Calls.{
  Call, Answer, sign_up, login, get_user, create_invitation, get_invitation, create_certificate,
  get_certificate, get_certificate_signatory, get_certificates_by_account_id,
  get_signing_certificates, download_certificate_body, download_certificate_private_key,
  get_certificate_options,
}
use webca.Operations.Certificates
use webca.System.Closed.{with_body, if_keeps}
use webca.System.{System, Reach, here, next, Step, response}

-- How many responses a call can lead to.
abbrev pub rounds : {p : Platform} → Call p → ℕ
rounds (create_certificate req callback) = 2
rounds (get_certificate id) = 2
rounds _ = 1

abbrev pub all_rounds : {p : Platform} → List (Call p) → ℕ
all_rounds [] = 0
all_rounds (c ∷ cs) = rounds c + all_rounds cs

-- What the server answers, for each call and each state of the tab.
abbrev pub Server : Platform → Type 0
Server p = (c : Call p) → World p → HttpResponse (Answer c)

module _ {p : Platform} where
  all_rounds-append :
      (xs ys : List (Call p)) → all_rounds (xs ++ ys) ≡ all_rounds xs + all_rounds ys
  all_rounds-append [] ys = omega arith
  all_rounds-append (x ∷ xs) ys = omega (arith, all_rounds-append xs ys)

  load_signatory_rounds :
      (id : Option String) (w : World p) → all_rounds (Certificates.load_signatory id w).1 ≤ 1
  unfolding Certificates.load_signatory
  load_signatory_rounds id w =
      if_keeps {A = World p × List (Call p)} (λ x. all_rounds x.1 ≤ 1) (truthy id) (omega arith)
        (omega arith)

  -- A response makes the rounds that are left fewer.
  resume-rounds :
      (c : Call p) (r : HttpResponse (Answer c)) (w : World p)
      → all_rounds (resume c r w).1 < rounds c
  unfolding resume Certificates.create_certificate Certificates.get_certificate
  resume-rounds (create_certificate req callback) r w =
      elim r.body
        as (λ o.
          all_rounds (Certificates.create_certificate req callback (with_body r o) w).1 < 2) [
            | none ↦ omega arith
            | some body ↦ omega (arith, load_signatory_rounds body.signatory_id _)
          ]
  resume-rounds (get_certificate id) r w =
      elim r.body as (λ o. all_rounds (Certificates.get_certificate id (with_body r o) w).1 < 2) [
        | none ↦ omega arith
        | some body ↦ omega (arith, load_signatory_rounds body.signatory_id _)
      ]
  resume-rounds (sign_up req callback) r w = omega arith
  resume-rounds (login req callback) r w = omega arith
  resume-rounds (get_user id) r w = omega arith
  resume-rounds (create_invitation req callback) r w = omega arith
  resume-rounds (get_invitation id) r w = omega arith
  resume-rounds (get_certificate_signatory id) r w = omega arith
  resume-rounds (get_certificates_by_account_id id) r w = omega arith
  resume-rounds (get_signing_certificates id) r w = omega arith
  resume-rounds (download_certificate_body id full) r w = omega arith
  resume-rounds (download_certificate_private_key id pw callback) r w = omega arith
  resume-rounds get_certificate_options r w = omega arith

  -- The system after a response to the call `c`, which stands behind `before`.
  abbrev pub answered :
      (before after : List (Call p)) (c : Call p) → HttpResponse (Answer c) → World p → System p
  answered before after c r w = record {
    world = (resume c r w).0;
    pending = (resume c r w).1 ++ (before ++ after);
  }

  -- `Responses s n t`: from `s`, `n` responses and nothing else lead to `t`.
  pub data Responses (s : System p) : ℕ → System p → Type 0 where
    none_yet : Responses s 0 s
    one_more :
        {n : ℕ} {t : System p}
        → Responses s n t
        → (before after : List (Call p)) (c : Call p) (r : HttpResponse (Answer c))
        → t.pending ≡ before ++ c ∷ after
        → Responses s (suc n) (answered before after c r t.world)

  answered-rounds :
      (before after : List (Call p)) (c : Call p) (r : HttpResponse (Answer c)) (w : World p)
      → all_rounds (answered before after c r w).pending < all_rounds (before ++ c ∷ after)
  answered-rounds before after c r w = omega (
    arith,
    all_rounds-append (resume c r w).1 (before ++ after),
    all_rounds-append before after,
    all_rounds-append before (c ∷ after),
    resume-rounds c r w,
  )

  -- However the responses are ordered and whatever they bring, as long as nothing else happens there
  -- are at most as many of them as the rounds of the calls that were under way: two for a request
  -- that creates or reads a certificate, one for every other.
  pub Responses-rounds :
      {s t : System p} {n : ℕ} → Responses s n t → n + all_rounds t.pending ≤ all_rounds s.pending
  Responses-rounds none_yet = omega arith
  Responses-rounds (one_more {n} {t} rs before after c r listed) =
      omega
        (arith, Responses-rounds rs, ap all_rounds listed, answered-rounds before after c r t.world)

  -- The calls answered one after the other, the latest first, for at most `fuel` responses.
  unfoldable pub drain : ℕ → Server p → System p → System p
  drain zero server s = s
  drain (suc fuel) server s = elim s.pending [
    | [] ↦ s
    | c ∷ rest ↦ drain fuel server (answered [] rest c (server c s.world) s.world)
  ]

  Reach-first : {s t u : System p} → Step s t → Reach t u → Reach s u
  Reach-first st here = next here st
  Reach-first st (next r last) = next (Reach-first st r) last

  abbrev system : World p → List (Call p) → System p
  system w cs = record { world = w; pending = cs }

  drained :
      (fuel : ℕ) (server : Server p) (w : World p) (cs : List (Call p))
      → all_rounds cs ≤ fuel
      → ((drain fuel server (system w cs)).pending ≡ [])
        × Reach (system w cs) (drain fuel server (system w cs))
  unfolding drain
  drained zero server w [] h = (refl, here)
  drained (suc fuel) server w [] h = (refl, here)
  drained zero server w (c ∷ cs) h = absurd (omega (arith, resume-rounds c (server c w) w))
  drained (suc fuel) server w (c ∷ cs) h =
      let (idle, reached) =
        drained fuel server (resume c (server c w) w).0 ((resume c (server c w) w).1 ++ cs)
          (omega (arith, answered-rounds [] cs c (server c w) w)) in
      (idle, Reach-first (response [] cs c (server c w) refl refl) reached)

  -- Whatever the server answers, if it answers every call, then as many responses as the rounds of the
  -- calls under way lead from every system to one in which no call is under way.
  pub drain-idle :
      (server : Server p) (s : System p)
      → ((drain (all_rounds s.pending) server s).pending ≡ [])
        × Reach s (drain (all_rounds s.pending) server s)
  drain-idle server s = drained (all_rounds s.pending) server s.world s.pending (omega arith)
