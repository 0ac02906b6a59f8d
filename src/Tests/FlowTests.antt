-- ===== src/Tests/FlowTests.antt =====
-- The theorems about calls under way, effects and URLs, at concrete inputs.
use webca.Common.{◌≢◌, ◌≡◌, refl, ◌+◌, ◌≤◌, none, some, [], ◌∷◌, map}
use webca.Common.Dict.{lookup, insert}
use webca.Common.Text.Split.{free}
use webca.Containers.{login_callback}
use webca.Operations.Users
use webca.Constants.{auth_token_key, end_certificate, root_ca}
use webca.Platform.{plain}
use webca.World.{state}
use webca.Api.{create_certificates_url}
use webca.Api.Query.{read_query, read_query-create_certificates_url}
use webca.Operations.{resume}
use webca.Operations.Calls.{
  get_certificate_options, get_certificate, get_certificate_signatory, get_user,
}
use webca.Hooks.Effects.{render_session}
use webca.Hooks.Effects.Session.{Rests, rendered_and_answered, render_session-Rests}
use webca.System.{System, Reach, here}
use webca.System.Invariants.{idle}
use webca.System.Secrets.{hide_all}
use webca.System.Secrets.Steps.{Reach-hide_all}
use webca.System.Order.Laws.{resume-order}
use webca.State.History.Areas.{selection, options}
use webca.System.Authorization.{Carries, Reach-Carries}
use webca.System.Drain.{
  Server, Responses, none_yet, one_more, all_rounds, answered, drain, Responses-rounds, drain-idle,
}
use webca.Tests.SystemTests as SystemTests
use webca.Tests.SystemTests.{answered-Reach}
use webca.Tests.Samples.{alice, root, leaf, answer, refused, blank, signed_in_tab}

-- A certificate and the user are asked for.
abbrev asking : System plain
asking = record {
  world = signed_in_tab;
  pending = get_certificate "leaf-id" ∷ get_user "alice-id" ∷ [];
}

abbrev one_answer : System plain
one_answer =
    answered [] (get_user "alice-id" ∷ []) (get_certificate "leaf-id") (answer leaf) signed_in_tab

none_yet_of : (s : System plain) → Responses s 0 s
none_yet_of s = none_yet

Responses-rounds_example : 1 + all_rounds one_answer.pending ≤ all_rounds asking.pending
Responses-rounds_example = Responses-rounds (
    one_more (none_yet_of asking) [] (get_user "alice-id" ∷ []) (get_certificate "leaf-id")
      (answer leaf) refl)

-- A server that has one certificate and its signatory.
abbrev server : Server plain
server (get_certificate id) w = answer leaf
server (get_certificate_signatory id) w = answer root
server _ w = refused

drain-idle_example :
    ((drain (all_rounds asking.pending) server asking).pending ≡ [])
    × Reach asking (drain (all_rounds asking.pending) server asking)
drain-idle_example = drain-idle server asking

Reach-Carries_example :
    Carries "Bearer header.body.signature"
      (lookup auth_token_key (SystemTests.answered blank).world.session_storage)
unfolding lookup insert resume Users.login login_callback
Reach-Carries_example =
    Reach-Carries blank (SystemTests.answered blank) "Bearer header.body.signature" refl
      (answered-Reach blank) refl

render_session-Rests_example :
    let s = render_session none signed_in_tab in
    Rests (answer alice) (render_session s.dependencies (rendered_and_answered refused s))
render_session-Rests_example = render_session-Rests refused (answer alice) signed_in_tab

read_query-create_certificates_url_example :
    (read_query (create_certificates_url "acc-1" none) ≡ ("accountId", "acc-1") ∷ [])
    × (read_query (create_certificates_url "acc-1" (some (root_ca ∷ end_certificate ∷ [])))
        ≡ ("accountId", "acc-1") ∷ map (λ s. ("type", s)) (root_ca ∷ end_certificate ∷ []))
unfolding free
read_query-create_certificates_url_example =
    read_query-create_certificates_url "acc-1" root_ca (end_certificate ∷ [])
      (refl, (refl, (refl, tt)))

-- A login that is asked for, with its password and with another one.
Reach-hide_all_example :
    Reach (hide_all "other" (idle blank)) (hide_all "other" (SystemTests.answered blank))
Reach-hide_all_example = Reach-hide_all "other" (answered-Reach blank)

different : selection ≢ options
different = cc

resume-order_example :
    state
      (resume get_certificate_options refused
        (resume (get_certificate "leaf-id") (answer leaf) blank).0).0
    ≡ state
        (resume
          (get_certificate "leaf-id")
          (answer leaf)
          (resume get_certificate_options refused blank).0).0
resume-order_example =
    resume-order blank (idle blank) (get_certificate "leaf-id") get_certificate_options
      (answer leaf) refused refl here different tt tt
