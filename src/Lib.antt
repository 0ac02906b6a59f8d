-- ===== src/Lib.antt =====
-- webca: the web app of the certificate authority, web-app/src.
--
-- The program. The web app keeps its state in a Redux store of four slices (error, certificates,
-- user, invitation), which pure reducers change. Gestures of the user and effects of React hooks
-- dispatch thunks; a thunk calls the API, awaits the answer and dispatches what it brings. Beside
-- the store there is the HTTP client with its headers, the session storage with the credentials,
-- the local storage with the client's id, the log, the files that are saved and the router's history.
-- A few components keep state of their own: the form of a new certificate with its search of a
-- signatory, the modal of the private key, and the error notification with its timer.
--
-- The files, with the sources below web-app/src:
--   Common          conditionals and tests, texts, the storage as an association list, and the
--                   integers, decimal texts and `parseInt` of JavaScript that the sources use;
--                   Common/Text/Split is the `split` of a text at one character.
--   Types           types.ts: the interfaces as records. Optional fields are options.
--   Constants       constants/index.ts.
--   State           state/index.ts; State/Actions the actions of state/*/actions.ts; State/Slices
--                   the reducers of error, user and invitation; State/Certificates the reducer
--                   of state/certificates/reducer.ts, in which `handle` is the table of handlers.
--                   State/History is the specification of the store, by the latest writes.
--   Platform        what is used of redux and @czarsimon/httpclient, as a record of operations and
--                   documented laws; `plain` is an instance.
--   World           one open tab, with `setHeader` and `setToken` of api/httpclient.ts.
--   Translations    translations/index.ts and the table of translations/en.ts. Translations/Format
--                   is `useFormatedMessage`, with the messages that index.tsx provides.
--   Utils           utils/apiutil.ts, utils/rsautil.ts and utils/timeutil.ts.
--   Api             the requests of api/accountApi.ts, certificateApi.ts, invitationApi.ts and
--                   userApi.ts; Api/Query reads the query of a URL.
--   Operations      state/user, state/certificates, state/invitation and state/error, their
--                   operations.ts. A thunk is split at its `await`: Operations/Calls names the call
--                   and its request, and the function with the thunk's name is what comes after
--                   the answer; `resume` runs it, and returns the calls that it makes in turn.
--   Hooks           state/hooks/index.ts: selectors, and the bodies of the effects. Hooks/Effects
--                   has the dependencies of each effect, and runs it at a render when one of them
--                   differs from the render before.
--   Containers      the handlers and callbacks of modules/*/*Container.tsx, Settings.tsx and
--                   SideMenu.tsx.
--   Startup         state/initState.ts, `initState`, `initHttpclient` and the health check.
--   Opening         the opening of a tab: what the modules set up (`httpclient`, `store`), and the first
--                   render of App.tsx, with the effects of `Routes` and of `App` in React's order
--                   and the requests that they send, each with the headers of the client.
--                   Opening/Visitors is about Ui from there on.
--   System          the tab as a step relation: an event is a gesture, an effect or the outcome of a
--                   health check, which may happen at any time; a response answers any one of the
--                   pending calls, with any content.
--                   System/Reachable shows that what the primitive changes keep, every step keeps;
--                   System/Drain answers the calls that are under way, System/Order lists what each
--                   response dispatches, and System/Secrets replaces the passwords of a system.
--   Views           the components with state or decisions of their own, in modules/certificates,
--                   modules/certificate and modules/error.
--   Pages           what the components return, as trees of elements (Pages/Markup) with their texts,
--                   rules and handlers: Pages/Access login and sign-up, Pages/Account the account and
--                   the invitations, Pages/Navigation the menu, home, settings and error,
--                   Pages/CertificateList, Pages/CertificateDetails, Pages/CertificatePage, and
--                   Pages/NewCertificate with the state of its form in Pages/Draft. A handler is
--                   the list of gestures (Pages/Gesture) that it leads to. Pages/Routes is routes/*.tsx
--                   and App.tsx; Pages/Router is what they take from react-router, with laws and the
--                   instance Pages/Router/Segments. Pages/Translated looks the texts up, and
--                   Pages/Offered says which gestures are offered.
--   Ui              the app as a user meets it: System with the page that is shown, the form and the modal.
--                   Ui/Steps has its steps: gestures that the shown elements offer
--                   (Pages/Markup/Handlers), the browser's navigation, effects of the shown
--                   components, renders of the form, and answers of a server given as a relation.
--                   A component that is not shown any more loses its state.
--   Tests           sample data after the tests of the web app, and the theorems at concrete inputs.
--
-- Numbers are natural numbers, and integers where the source parses a text; `yearsToDays` is
-- modelled at whole numbers of years, where its product is exact below 2 ^ 53. All loops run over
-- lists or over the characters of a text. The only fuel is that of `drain`, the number of responses;
-- the rounds of the calls under way are enough. A callback of a container is a function
-- of the world and of the success.
--
-- Not modelled: the service worker, which the app only unregisters; the transport of the HTTP client
-- and the handlers of the log; how antd checks the rules of a form, shows a table or sorts it; how
-- react-intl formats a date, or a message with arguments; class names and layout; and the other
-- programs of the repository (api-server, edge-proxy, k8s, mysql, end-to-end-tests, scripts). In the steps of System an
-- effect may run at any time, also when its dependencies are unchanged. A rejected call, which
-- the HTTP client never gives as it reports errors in its answer, is modelled for the health check
-- only. The keys of a certificate's subject are listed in the order of its interface.
-- UnauthenticatedRoutes and AuthenticatedRoutes each mount a router of their own, which takes the
-- location at its mounting; Ui has one location for both, the one that the tab was sent to last. They
-- differ after a login or a sign-up until the next navigation.
pub mod Common
pub mod Types
pub mod Constants
pub mod State
pub mod Platform
pub mod World
pub mod Translations
pub mod Utils
pub mod Api
pub mod Operations
pub mod Hooks
pub mod Containers
pub mod Startup
pub mod System
pub mod Opening
pub mod Views
pub mod Pages
pub mod Ui
mod Tests
