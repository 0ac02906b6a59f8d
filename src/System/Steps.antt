-- ===== src/System/Steps.antt =====
-- Steps to the world that a handler is known to return.
use webca.Common.{◌≡◌, sym, ap, List, ◌∷◌, ◌++◌}
use webca.Types.{HttpResponse}
use webca.Platform.{Platform}
use webca.World.{World}
use webca.Operations.{resume}
use webca.Operations.Calls.{Call, Answer}
use webca.System.{System, Event, Step, event, response, perform}

module _ {p : Platform} where
  pub event_to :
      (s : System p) (e : Event) (w : World p) (cs : List (Call p))
      → perform e s.world ≡ (w, cs)
      → Step s (record { world = w; pending = cs ++ s.pending })
  event_to s e w cs same = event e (
      ap (λ (x : World p × List (Call p)). record { world = x.0; pending = x.1 ++ s.pending })
        (sym same))

  pub response_to :
      (s : System p) (before after : List (Call p)) (c : Call p) (r : HttpResponse (Answer c))
      (w : World p) (cs : List (Call p))
      → s.pending ≡ before ++ c ∷ after
      → resume c r s.world ≡ (w, cs)
      → Step s (record { world = w; pending = cs ++ (before ++ after) })
  response_to s before after c r w cs listed same = response before after c r listed (
      ap
        (λ (x : World p × List (Call p)). record {
          world = x.0;
          pending = x.1 ++ (before ++ after);
        })
        (sym same))
