-- ===== src/System/Leftovers.antt =====
-- What a logout leaves in the store.
use webca.Platform.{Platform}
use webca.World.{World}
use webca.Operations.Users
use webca.System.{System}
