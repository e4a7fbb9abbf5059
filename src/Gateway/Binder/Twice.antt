-- ===== src/Gateway/Binder/Twice.antt =====
-- A call that looks before another one binds, and claims after that one has left.
use portico_gateway.Base.{ℕ, some, ◌≡◌, GoString}
use portico_gateway.Base.Assoc.{lookup}
use portico_gateway.Snapshots.{Snapshot}
use portico_gateway.Gateway.Binder.{answered}
use portico_gateway.Gateway.Binder.Steps.{World, Step}

-- What any number of steps lead to.
pub data Follows (session : ℕ → GoString) (w : World) : World → Type 0 where
  stop : Follows session w w
  then : {u v : World} → Follows session w u → Step session u v → Follows session w v

-- A world that follows the given one, in which call j has answered the snapshot s and call i the
-- snapshot t, which is bound.
pub record Recreated (session : ℕ → GoString) (w : World) (i j : ℕ) (s t : Snapshot) : Type 0 where
  pub world : World
  pub follows : Follows session w world
  pub first : world.progress j ≡ answered (some s)
  pub second : world.progress i ≡ answered (some t)
  pub bound : lookup (session i) world.binder.bindings ≡ some t
