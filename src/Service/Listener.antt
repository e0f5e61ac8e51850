-- ===== src/Service/Listener.antt =====
-- `Listener` (servus/listener.h): what a service tells its listeners.
use servus.Prelude.{ℕ, List, [], ◌∷◌}
use servus.Bytes.{Bytes}

-- A call of a listener, which is named by its address.
pub data Event : Type 0 where
  instance_added instance_removed : ℕ → Bytes → Event

-- One call for each listener.
unfoldable pub notify : (ℕ → Bytes → Event) → List ℕ → Bytes → List Event
notify event [] i = []
notify event (l ∷ ls) i = event l i ∷ notify event ls i
