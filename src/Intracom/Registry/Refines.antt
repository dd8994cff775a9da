-- ===== src/Intracom/Registry/Refines.antt =====
-- The operations do what the map of names says.
use rxd.Intracom.Topic.{Topic}
use rxd.Intracom.Registry.{Intracom}
use rxd.Intracom.Registry.Abstract.{Names}
