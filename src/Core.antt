-- ===== src/Core.antt =====
-- core.cpp and core.hpp: the process-wide singleton that holds the host's uuid.
use libgscale.Prelude.{Option, none, some, replicate}
use libgscale.Words.{Bytes}

-- boost::uuids::uuid, a POD of sixteen bytes.
abbrev pub Uuid : Type 0
Uuid = Bytes

-- boost::uuids::nil_uuid().
abbrev pub nil_uuid : Uuid
nil_uuid = replicate 16 0

pub record Core : Type 0 where
  pub hostuuid : Uuid

-- Core::Core: `boost::uuids::uuid()` value-initialises the POD, so every byte is 0.
unfoldable pub new_core : Core
new_core = record { hostuuid = nil_uuid }

-- Core::getInstance; the argument is the static `inst`, `none` for NULL.
unfoldable pub get_instance : Option Core → Core × Option Core
get_instance none = (new_core, some new_core)
get_instance (some c) = (c, some c)

-- Core::getHostUUID
unfoldable pub get_host_uuid : Core → Uuid
get_host_uuid c = c.hostuuid
