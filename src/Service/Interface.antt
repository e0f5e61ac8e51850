-- ===== src/Service/Interface.antt =====
-- `Servus::Interface` (servus/servus.h, servus/servus.cpp).
use servus.Bytes.{Bytes, codes}

pub data Interface : Type 0 where
  if_all if_local : Interface

-- `operator<<`.
unfoldable pub print : Interface → Bytes
print if_all = codes " all "
print if_local = codes " local "
