-- ===== src/Payload/Fast/Race.antt =====
-- Two calls of `release_payload` of FastPayloadPool.cpp at the same time.
use ddsproxy.Common.{nat_key}
use ddsproxy.Payload.Memory.{Payload, ◌>>=◌}
