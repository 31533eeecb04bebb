-- ===== src/Flow/Runner/Raised.antt =====
-- A phase's run whose generation record cannot be made.
use grc_audit_swarm.Flow.State.{Flow}
