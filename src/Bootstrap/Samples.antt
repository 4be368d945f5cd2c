-- ===== src/Bootstrap/Samples.antt =====
-- Connections that all open, and a process with none.
use gateway_login.Base.{none}
use gateway_login.Bootstrap.{Opened, Faults}

abbrev pub healthy : Faults
healthy = record { parse_config = none; new_with_config = none; ping_pg = none; ping_redis = none }

abbrev pub closed : Opened
closed = record { pools = 0; clients = 0 }
