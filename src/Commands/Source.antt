-- ===== src/Commands/Source.antt =====
-- The VPS as the source of the synchronisation: `*vpsmysql.Client` as a `syncpkg.Source`.
use gateway_login.Base.{Bool, some, List, Text}
use gateway_login.Vps.{KaryawanRow, Client, Faults, fetch_karyawan_updated_since, set_batch_size}
use gateway_login.Sync.Run.{Source}

-- What a pass meets on the VPS: the collation, the rows, and the errors of the query.
pub record Upstream : Type 0 where
  pub le : Text → Text → Bool
  pub table : List KaryawanRow
  pub faults : Faults

-- It implements `BatchSizer`.
abbrev pub client_source : Upstream → Source Client
client_source up = record {
  fetch = fetch_karyawan_updated_since up.le up.faults up.table;
  sizer = some set_batch_size;
}
