-- ===== src/Dns/Ixfr/Update.antt =====
-- A transfer right behind an update.
use bindizr.Base.{nat_eq, list_eq, int_eq}
use bindizr.Record.Model.{Zone}
use bindizr.Service.DynamicUpdate.{DynamicUpdate}
