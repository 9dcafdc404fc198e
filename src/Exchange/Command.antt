-- ===== src/Exchange/Command.antt =====
-- A CREATE that a user types, on the client (clientinit.c), the naming server (namingserver.c) and the
-- storage server (storageserverinit.c) together.
use nfs_network_file_system.Prelude.Bytes.{Bytes}
use nfs_network_file_system.NamingServer.{NamingServer}
