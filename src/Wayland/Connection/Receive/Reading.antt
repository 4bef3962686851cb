-- ===== src/Wayland/Connection/Receive/Reading.antt =====
-- What wl_connection_read of packages/wayland/build/src/connection.c takes in.
use k1os.Wayland.Connection.{Connection}
