-- ===== src/Exercise/World/Junk.antt =====
-- What stands in an array of `newConnection` that nothing initialises.
use posix_network_programmin.Prelude.{◌++◌, length, drop}
use posix_network_programmin.Cstring.{Bytes}
use posix_network_programmin.Posix.Forking.{World}
use posix_network_programmin.Exercise.World.{Connection}

-- What the array shows of a message that was read over an older text.
abbrev pub over_old : Bytes → Bytes → Bytes
over_old m old = m ++ drop (length m) old
