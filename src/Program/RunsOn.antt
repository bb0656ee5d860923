-- ===== src/Program/RunsOn.antt =====
-- The program on a configuration whose processes can all be loaded.
use lab_os_assignment.Os.System.{System}
