-- ===== src/Commands.antt =====
-- The commands config/cmd/configure.go and cmd/controller/main.go: the defaults file is written by the
-- one and read by the other.
pub mod Configure
pub mod Controller
pub mod Defaults
