-- ===== src/Config.antt =====
-- config/: the shared constants, the defaults of the system and the image map.
pub mod Constants
pub mod Images
pub mod Defaults
