-- ===== src/Tools.antt =====
-- tools/delete_prebuilt_workers and tools/prepare_prebuilt_workers: the commands that remove and make
-- the images of prebuilt workers.
pub mod Delete
pub mod Prepare
