-- ===== src/Mcu.antt =====
-- signaling/mcu: the media server's connections and the pipelines.
pub mod State
pub mod Pipeline
pub mod Manager
pub mod Texts
