-- ===== src/Conf.antt =====
-- internal/conf: the configuration of the service.
pub mod Watcher
