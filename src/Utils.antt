-- ===== src/Utils.antt =====
-- src/utils: the pool of waiting transactions, the logger, and the caches.
pub mod MemoryPool
pub mod Logger
pub mod ErrorHandler
pub mod PerformanceMonitor
pub mod CacheManager
