-- ===== src/Pool/Small.antt =====
-- memoryPool.hpp, `minimumPoolSize`: two allocations of which the second is smaller than what ThreadX
-- splits off.
