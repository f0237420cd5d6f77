-- ===== src/Tests.antt =====
-- The definitions at concrete inputs: small kernels with the objects under test.
pub mod Platforms
mod Common
mod Ticks
mod Trace
mod Timer
mod Semaphore
mod Kernel
mod Life
mod Startup
mod Pool
mod Queue
mod Thread
mod Join
mod File
mod Mutex
mod EventFlags
mod Nor
mod Nand
mod Media
mod Format
