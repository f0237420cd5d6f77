-- ===== src/Lib.antt =====
-- ThreadX C++ wrapper: a model of the classes that wrap the services of Azure RTOS ThreadX, FileX
-- and LevelX, and what holds of them.
--
-- The program is a set of header-only and small C++ classes. Each is an object of one kernel
-- service, whose methods call the service with the object's control block, turn the returned code
-- into an Error, and assert in constructors and destructors that it is success. The classes meet in
-- `TickTimer::ticks`, which turns every wait into ticks, in the `Error` of txCommon.hpp, and in the
-- pools, from which other objects take their memory.
--
-- Parts and files:
--   Common             txCommon.hpp: `Error`, its values, the sizes of a target
--   Ticks, Ticks/*     tickTimer.hpp: `TickTimer::ticks` and the waits of the `...Until` functions;
--                      std::ratio and std::chrono::ceil as the C++ standard specifies them
--   Timer, Timer/*     tickTimer.hpp, tickTimer.cpp: the class TickTimer
--   Semaphore, .../*   semaphore.hpp, semaphore.cpp: CountingSemaphoreBase and CountingSemaphore
--   Kernel, Kernel/*   kernel.hpp, kernel.cpp: CriticalSection and the questions about the context;
--                      Critical has the calls one after the other, Preemption instruction by
--                      instruction with several contexts
--   Thread, Thread/*   thread.hpp, thread.cpp: the class Thread and ThisThread; Join has `join` and the
--                      notification of exit as functions, Protocol both step by step, for several
--                      threads that join one, with critical sections that exclude the others
--                      or, as a preempted lock allows, do not: JoinSafety is about any of them, JoinInv, JoinStep and
--                      JoinOne about one, JoinTwo about two; PublishStep and ExitRun relate the
--                      functions to the steps; JoinFinished has `join` where it does not wait;
--                      Life has programs that construct and destroy threads in one block pool:
--                      Objects their objects, Construct and Destruct the two calls, Refinement the
--                      program as a set of addresses, Defaults the default of the threshold
--   Queue, Queue/*     queue.hpp: the class Queue; Fifo has a bounded list of messages
--   EventFlags, .../*  eventFlags.hpp, eventFlags.cpp: the class EventFlags and its masks;
--                      Sets and Run have the group as a set of flags
--   Mutex, Mutex/*     mutex.hpp, mutex.cpp: the class Mutex, and LockGuard, a std::lock_guard as the
--                      C++ standard specifies it; Exclusion has several threads
--   Pool, Pool/*       memoryPool.hpp: BytePool, BlockPool, Allocation, minimumPoolSize; Small has
--                      allocations that are too small to be split off
--   Startup, .../*     memoryPool.hpp, thread.hpp, queue.hpp together: a program that constructs
--                      threads and queues in one byte pool; Calls has what each of their calls leaves
--   LevelX, Nor, Nor/* lxCommon.hpp, norFlash.hpp: NorFlash, the layout of its blocks, its driver;
--                      Format has a media, of media.hpp, that is formatted on a flash
--   Nand, Nand/*       nandFlash.hpp: NandFlash, the parts of a page, and the driver callbacks
--   Trace, Trace/*     trace.hpp: the class Trace and the masks of events
--   FileX, Media, .../* fxCommon.hpp, media.hpp: the class Media; Names has the results that are text,
--                      Driver the accessors of a driver
--   File, File/*       file.hpp, file.cpp: the class File over FileX
--   Prelude            Boolean tests on numbers, lists, integers, and the monad `M` of the functions
--   Tests              the definitions at concrete inputs
--
-- Correspondence: a function of C++ is a function with its name in snake case; a method takes its
-- object as the record `self`. Where a method changes its object, it returns it anew. The state of
-- the monad is the kernel, with the static members of a class beside it where it has some (`World`).
-- A failed `assert` is the outcome `aborts`. A constructor gives the object; its address, which names
-- the control block, is an argument. A callback is an option: none is the empty std::function.
--
-- ThreadX, FileX and LevelX are not part of the repository: each `Native` module has a record of
-- their services as functions on any state of the kernel, and a record of laws with what their
-- manuals say, and of byte pools how ThreadX splits blocks, which the theorems that need it take as a hypothesis. Numbers of the C++ types wrap
-- at the sizes of the `Platform`.
--
-- Bounds and fuel: the loop of nandFlash.hpp runs on 14 rounds of fuel, which is enough because 4096
-- is 0 after 13 halvings. Euclid's algorithm on a and b, for the ratios, runs on b + 1 rounds, since
-- the second number falls in each. `release` and `minimumPoolSize` recurse on the count and on the
-- list.
--
-- Not modelled: what a call that blocks does until it goes on, but for `join`, and what the threads
-- suspended on an object do, beyond the count of a semaphore; the bodies of the callbacks of an
-- application and of the virtual functions of its drivers, which are arguments; the bit fields of
-- NorSectorMetadata, which no function reads; the addresses of callbacks, which the constructors give
-- the kernel.
pub mod Prelude
pub mod Common
pub mod Kernel
pub mod Ticks
pub mod Thread
pub mod Trace
pub mod Timer
pub mod Semaphore
pub mod File
pub mod Mutex
pub mod Pool
pub mod EventFlags
pub mod Queue
pub mod Startup
pub mod LevelX
pub mod Nor
pub mod Nand
pub mod FileX
pub mod Media
mod Tests
