-- ===== src/Startup/Start.antt =====
-- memoryPool.hpp, thread.hpp, queue.hpp: a byte pool of the size that `minimumPoolSize` computes
-- serves the constructors of the threads and queues of a program.
use threadx_cpp.Queue.{Queue, message_words, register}
use threadx_cpp.Queue
use threadx_cpp.Thread.{start_code}
use threadx_cpp.Thread
