-- ===== src/Lib.antt =====
-- Verification of cppev, a C++ library for event-driven network programs.
--
-- The program. A byte buffer (src/include/cppev/buffer.h) stands on each side of a non-blocking
-- stream (nio.h, nio.cc). An event loop (event_loop.h, event_loop_epoll.cc) tells which streams can
-- be read or written and calls their handlers by priority. The reactor (tcp.h, tcp.cc) runs one
-- such loop in each worker thread: an acceptor or a connector hands each new connection to the
-- worker with the least load, whose handlers read, write and close it. Beside it stand the task
-- queue of the thread pool (thread_pool.h), a logger with its own thread (async_logger.cc), child
-- processes (subprocess.cc), synchronization and memory among processes (lock.cc, ipc.cc), and
-- numbers, strings and signals (utils.cc). The headers are in src/include/cppev of the
-- repository and the others in src/lib.
--
-- The files.
-- Prelude passes on the library's names and holds the Boolean tests, lists, options and integers
-- that all share.
-- Buffer models class buffer: the record has cap_, start_, offset_ and the array; create, resize,
-- tiny, clear, produce, consume, put_string, get_string and copy are its functions of these names.
-- Buffer/Bounds states when a buffer is well formed, Buffer/Contents and Buffer/Consume what the
-- operations do to its bytes, and Buffer/Fifo compares any run of them with a plain queue of bytes.
-- Nio models nstream: read_chunk, write_chunk, read_all, write_all, close and the moves, with the
-- kernel's answers as lists. Nio/Reading, Nio/ReadingAll, Nio/Writing,
-- Nio/WritingAll and Nio/Moving are about them.
-- Nio/Blocking models set_io_nonblock, set_io_block, the constructors, get_pipes and get_fifos over the
-- record Fcntl of the descriptors' flags; O_NONBLOCK has its value on Linux, 2048.
-- Sockets models the socket classes of nio.cc: Address (set_ip_port, query_ip_port_family), Options
-- (the setsockopt functions and bind), Connections (connect, accept, shutdown), Datagrams (recv, send,
-- send_unix), Local (bind_unix, listen, sockname, peername, connpeer, over the record Names of the file
-- system's names) and Objects (nsocktcp and nsockudp as wholes: get_nsocktcp, get_nsockudp, the moves
-- and the destructor).
-- EventLoop models fd_register, fd_remove and loop_once with fds_ as a list; epoll is the record of
-- operations and laws in EventLoop/Polling. EventLoop/Registry and EventLoop/Dispatch are about
-- them. EventLoop/Kqueue models the functions of the same names for macOS
-- (src/lib/event_loop_kqueue.cc) over the record Kqueue; its children compare a round of it with one
-- of the loop for epoll (Rounds) and follow the filters of a descriptor (Filters).
-- EventLoop/Forever models loop_forever and stop_loop_forever as the steps of two threads, one callback
-- to a step; Forever/Stopping is about their end.
-- Reactor models tcp.cc: Balance (minloads_get_evlp), Connect (connector::add, tcp_client::add),
-- Attempts (connector::on_pipe_readable, with its exceptions; its child Handling is about what
-- becomes of the requests), Acceptor (acceptor::on_acpt_readable, with the loops of the workers,
-- and its children Evenness and Sharing about their loads), Threads (the calls of run and shutdown
-- of tcp_server and tcp_client, which are the same but for the names) and Handlers (async_write,
-- safely_close, and on_readable, on_writable, on_acpt_writable and on_cont_writable of iohandler),
-- which use EventLoop, Nio and Buffer. Setup models the classes of tcp.h with their constructors,
-- setters, listen and the run_impl of the fronts up to loop_forever (Setup/Listening is about servers,
-- Setup/Clients has the setters of clients), and Hosts is the map hosts_ as a quotient.
-- TaskQueue models task_queue and its workers, and Barrier models pshared_barrier: a step is what
-- one thread does under the lock, a schedule is a list of steps, and a waiting thread may wake at
-- any time.
-- Ipc models shared_memory and semaphore, and Locks models pshared_rwlock with its guards. The
-- objects of the kernel are records of operations and laws there.
-- Locks/Fence models pshared_one_time_fence as steps of threads, like Barrier. Locks/Exclusive is what a
-- lock promises, as an interface with laws, and Locks/Mutex (pshared_lock) and Locks/Spinlock (spinlock,
-- with pthread and with an atomic flag) implement it; Locks/Condition models pshared_cond.
-- Runnable models the class runnable (runnable.h): a move of a schedule is a call of run(), or what one
-- of its threads does; Runnable/Promise is about wait_for.
-- AsyncLogger models async_logger (async_logger.cc): a move of a schedule is a call of operator<<, a
-- locked section of run_impl, or a line of the destructor, and the two buffers are those of Buffer.
-- Locking is about the recursive mutex, Pending and Stepping about the texts on their way, Lines about
-- those of several threads, and Stopping about the destructor.
-- Subprocess models subp_open and exec_cmd (subprocess.cc) over the answers of pipe, fork, waitpid and
-- read; Strings and Waiting follow the output of the child through read_all and the buffers, and Child
-- models what the child does between fork and execvp, over dup2.
-- Scheduler models the constructor of timed_scheduler (scheduler.h): timed_scheduler builds
-- interval_ and tasks_ from the intervals and what the heap of the tasks pops, of which Pops says what
-- std::priority_queue promises, with the functions of Utils, and spans are the waits of
-- one round. Scheduler/Thread models the thread, with its count of time, and ceil_time_point; its
-- children compare the rounds with absolute times (Periodic) and with the intervals and priorities
-- (Times, Intervals).
-- Utils models greatest_common_divisor, least_common_multiple, split, join and the strips, and
-- Utils/Signals the signal functions of utils.cc over the record Signals of sets and masks.
-- A Sample file holds an instance of such a record, and a Tests file runs and instances of
-- theorems.
--
-- Numbers and loops. An int is a number; where the code computes below zero or where wrap-around
-- matters it is written out: the capacity stays below 2 ^ 31, a size_t is taken modulo 2 ^ 64, a
-- product in int64_t stays below 2 ^ 63 or is no result. Fuel bounds the loops of resize (the
-- wanted capacity is enough, since a capacity of at least 1 doubles), of greatest_common_divisor
-- (the second number, which each round makes smaller), of split and of the strips (the length and
-- one, since each round moves by at least one byte), and of the scheduler (the common multiple and
-- one). That the fuel is enough is part of the theorems that say that the function has a result.
-- Reads and writes recur on the kernel's answers; where these run out the outcome is `waiting`.
-- read_all and write_all have fuel for one round for each answer and a last one.
--
-- The thread of the scheduler recurs on the number of times that it finds stop_ false.
--
-- Not modelled. dynamic_loader and sysconfig, but for a constant; the frequencies of the scheduler,
-- and the time that its tasks take; the time functions, gettid and the exceptions of utils.cc; the
-- lock of the event loop, which its functions hold in turn; of lock.cc the constructors of spinlock
-- and pshared_rwlock, which only call pthread; of the logger the printing of numbers and the time;
-- of the reactor random_get_evlp; send_signal of a child process, which only calls kill. Memory
-- allocation does not fail. The log output of the other parts and the text of an exception are left
-- out.
pub mod AsyncLogger
pub mod Prelude
pub mod Buffer
pub mod Utils
pub mod Nio
pub mod EventLoop
pub mod Reactor
pub mod Runnable
pub mod TaskQueue
pub mod Barrier
pub mod Sockets
pub mod Ipc
pub mod Locks
pub mod Scheduler
pub mod Subprocess
