-- ===== src/Lib.antt =====
-- cos_userspace: user-space delegation of Linux scheduling.
--
-- The program. A lord is a process that decides which thread runs on which processor. The kernel
-- tells it of its threads through a ring of messages (kernel/message_queue.h,
-- lib/message_queue.h); the base class Lord (lib/lord.h) drains the ring and calls virtual handlers,
-- and main (scheduler/fifo/fifo_scheduler.cpp, scheduler/shinjuku/shinjuku_scheduler.cpp) then
-- calls schedule, which assigns queued tasks to processors, writes the assignment to the shoot area
-- (kernel/shoot_area.h, lib/shoot_area.h) and makes the system call shoot_task. The FIFO lord
-- (scheduler/fifo/fifo_lord.h) never preempts; the Shinjuku lord
-- (scheduler/shinjuku/shinjuku_lord.h) preempts tasks whose slice is over or that mark themselves
-- as idle in the epistle (lib/epistle.h), a shared hash table. workload/rocksdb.cpp is a benchmark:
-- a generator gives batches of requests to workers, each marked in the epistle as runnable or idle,
-- and the workers ask a RocksDB database and spin until the service time of a request is over.
-- workload/cgroup_latency_load.cpp trains a neural network in many threads, as a load.
--
-- Which file models what:
--   MessageQueue    empty and consume_msg; Pending gives the queue that the ring stands for, Wrap
--                   what the 32-bit counters do to the slots
--   ShootArea       commit_shoot_message and check_shoot_state
--   RunQueue        FifoRq, which is ShinjukuRq too
--   TaskMap         the map alive_tasks_, with missing keys and null pointers
--   Thread          CosThread of lib/thread.h
--   Programs        workload/task_delegation_latency_load.cpp (Delegation) and
--                   workload/simple_exp.cpp (SimpleTest), with what waits for what
--   Lord            consume_message over a record of handlers; Drain: the loop beside a fold; Laws:
--                   the interface that a scheduler fills; Turns: any number of turns of a main loop,
--                   with what the kernel and the workloads write before each; Arriving: the loop
--                   while the kernel goes on posting
--   Fifo            FifoLord: state and handlers; Invariant, Phases and Handlers for the messages,
--                   Schedule and below for schedule, Main for main's loop, Conserving for what
--                   a round leaves waiting, Leak for processors that are marked as COS with no
--                   task on them
--   Epistle         add and get as one thread sees them; Racing: add as many threads run it at a
--                   time, one access after the other
--   CosCgroup       CosCgroup of lib/cos_cgroup.h; Rate for histories of its calls down to syscall
--   SystemCalls     the wrappers of lib/cos.h, over syscall
--   Shinjuku        ShinjukuLord: state and handlers, as for Fifo; Schedule for schedule, with Sort
--                   and Filter, Choice and Chosen for its two loops, Revert and Answer for what the
--                   kernel refuses, Outcome and Round for a whole call and Undo for one that is
--                   refused; Marks for what a processor marked as COS names, Main for main's loop
--   Rocksdb         workload/rocksdb.cpp: Keys and Database for the class Database (Contents: what it
--                   holds and what RocksDB is relied on for), Source for Ingress and NetWork, Service
--                   for the handling of a request, Handover for Worker, LoadGenerator and the flags
--                   of main as a step relation (Leftover: a page with entries of an
--                   earlier run), Lifecycle for main from its start to its return with
--                   the signal handlers as another one, Stats for the numbers of the report
--   Load            the neural network of workload/cgroup_latency_load.cpp; Bounds and Training for
--                   its accesses, Update for the update of a layer, Samples for how many samples
--                   the arrays hold
--   Base            names, tests, lists and results that all share
--   Tests           runs at concrete inputs
--
-- How the state corresponds. Each object is a record with the fields of the class. A call that ends
-- the process, a failed assertion, a null pointer, an index out of range and a loop without end are
-- faults of the result type in Base. Numbers are natural numbers with the wrap of 32 and 64 bits
-- written out; thread numbers come from a 16-bit field of a message, so the program's conversions
-- between int and u_int32_t change nothing. cpu_states_ is raw storage of cpu_num entries, since
-- the constructors only reserve it.
--
-- Parameters. cpu_num, the system call shoot_task, the clock's reading and the epistle's page at
-- the start of a turn are arguments. What a theorem assumes of shoot_task is the record Honest
-- (Fifo.Schedule.Answer): it leaves the pids of the page, answers only for the processors of the
-- mask, and answers nothing when the call fails. What it assumes of the messages is Accepted
-- (Fifo.Main, Shinjuku.Marks): the handler takes them in the phase that the task is in, and, for
-- Shinjuku, a task that its processor is marked with is not said to be runnable or to have made
-- way for another COS task. RocksDB is the record Store of its calls; Keeps and Walks
-- (Rocksdb.Database.Contents) are what its documentation says of Put, Get and iterators. The draws
-- of the random distributions are the record Draws, and the times that spin_for measures are a
-- list. What the epistle's page holds for the workers of the benchmark when it starts is an argument
-- of Rocksdb.Handover: main does not clear the page, and the theorems about the hand-over assume
-- that it says runnable, which a missing entry does too. The arithmetic of double is the record Arith, of which nothing is assumed.
--
-- Bounds and fuel. consume_message takes fuel for its rounds, and one more than what is pending is
-- enough as long as the kernel posts nothing during the loop; Lord.Arriving has the loop with
-- posts, where one more than all messages is enough. The loops of the epistle take fuel, and its
-- capacity of 512 is enough wherever the search ends at all. The loop of Shinjuku's schedule that
-- chooses takes fuel for its rounds, and one more than the queue is long is enough. Histories of
-- turns (Lord.Turns) are lists of any length, with an event before each turn. spin_for has one
-- round for each time in its list, and ends if those that count add up to the time it is asked
-- for. A worker and the generator take one step at a time, in any order and for any number of
-- steps. The number of processors is at most 511, the size of the shoot area.
--
-- Not modelled: system calls and memory mapping, logs and printing, the measuring scripts, page
-- writes that arrive during a round of schedule, and get beside an add of the same key. The steps
-- of Rocksdb.Handover and Rocksdb.Lifecycle take effect one after the other, as the fences and the
-- atomic counter of the program intend; the vectors of handled requests, which main reads before
-- it joins the workers, are not shared in the model.
pub mod Base
pub mod MessageQueue
pub mod ShootArea
pub mod RunQueue
pub mod TaskMap
pub mod Thread
pub mod Programs
pub mod Lord
pub mod Fifo
pub mod CosCgroup
pub mod SystemCalls
pub mod Epistle
pub mod Shinjuku
pub mod Rocksdb
pub mod Load
mod Tests
