-- ===== src/Lib.antt =====
-- Verification of the SMP T-Kernel (kernel/tkernel/smp_src), with the string functions and bit
-- operations that it links.
--
-- The kernel keeps its tasks in a ready queue, from which it chooses one task for each processor,
-- or in the wait queues of its objects. A system call checks its arguments, enters a critical
-- section, checks the domain and the protection of the object, works on the wait queue, and at the
-- end of the section chooses the tasks again if the ready queue has changed.
--
-- The files, and the code that each models:
--   Base: shared names, Boolean tests, updates of functions.
--   Str (lib/libstr/src/string.c): memset, memcpy, memmove, memcmp, strlen, strcmp and the others by
--     their names; a memory is a function from addresses to bytes.
--   Bitop (kernel/tstdlib/bitop.c): `bitset` is tstdlib_bitset, and so on.
--   Kernel: the state as one record (task.h, winfo.h, ready_queue.h, timer.h, mp_domain.c,
--     semaphore.c, eventflag.c, messagebuf.c, mempfix.c, mutex.c, mailbox.c, time_calls.c); Kernel/Queue:
--     include/sys/queue.h, a ring as a list.
--   ReadyQueue (ready_queue.h) and Schedule, Schedule/Assign (ready_queue.c): the ready queue and the
--     choice and assignment of tasks.
--   Task (task.c): states of tasks, `reschedule`, `update_schedtsk`.
--   Timer (timer.c, timer.h): the queue of timer events.
--   Domain (mp_domain.c, mp_common.h, config.h, check.h): IDs, domains and protection; Domain/Names:
--     names of objects and their hash table; Domain/Objects: what the creations and searches of all
--     kinds of objects share; Domain/Calls: the system calls on domains.
--   Wait (wait.c, wait.h): waiting and release. Semaphore, Semaphore/Hooks (semaphore.c): the
--     system calls `tk_sig_sem`, `tk_wai_sem`, `tk_del_sem`, `tk_ref_sem`, `td_...`, named as in C
--     without the first underscore. EventFlag (eventflag.c): the same for event flags. MessageBuffer
--     (messagebuf.c): message buffers, a ring of messages in memory. FixedPool (mempfix.c): fixed
--     memory pools. Mutex (mutex.c), Mailbox (mailbox.c): mutexes, and mailboxes with their messages
--     linked in memory. In each of these, Create has the creation and Names the searches and the calls for
--     the debugger (in Semaphore, Create has both).
--   TaskSync (task_sync.c): suspend and resume, sleep and wakeup, task events.
--   Priority (task.c, mutex.c): `change_task_priority` with the hooks that it calls, and how the
--     priority goes on to the tasks that have locked mutexes.
--   Handler, Cyclic, Alarm (time_calls.c): the queues in which each processor has the handlers that it
--     is to call, the interrupts between the processors (kernel/sysdepend/cpu/smp_naviengine/
--     cpu_status.h, kernel/sysdepend/device/std_smp_naviengine/tkdev_init.c), and the calls on cyclic and on alarm handlers. Delay: `tk_dly_tsk` of the same file.
--   Release (wait.c, timer.c): the hooks of a release, and what calls them: release with an error,
--     timeout, the timer interrupt with the handlers that it calls. TaskManage (task_manage.c): time
--     slice, priority, wait masks, release of waits, rotation, statistics, state and names of tasks.
--   Below each of these, modules named for what they show; Sample and the modules called Tests hold
--   concrete data and the theorems applied to it.
--
-- A function of C that changes the state takes a `Kernel` and returns one; an error code is a
-- value of `Er`. The processor on which a call runs is an argument. A pointer to a TCB is the
-- index of the task. What a cyclic or an alarm handler does while it runs, and all that happens
-- meanwhile, is an argument, a change of the state. Calls run one at a time: the kernel lock of
-- BEGIN_CRITICAL_SECTION is not modelled.
--
-- Fuel and bounds: the searches for a NUL and in bit strings, `trace_domain` and the choice of
-- tasks take fuel. The fuel that is enough is part of the lemmas on `strlen`, `strcpy`, `strcat`,
-- `strcmp` and the bit searches, and of the result on the check of domains. `ready_queue_top`
-- runs on a round for each task and processor; that this is enough is not shown. `timer_handler`
-- runs the events on a round for each of the queue and one more. The fuel of a run of the handlers is
-- an argument of it and of the calls that lead to it; it is enough above the length of the queue and
-- a bound for the handlers that are queued meanwhile. A change of a priority goes
-- along a chain of mutexes for at most two rounds for each task; that this is enough is not
-- shown. `tk_snd_mbx` takes the fuel for the messages of the queue as an argument. Words of 32
-- bits wrap around where the code counts in them (slicecnt, objcnt, the counts of `sum_bits`);
-- times and semaphore counts are plain numbers, the latter bounded by their maximum.
--
-- The allocator of the kernel, Imalloc and IAmalloc, is an argument of the creations that call it;
-- giving memory back to it is left out. The result of a call that waits stands in the field `wercd` of
-- the task. Sizes of buffers and pools are taken not to overflow.
--
-- Not modelled: the dispatcher and all assembly code, initialisation, the creation, start and end
-- of tasks, and the other kinds of objects (rendezvous ports, variable memory pools, subsystems);
-- the setting of the clock; devices and memory of the system manager.
pub mod Base
pub mod Str
pub mod Bitop
pub mod Kernel
pub mod ReadyQueue
pub mod Schedule
pub mod Task
pub mod Timer
pub mod Domain
pub mod Wait
pub mod Semaphore
pub mod EventFlag
pub mod MessageBuffer
pub mod FixedPool
pub mod TaskSync
pub mod Priority
pub mod Mutex
pub mod Mailbox
pub mod Handler
pub mod Cyclic
pub mod Alarm
pub mod Delay
pub mod Release
pub mod TaskManage
pub mod Sample
