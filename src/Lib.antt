-- ===== src/Lib.antt =====
-- A model of the Pandos kernel (phase3/, with the types and constants of h/).
--
-- The nucleus is a set of C functions that work on a few global variables, on pcbs and semaphore
-- descriptors linked by pointers, and on the hardware. Here each function is a command over the
-- state (Run): it returns a result and a new state, or it gives the processor away for good (LDST,
-- LDCXT, WAIT, HALT and PANIC), or it dereferences NULL (a fault), or it has no fuel left. A
-- theorem that says how a command returns or stops excludes the last two.
--
-- The parts, from the bottom:
--   * Pcb is phase3/pcb.c: the free list, the process queues and the process tree. Memory is one map
--     from addresses for each field of pcb_t. A function with a parameter `pcb_t **tp` returns the
--     new tail. Its children relate the links to lists and trees: Pool the free list, Ring and Queue,
--     Unlink, Position and Dequeue the queues, Tree and Family the children of a pcb, Forest and
--     Detach all the processes below one.
--   * Asl is phase3/asl.c: the semaphore descriptors, over the pcbs. Its children
--     Init, Search, Place, Activate and Release relate the linked list to a sorted list of
--     descriptors, Waiting, Block, Unblock, Head and Leave the queues of the descriptors to the
--     processes that wait for each semaphore.
--   * Kernel is the whole state: the globals of phase3/initial.c, the ASL, the semaphores by address,
--     the support structures by field, the device registers and the timers. It lifts the operations
--     of Asl and Pcb to that state.
--   * Scheduler is phase3/scheduler.c (child Choice), Exceptions phase3/exceptions.c, Interrupts
--     phase3/interrupts.c, and Initial phase3/initial.c. exceptionHandler takes the interrupt handler
--     as an argument, as the C files call each other.
--   * Support is the state of the support level, over Kernel: the swap pool, the tables and lists of
--     the level, the memory that its loops copy, and a trace of the device registers it writes and the
--     SYSCALLs it makes. System, a record, stands for the SYSCALL instruction as the process sees it,
--     with all that happens until it returns, and for TLBP; Places has the linker's addresses. Its
--     child Quiet is about SYSCALLs that change nothing of the level.
--   * Vm is phase3/vmSupport.c (children Frames, for the choice of a frame, Install and Evict, for
--     the pager), Terminate supTerminate of phase3/sysSupport.c and freeSupportStruct of phase3/initProc.c (child
--     Release), Delay phase3/delayDaemon.c (children Insertion, Due, Daemon, Init and Sleep), InitProc
--     phase3/initProc.c (child Pages), Dma phase3/deviceSupportDMA.c (children Blocks and
--     Negative, for places on a disk, Copy, Reject and Flash), SysSupport phase3/sysSupport.c
--     (children Characters, Write, Typing and Line).
--   * Programs is those programs of testers/ that print literals only, over a kernel that is a parameter:
--     fib*, terminalTest*, printerTest, timeOfDay and delayTest (children Fibonacci and Clock).
--   * Prelude has the shared names, Boolean tests, lemmas on lists and the 32-bit words.
--     The children of Exceptions are about updateCPUTime (Time), P and V (Semaphores, Sleep, Wake),
--     sysWaitIO (WaitIo), passUpOrDie (PassUp), the lists that the pcbs are in (Lists),
--     sysCreateProcess (Create), sysTerminate (Vacate, Free and Depart for one process, Standing,
--     Progeny and Children for those below it, Terminate for all), a process that is woken (Rouse) and one that
--     waits (Join, Asleep); those of Interrupts about the choice of a line and a device (Lines), the
--     semaphores of the devices (Devices), the time slice (Plt), the pseudo-clock (Interval), a
--     device (Deliver), and sysWaitIO with the interrupt that answers it, with other processes ready
--     (Answer) or none (Idle).
--   * Tests has a state written out, Tests/Blocking an ASL, Tests/Family a tree of processes,
--     Tests/Wakeups processes that wait for the clock and a device, Tests/Level the support level,
--     Tests/Transfers strings and blocks for its devices, Tests/Calls the calls that use them, Tests/Programs a
--     kernel for the programs.
--
-- Words are numbers below 2 ^ 32, and arithmetic on them wraps around as written (Prelude/Word); an
-- `int` is its bit pattern. Functions are named after the C functions, with helpers for the parts of
-- a long one. memcopy on a whole state_t is an assignment.
--
-- Loops run on fuel or on the number of rounds. outProcQ has max_proc rounds, and a queue holds at
-- most that many pcbs; the loops over the ASL have max_semd + 3, one more than there are
-- descriptors; the loop over a device bit map has 32, one for each bit; the recursion of
-- sysTerminate has 64 nested steps, and a tree of 20 pcbs takes at most a call and a round for each of
-- them, and one round more. The interval timer's loop has 21 rounds, one more than there are pcbs.
-- The walk of supDelay has 9 rounds, one for each descriptor with the tail, and the daemon's loop 10.
-- delayDaemon itself never ends; the model has its first rounds, as many as asked for.
--
-- The queues of the semaphores are those of all addresses but MAXINT, the key of the dummy tail, whose
-- queue pointer initASL does not set.
-- Two pcbs are told apart by their addresses, and every address but NULL is taken to hold one. What
-- the linker decides, the addresses of deviceSemaphores, of the tables and of `test`, is a parameter.
-- Not modelled: the pass up vector, which holds addresses of functions, and the order in which `main`
-- starts the support level, which is a parameter there. A user address is an address of `mem`: the
-- page faults that such an access can take are exceptions of their own, like all other processes.
-- The programs of testers/ with buffers of their own or addresses written out are not modelled either.
pub mod Prelude
pub mod Types
pub mod Run
pub mod Pcb
pub mod Asl
pub mod Kernel
pub mod Scheduler
pub mod Exceptions
pub mod Interrupts
pub mod Initial
pub mod Support
pub mod Vm
pub mod Terminate
pub mod Delay
pub mod InitProc
pub mod Dma
pub mod SysSupport
pub mod Programs
pub mod Tests
