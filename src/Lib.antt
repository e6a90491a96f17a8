-- ===== src/Lib.antt =====
-- uringio: an asyncio event loop on io_uring, written in C as an extension of Python.
--
-- A method of a file or a socket (src/python_api/ops) checks its guards, takes a slot of the
-- registry of requests for its future, chooses the operation by the mode of its payload, and calls
-- that operation (src/ops), which takes an entry of the submission queue, links a timeout behind it,
-- fills it in, tags it with the index of the slot and submits. Where this fails, the slot is given
-- back. When the kernel has completed the entry, the reader finds the slot by the tag.
--
-- - Base: Boolean tests, conversions of C integers, arrays.
-- - Uring: liburing, which is not part of the repository, as a parameter (record Liburing: the answer
--   of each call from the calls made before). C code that calls it is a program over the trace of
--   calls. Uring/Queue reads off a trace what waits in the submission queue (pending) and what has
--   been handed to the kernel (sent): at each submission the oldest entries, as many as liburing
--   answers, which may be none. NoReuse states that an entry handed out while another waits is
--   a different one.
-- - Timer: src/timer/timer.c, and the macro of src/macroses.h by which each operation begins.
-- - Ops: src/ops/files and src/ops/sockets, a function for each operation. Ops/Request lists the
--   requests with the entry that each should make, Ops/Contract specifies an operation by these,
--   Ops/Bodies, Ops/Refine and Ops/Conforms prove the specification, Ops/Results and Ops/Stray draw
--   conclusions from it.
-- - IndexStack: the stack of free indices, of which both registries have one.
-- - BufferIndex: src/buffer_controllers/buffer_index.c.
-- - Buffers: the data of src/python_api/buffers, and free_buffer_payload.
-- - Store: the objects that structures share by their addresses, reference counts included. A
--   reference count that falls to 0 is not followed further.
-- - References: the references to Python objects that a function holds, as a list of changes.
-- - Enums: enums.c of src/python_api/ops/files and of src/python_api/execution_context; Init:
--   uringio_module_exec of src/uringio_init.c. Enums/Created and Init/Filled say what they come to.
-- - Registry: src/registry/registry.c; Registry/Valid has its invariant, the other children its
--   operations.
-- - Dispatch: file_ops_dispatcher.c and socket_ops_dispatcher.c of src/python_api/ops.
-- - Submit: the methods of files and sockets in src/python_api/ops from their guards on, and the
--   checks of results; what the interpreter answers is an input (record Situation, in Submit/Guards).
--   Submit/Files and Submit/Raw are files.c, Submit/Sockets and Submit/Messages are sockets.c,
--   Submit/Module the functions open and prep_socket of both, Submit/Address their _helpers.c.
--   Submit/Groups is the exception group of a block whose body and whose closing raise, Submit/Lives the
--   entry of a block and the end of an object.
--   Submit/Outcome and Submit/Answered say what a method may come to, and Submit/Finishes,
--   Submit/Methods, Submit/SocketMethods, Submit/Transfers, Submit/Objects and Submit/Leak what the
--   methods come to.
-- - Reader: src/python_api/reader/on_ready.c; Reader/Complete is its switch over the opcodes,
--   Reader/Step a turn of its loop and the loop, Reader/Gather the copying from several buffers,
--   Reader/Invariant and Reader/Resolve what becomes of the registry and of the futures. What the
--   interpreter can make and the constants of the kernel are inputs (record Host).
-- - System: the methods and the reader together, as a step relation on the state with the list of
--   requests in flight; the completions may be any, in any number. System/Safe has its invariant, System/Answers what a completion does.
-- - Ring: src/ring/ring.c. Modes: src/buffer_controllers/buffer_modes.c.
-- - Loop: src/python_api/loop. Loop itself is helpers.c over the attributes of the Python loop (record
--   PyLoop), with C's double as a parameter (record Doubles); Loop/Shutdown is shutdown.c; Loop/Object
--   is the object of loop.c from its making to its end, with src/python_api/signals/signals.c, over
--   the rest of the process (record Process, which lists what happens to descriptors); Loop/Turn is
--   run_once. Loop/Object/Stage, Life and Closes say what a loop comes to.
-- - Context: contextvar.c and execution_context.c of src/python_api/execution_context; Context/Switch
--   has the blocks that hand buffers to the kernel, Context/Make the functions that make the objects.
-- - PyTimer: src/python_api/timer.
-- - Payloads: src/python_api/buffers/buffers.c, over the answers of malloc and the views that Python
--   objects give. Payloads itself has linear and vectored buffers, Payloads/Whole the payloads of a
--   send and of raw vectors, Payloads/Pairs linear buffers and vectors on the same memory, with what
--   memory holds before it is written as an input (record Fresh), Payloads/Create
--   create_buffer_payload, Payloads/Obtain the payloads of a method. A result comes with what has
--   been taken and what has been handed back (record Made).
-- - Examples: concrete runs.
--
-- A call of abort, and a read through NULL, is the answer none. Integers of w bits wrap around as in
-- C (to_unsigned, to_signed); addresses are natural numbers. The `while` of promote_scheduled runs on
-- fuel, the number of handles on the heap, of which each round takes one away; all other loops run
-- over lists or a count.
--
-- Not modelled: argument parsing but for the parameters of timers, exceptions as objects of the
-- interpreter, create_future, which is a call of it, the slots of the types for its garbage collector,
-- and the tables of methods and types of src/uringio_init.c, which are data for the interpreter.
pub mod Base
pub mod Uring
pub mod Timer
pub mod Ops
pub mod IndexStack
pub mod BufferIndex
pub mod Buffers
pub mod Store
pub mod References
pub mod Enums
pub mod Init
pub mod Registry
pub mod Dispatch
pub mod Submit
pub mod System
pub mod Ring
pub mod Modes
pub mod Context
pub mod PyTimer
pub mod Payloads
pub mod Loop
pub mod Reader
pub mod Examples
