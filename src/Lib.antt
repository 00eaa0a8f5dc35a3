-- ===== src/Lib.antt =====
-- Parts of TraceJVM's engine, the Java virtual machine in C under engine/bjvm/vm that runs class
-- files in a browser, with the theorems that make them correct.
--
-- The parts and how they interact. Threads of Java are coroutines of one machine. The scheduler
-- (roundrobin_scheduler.c) keeps them in a round robin, picks one that is awake, and has the
-- interpreter run the head of its queue of calls until the call returns or yields with what it waits
-- for. The monitors (monitors.c) decide who may be inside an object; a thread that finds one held
-- yields with a wake-up for the scheduler, and a release has the scheduler mark a waiting thread
-- ready. wait0, notify and notifyAll (natives/share/java/lang/Object.c) are built from both. The
-- handles (bjvm.c) keep the results of calls alive for the host. The class file parser
-- (classfile.c) reads the constant pool in two passes, descriptors, and the code of methods, whose
-- branches it turns into indices of instructions for the interpreter (interpreter2.c); the iterator
-- over StackMapTables (stackmaptable.c) gives the types of locals and stack at each frame of a method.
-- Class loaders, natives and string interning look names up in hash tables (adt.c). Names and literals
-- of a class file become Java strings (objects.c), and compiled code is written as WebAssembly (wasm/wasm_utils.c). A class that is
-- linked gets a table for its virtual calls (vtable.c). The collector (gc.c) stops all of it, marks
-- what the roots reach, moves that together and rewrites the references.
--
--   Prelude, Prelude/*     names of the libraries, Boolean tests, lists over native numbers
--   Scheduler/Types        rr_wakeup_info, thread_info, pending_call, execution_record, impl
--   Scheduler/Handles      make_js_handle, deref_js_handle, drop_js_handle (vm/bjvm.c)
--   Scheduler/Notify       monitor_notify_one, monitor_notify_all, monitor_exit_handler
--   Scheduler/Sleep        is_sleeping, get_next_thr, rr_scheduler_may_sleep_us
--   Scheduler/Step         rr_scheduler_step, rr_scheduler_run, unshift, free_execution_record,
--                          rr_scheduler_execute_immediately
--   Monitor                monitor_acquire, monitor_reacquire_hold_count, monitor_release,
--                          monitor_release_all_hold_count, current_thread_hold_count
--   Monitor/Objects        notify, notifyAll, wait0
--   Monitor/System         many threads at one monitor: a step relation over the calls of Monitor
--   StackMap/Init          stack_map_frame_iterator_init, init_locals (vm/stackmaptable.c)
--   StackMap/Reader, Next  the readers and stack_map_frame_iterator_next
--   Descriptor             parse_field_descriptor and the kinds of types (vm/classfile.c)
--   Descriptor/Method      parse_method_descriptor
--   ClassFile              the results of the class file parser (vm/classfile.c)
--   ClassFile/Reader       reader_advance, reader_get_slice and the readers of numbers
--   ClassFile/Pool         cp_entry, check_cp_entry, checked_cp_entry (vm/classfile.h, classfile.c)
--   ClassFile/Pool/Read    parse_constant_pool_entry and the loop over the entries, in both passes
--   ClassFile/Pool/Finish  finish_constant_pool_entry, parse_constant_pool
--   ClassFile/Insn         bytecode_insn, checked_pc, the switches, parse_atype
--   ClassFile/Kinds, Format, Opcodes, Parse
--                          insn_code_kind and parse_insn, its switch as a table of operand formats
--   ClassFile/Code         parse_code_attribute up to its attributes, convert_pcs_to_insn_indices
--   Interpreter            INTEGER_BIN_OP, INTEGER_UN_OP (vm/interpreter2.c)
--   Interpreter/Division   java_idiv, java_irem and the instructions that call them; java_ldiv and
--                          java_lrem are the same functions on twice the bits, with LONG_MIN
--   Interpreter/Switch     tableswitch_impl_int, lookupswitch_impl_int
--   Gc                     mark_reachable, the mark phase and the copying of major_gc,
--                          binary_search_for_pointer, relocate_object (vm/gc.c)
--   HashTable              string_hash_table: lookup, deletion, and insertion once there is room
--                          (vm/adt.c)
--   HashTable/Growth       the iterator, hash_table_rehash, hash_table_insert, hash_table_reserve
--   Dispatch               set_up_function_tables, its virtual table; method_overrides,
--                          vtable_lookup (vm/vtable.c), method_lookup in one class (vm/bjvm.c)
--   Arena                  arena_alloc (vm/adt.c)
--   Strings                convert_modified_utf8_to_chars, make_jstring_modified_utf8 (vm/objects.c)
--   Wasm                   wasm_writeuint, wasm_writeint (vm/wasm/wasm_utils.c)
--   Examples/*             the code at work on concrete inputs
--
-- Children named for a property (Sleep/Rotation, Next/Validity, HashTable/Map, ...) hold proofs only.
--
-- How state and operations correspond. A struct is a record with the fields that the modelled code
-- reads or writes. An operation takes the state it changes and gives the new one; an early return is
-- a branch. Objects, threads and records are named by numbers where the code has addresses, 0 being
-- the null pointer. `impl` of the scheduler also holds what it reaches through the virtual machine:
-- the handles, the list of pending references as a flag, and the field `eetop` of thread objects.
-- What is passed in: the interpreter, which may change the whole state; the readings of the clock;
-- whether an allocation succeeds. Integers keep their width where they can wrap: the hold count is
-- taken modulo 2^32, the time to yield and to wake modulo 2^64 or capped as in the code.
--
-- In the linking of a class, as in the relocation of references, a build with debug checks is modelled:
-- a failed DCHECK is `none`.
--
-- A monitor_acquire or wait0 that yields is cut there, and what happens on resumption is a function
-- of its own. In Monitor/System a thread yields and retries in any order with the others.
--
-- Bounds and fuel. `rr_scheduler_step` calls itself for a thread with no calls, and takes fuel for it:
-- one more than there are threads. `parse_method_descriptor` gives its loop the length of the text.
-- `execute_immediately` takes fuel for the calls in the queue, which the interpreter may add to.
-- `hash_table_insert` takes one more than the entries counted: an insertion into the table that a
-- rehash fills finds fewer entries there than the old table has. `fxhash_from` takes the length of the
-- key. The load factor is a fraction, compared exactly; a table of capacity 0, on which the code reads
-- an unset flag, is outside every theorem.
-- In the class file parser a format error, which the code leaves by longjmp, is the result `err`; a
-- loop without fuel or an access out of bounds is `stuck`, which is proved not to happen. The loop over
-- the instructions takes the length of the code, each pass over the pool the number of its entries, the
-- padding of a switch four rounds. A pointer into the pool is an index. The mark phase takes the size
-- of the heap in bytes: no two objects share an address. The search takes the number of pointers.
-- `arena_alloc` calls itself once, with fuel 2; `size_t` is taken to have 64 bits there.
-- `writeuint_from` takes the 16 bytes of `out`, `writeint_from` the ten bytes that hold 64 bits. In the StackMapTable an access outside a buffer is
-- the result `out_of_bounds`, apart from the errors that the code reports. The names of types there
-- (`slice *name`) are the null pointer in the code so far, but for the class of `this` and the mark of
-- an implicit top.
--
-- Not modelled: the shutdown of the scheduler and its roots for the garbage collector; the tables of
-- interface methods; the attributes, fields and methods of a class file; the sort of the collector, its
-- enumeration of roots and its loops over fields; the other instructions of the interpreter, the
-- compiler to WebAssembly, the heap and the other natives, which work on the raw memory of the machine
-- or call the host.
mod Prelude
pub mod Scheduler
pub mod Monitor
pub mod StackMap
pub mod Descriptor
pub mod HashTable
pub mod Wasm
pub mod Strings
pub mod Arena
pub mod Dispatch
pub mod ClassFile
pub mod Gc
pub mod Interpreter
mod Examples
