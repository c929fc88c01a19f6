-- ===== src/Lib.antt =====
-- Whuse, a kernel in Rust for riscv64 and loongarch64: a model of its own crates and their
-- theorems.
--
-- Parts. The scheduler (crates/task/src/lib.rs) decides which thread runs. The memory crate
-- (crates/mm/src/lib.rs) keeps an address space as a map of segments, hands out page frames and
-- loads programs. The process table (crates/proc/src/lib.rs) keeps processes, their descriptors,
-- signals and futex queues; the system calls (crates/syscall/src/lib.rs) work on all of these.
--
-- Files. `Prelude` has the shared names: Boolean tests, lists, `KernelResult`, words of 64 bits
-- and `BTreeMap` as the list of its entries by increasing key.
-- `Task` is crates/task/src/lib.rs, function by function. A method that changes the scheduler
-- returns the new one beside its result. A wait queue is passed in and out, as the source does by
-- `&mut`. The four labels of `task_state_label` are constructors. `Task.Steps` puts the calls
-- together as one step function; a spawned id has to be new, and `start` needs that no task runs.
-- `Mm` is crates/mm/src/lib.rs: `Mm.Frames` the frame allocator, `Mm.Mappings` the operations on
-- the map of segments (`overlaps`, `unmap_range_inner`, `mprotect`, `insert_segment`,
-- `find_segment` and the search for a free range), and `Mm.Space` the operations of
-- `AddressSpace`: mapping, `brk`, `unmap`, `mprotect`, `clear` and `clone_private`. They are
-- functions on a world, which has the address space and the bytes at the kernel's addresses, and
-- end with a result. `Mm.Space.Access` reads and writes user memory, where the fuel of a loop is
-- the bytes that are left; `read_cstr` has the test of `String::from_utf8` as a parameter.
-- `Mm.Elf` parses the headers of an ELF image, which `Mm.Space.Loading` maps, and `Mm.Stack`
-- builds the first stack of a program.
-- `Proc` is crates/proc/src/lib.rs: the process record; `Proc.Futex` the futex queues;
-- `Proc.Table` identities, groups and sessions; `Proc.Signals` the settings of a thread and the
-- signal actions; `Proc.Wait` waiting and reaping; `Proc.Fds` the descriptors of a process, where
-- the search for a free one takes as much fuel as there are descriptors, and one more. A process
-- names its address space and its files' nodes by numbers. An operation that can only fail before
-- it changes anything returns a table or an error.
--
-- `Vfs` is crates/vfs/src/lib.rs. The source shares nodes by `Arc<Mutex<Node>>`; here a node is a
-- number in a heap, and so is the channel of two connected sockets. `Vfs.Paths` has the functions
-- on paths, which are lists of bytes, and `Vfs.Paths.Resolution` what their components mean;
-- `Vfs.Objects` with its children what a `FileHandle` does: reading, writing, seeking, readiness,
-- `epoll_ctl`, `Clone` and `Drop`; `Vfs.Tree` the tree in memory: `Vfs.Tree.Follow` symbolic links
-- and external paths, `Vfs.Tree.Changes` `unlink`, `link`, `rename` and `chmod`, `Vfs.Tree.Nodes`
-- and `Vfs.Tree.Creating` the creation of nodes. `Vfs.Handles` makes pipes, event counters and the
-- other objects without a name, `Vfs.Mounts` keeps the table of mounts, `Vfs.Sockets` has the
-- calls on sockets, with raw ones and their checksum in `Vfs.Sockets.Raw`, `Vfs.Dirents` reads
-- directories, and `Vfs.Opening` opens files; its `open_path` is `KernelVfs::open`. A call of the
-- ext4 reader and of the global allocator is a field of `Outside`. What is written to the console
-- is not kept.
--
-- Numbers. A `usize` is a number below 2 ^ 64. An unchecked `+` on addresses wraps, as in a
-- release build; `checked_add` and `saturating_add` are the source's. `align_up` and `align_down`
-- are given for powers of two, the only alignments that the source uses.
--
-- Loops. A loop over a list is a recursion on the list. The search for a free range takes fuel:
-- one turn more than there are segments, which is enough where every segment ends a page below the
-- top of the address range; out of fuel it and its callers have no result (`none`), never an
-- error. `ensure_memory_dir` is an `Option` with fuel, and one more than the path is long is
-- enough; `create_node` has no fuel. Folding the carry of a checksum of 32 bits takes two turns,
-- and has three. A walk along symbolic links takes the 16 steps that the source allows.
--
-- Not modelled. Locks (each operation holds its lock throughout; a directory linked into itself,
-- where `unlink` would take one lock twice, is an ordinary directory here), page tables, the
-- loading of a program with its interpreter, the sending of signals, fork, exec and exit, the
-- mounting of an ext4 image, the tree of a new file system, the system calls, device drivers, boot
-- and trap glue, and the vendored crates. `Platform` is the parameter that gives `phys_to_virt`,
-- the memory regions, and what the global allocator answers.
pub mod Prelude
pub mod Task
pub mod Mm
pub mod Vfs
pub mod Proc
