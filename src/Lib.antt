-- ===== src/Lib.antt =====
-- Elitra OS, a 64-bit kernel for x86-64 in Rust: its memory management, its scheduler, its
-- network protocols, its file system in memory, its table of mounts and its helpers on memory
-- and strings.
--
-- The memory management is kernel/src/mm. `Mm.Pmm` is pmm.rs, the bitmap of physical frames,
-- with the byte memory that holds it beside the statics (`Mm.Bitmap`, over `Base.Bits`).
-- `Mm.Cow` is cow.rs, the reference counts of frames shared copy-on-write; it takes its frames
-- from `Mm.Pmm`. `Mm.Heap` is heap.rs, the kernel heap, as the list of its blocks. `Mm.Vma` is
-- vma.rs, the areas of a process, and `Mm.Swap` the slots and the page table entries of
-- swap.rs. `Mm.Paging` is paging.rs, the page tables as words of physical memory, with frames
-- from `Mm.Pmm`. The operations keep the names of the C functions without `krust_`
-- (`krust_pmm_alloc_frame` is `pmm_alloc_frame`).
--
-- `Process` is kernel/src/process/scheduler.rs. `Process.Task` has the tasks with the pointers
-- between them, and the state of the scheduler; `Process.Ready` is the ready queue,
-- `Process.Sleep` the sleep queue over the same `next` pointers, `Process.Signal` the signals,
-- `Process.Switch` yield, sleep, preemption and exit, and `Process.Family` the lists of
-- children, waitpid and the numbers of tasks. It is the view of one processor; in a call that waits
-- for a child, what the other tasks do in each turn is an argument; the ticks of the
-- timer and the address of the interrupt's frame are arguments.
--
-- The network is kernel/src/net. `Net.Wire` has packets as lists of bytes and the byte orders
-- of the headers, `Net.Checksum` the Internet checksum. `Net.Ethernet`, `Net.Arp`, `Net.Ipv4`,
-- `Net.Icmp`, `Net.Udp` and `Net.Segment` are the parsers and builders of ethernet.rs, arp.rs,
-- ipv4.rs, icmp.rs, udp.rs and tcp.rs. `Net.Tcp` is the connection of tcp.rs: `Net.Tcp.Receive`
-- is `process_segment`, `Net.Tcp.Send` the calls of the owner and the timer, and `incoming` in
-- `Net.Tcp.Graph` the connection that a listener of net/mod.rs makes. `Net.Socket` is
-- kernel/src/util/socket.rs, with the ports and the table of sockets of net/mod.rs. `Net.Dns`
-- and `Net.Dhcp` are the messages of dns.rs and dhcp.rs.
--
-- `Fs.Vfs` is kernel/src/fs/vfs.rs: the nodes and the search for a path, `Fs.Vfs.Make` the
-- calls that make nodes, `Fs.Vfs.Remove` those that remove and rename them, `Fs.Vfs.Attributes`
-- modes, owners, links and the working directory, `Fs.Vfs.Files` opening, reading and writing,
-- `Fs.Vfs.Table` the calls on descriptors alone, and `Fs.Vfs.Pipe` the pipes, which other tasks
-- change while a call waits. The nodes are a store by address, the list of a directory's nodes
-- the list of their addresses; the calls of `krust_malloc` and the functions of devices are
-- arguments. `krust_vfs_read` is `vfs_read` and so on; the calls that only make or remove a
-- node have the name without `vfs_`.
--
-- `Fs.Mount` is kernel/src/fs/mount.rs, `Util.Klib` is kernel/src/util/klib.rs, and
-- `Drivers.Block` the table of block devices of kernel/src/drivers/storage/block.rs. `Tests`
-- has the theorems at concrete inputs.
--
-- A handler is a function from the state to the state and the answer. Locks are held for the
-- whole of an operation, so an operation is one step; where the code holds none, in cow.rs, its
-- atomic accesses are also taken one by one (`Mm.Cow.Race`). A null pointer is address 0 or
-- `none`. What would stop the kernel or read outside of a structure is a value of its own
-- (`Parse.panics`, `none` of `heap_free`). Numbers are natural numbers; where the code wraps,
-- so does the model (`add32`, `% 2 ^ 32`). The answer of `krust_malloc` in vma.rs and the tick
-- counter in tcp.rs are arguments.
--
-- The folding of a checksum has three rounds, enough for a sum of 32 bits. The loops of the
-- string routines that look for a zero byte have fuel, above the length of the text; the digits
-- of a number have 64 rounds, one for each bit. The search for a path has fuel for the path and
-- for the buffers of 510 bytes of the six links that may be followed; the loops of a pipe have
-- it for 201 waits before each byte. The walks over tasks have 128 rounds, as many as there are
-- tasks; waiting for a child has a number of turns, after which it is said to wait still. The other loops go over a list or count down.
--
-- Not modelled: the page fault handler and the copies of address spaces in paging.rs, the walks
-- of page tables in swap.rs, the start of tasks in scheduler.rs and the system calls
-- (syscalls.rs), the file systems on disks (ext2.rs, fat32.rs) and procfs.rs, the count of
-- nodes in vfs.rs, `dns_resolve`, the receive loop of net/mod.rs with its connection table, the
-- ELF loader, and everything that drives a device or the screen (drivers/, power/, ui/, arch/),
-- which is mostly input and output at fixed addresses. The programs of userspace/ are separate.
pub mod Base
pub mod Drivers
pub mod Fs
pub mod Mm
pub mod Net
pub mod Process
pub mod Tests
pub mod Util
