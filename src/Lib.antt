-- ===== src/Lib.antt =====
-- The kernel modules of the repository, with some of its user and bare metal code, modelled as
-- functions on explicit state.
--
-- Most of the logic is in kernel_modules/scull.c, a set of memory devices that share one ioctl and
-- one seek. Each operation is a function of the device, of the outcomes of what it asks the kernel
-- for (locks, allocations, copies from and to the user, waits) and of the caller's arguments, and
-- gives the device after it and the result. The kernel is not part of the repository: what it
-- answers is an argument, and Kernel.antt says what is relied on, as in `FillsBuffer`.
--
-- Base.antt: Boolean tests, lists and division on the native numbers.
--
-- Kernel.antt: error numbers, results, and the answers of the kernel.
--
-- Seek.antt: the llseek methods of kernel_modules/scull.c, kernel_modules/memfile.c and
-- kernel_modules/fops.c.
--
-- Scull/Params.antt: the parameters of the module. An `int` is kept as its pattern of 32 bits.
--
-- Scull/Device.antt: the bare device. Device/Defs.antt has `scull_trim`, `scull_follow` and the
-- arithmetic on positions, Device/Io.antt `scull_open`, `scull_read` and `scull_write`. The linked
-- list of quantum sets is a list, an array of quanta an option of a list, and a byte that nothing
-- has been stored in since `kmalloc` is `none`. Device/Follow.antt, Place.antt, Cells.antt,
-- Wrote.antt and Positions.antt lead from the walk along the list to the bytes at each position;
-- Write.antt, Read.antt, RoundTrip.antt and Shape.antt have the theorems on calls that find the
-- geometry unchanged when they get the lock. `scull_read` and `scull_write` read it before they wait
-- for the lock: Late.antt has them with a geometry that may be out of date, Calls.antt what each call
-- keeps, and Run.antt histories of calls that wait for each other.
--
-- Scull/Ioctl.antt: `scull_ioctl`, as a switch into actions and what each does to the parameters.
-- The encoding of commands is a parameter, `Abi`.
--
-- Scull/Pipe.antt: the pipe device, `scull_p_open` to `scull_p_poll`. Pointers into the buffer are
-- offsets. A wait gives the lock up, so the pipe that it ends with is an argument, and a call that
-- is not woken again is `asleep`. Pipe/Queue.antt reads a pipe as a queue of bytes, which is its
-- specification; History.antt has whole histories.
--
-- Scull/Access.antt: the devices that control who may open them. Access/Exclusion.antt runs
-- `scull_s_open` in the steps that its atomic operations leave, Access/Ownership.antt has histories of
-- `scull_u_open` and `scull_u_release` and the waiting `scull_w_open`, Access/Cloning.antt the list of
-- `scull_c_open`.
--
-- Memfile.antt: kernel_modules/memfile.c, a file in an array that grows. Memfile/Bytes.antt has what a
-- reservation leaves in memory, Memfile/Transfer.antt reads and writes against the bytes at each
-- position, Memfile/RoundTrip.antt what is read back, and what a failing allocation leaves.
--
-- Fops.antt: kernel_modules/fops.c, a file of four bytes, with its theorems in Fops/Laws.antt.
--
-- Scull/Module.antt: how the module is loaded and unloaded, from `scull_init_module` to
-- `scull_access_cleanup`. The kernel's side is a ledger, `Books`, of the ranges of device numbers and of
-- the references to character devices, with a count of the calls that undo what is not there.
-- Module/Ledger.antt has the loops on the ledger, Balance.antt and Loading.antt what it shows after
-- unloading and after loading, Memory.antt the memory that is held, Unload.antt the theorems.
--
-- Sync.antt: kernel_modules/sync.c, threads that increment a counter. `step` is one step of one thread,
-- and a schedule is the list of the threads in the order in which they run; Sync/Init.antt has
-- `sync_demo_init`, for which the schedule is an argument. Sync/Locked.antt and Sync/Steps.antt have the
-- invariant, Sync/Rank.antt the steps that are left, Sync/Outcome.antt and Sync/Progress.antt the
-- theorems.
--
-- Pagemap.antt: lkmc/pagemap.h. The answers of `pread` are an argument, which may be short. The loop
-- has eight rounds of fuel, which are always enough, for each stores at least a byte of eight.
-- Pagemap/Reading.antt has the loop, Pagemap/Address.antt packed entries and addresses.
--
-- SeqFile.antt: the iterators of kernel_modules/seq_file.c and of /proc/scullseq in
-- kernel_modules/scull.c. `Shows` and `Reads` are the calls that a sequence file makes of an iterator,
-- as the comments of kernel_modules/seq_file.c describe them, for every way in which a reader may cut
-- its reads. SeqFile/Devices.antt and SeqFile/Counter.antt have the theorems.
--
-- Baremetal.antt: baremetal/lib/syscalls.c, with the underscores left off the names. Addresses are
-- numbers of as many bits as the machine has, and what the UART shows at each look is a list. Baremetal/Heap.antt has the blocks of the
-- heap, Baremetal/Uart.antt what is read.
--
-- Workqueue.antt: kernel_modules/workqueue_cheat.c. The answers of the kernel are arguments, and a
-- queue is a flag that says whether it lives. Workqueue/Setup.antt has the loops of `myinit`,
-- Workqueue/Unwind.antt what a load comes to.
--
-- Pagemap/Maps.antt: userland/linux/pagemap_dump.c, for what one `read` has put in the buffer: the
-- parser of a line, the loop over its pages, and the loop over the lines. A place in the buffer is the
-- list of the characters from there on. The loop over the pages of a range has a round of fuel for each
-- page, and it may run out of it only where the range reaches the last page of the address space, for
-- there the address wraps. Maps/Line.antt has lines as the kernel prints them, Maps/Pages.antt the pages of
-- a line, Maps/Whole.antt the whole of what a read has given.
--
-- QemuEdu.antt: kernel_modules/qemu_edu.c. The registers are an interface, `Io`, and the answers of
-- the PCI layer are arguments; `Held` is the books of what the driver holds. QemuEdu/Registers.antt has
-- the handler and the file, QemuEdu/Probing.antt what `pci_probe` takes and `pci_remove` gives back.
--
-- Mmap.antt: kernel_modules/mmap.c. A page counts its holders, and a mapping counts the places where
-- its process has the page. Mmap/Pages.antt has the uses of an open file as a relation, with what the
-- processes and the kernel do on their own; Mmap/Contents.antt has what a read finds.
--
-- FileIo.antt: lkmc/file_io.h. `Stdio` is the calls of the C library, and in FileIo/Contents.antt
-- `OnFile` is what is relied on: a call that succeeds does to the position what it should.
--
-- Memcmp.antt: `lkmc_assert_memcmp` of lkmc.c, on the bytes behind its two pointers.
--
-- There is no fuel, but for Pagemap.antt and Pagemap/Maps.antt: the loops run along a list, down from a
-- number, or along the list of wake-ups.
-- Where C gives a run no meaning, such as a division by zero or an access outside of an object, the
-- result is `undefined`, and the theorems show where it cannot occur.
--
-- Not modelled: printing, addresses in debug output, the examples of timers and of waits, whose logic
-- is the scheduler of the kernel, the modules that only demonstrate a call of the kernel, the user
-- programs but for userland/linux/pagemap_dump.c, and the build scripts.
pub mod Base
pub mod Kernel
pub mod Seek
pub mod Scull
pub mod Memfile
pub mod Fops
pub mod Sync
pub mod Pagemap
pub mod SeqFile
pub mod Baremetal
pub mod Workqueue
pub mod QemuEdu
pub mod Mmap
pub mod FileIo
pub mod Memcmp
