-- ===== src/Lib.antt =====
-- uvfs: a file system in the Linux kernel (the module pmfs) whose operations are done by a server in
-- user space.
--
-- The parts. An operation of the file system (dir.c, file.c, super.c) asks driver.c for a transaction,
-- writes a request into it, hands it to uvfs_make_request and waits. A thread of the server reads the
-- request through /proc/fs/pmfs (uvfsd_read), and some thread of the server writes the reply
-- (uvfsd_write), which wakes the operation up; a signal may end the wait before. All of that goes through
-- two lists, Uvfs_requests and Uvfs_replies, a counter of serial numbers and one lock, Uvfs_lock.
--
-- Where the parts are modelled:
--   Driver    driver.c. State: uvfs_transaction_s (uvfs.h) as `Transaction`, the statics and the heap of
--             transactions as `Driver`. A transaction is an address. Daemon: uvfsd_open, uvfsd_release,
--             uvfsd_read, uvfsd_write and uvfsd_ioctl; Request: uvfs_new_transaction and
--             uvfs_make_request. A function that drops the lock is one definition for each section that
--             holds it: `read_head`, `read_finish`; `write_head`, `write_finish`; `enter`,
--             `check_signal`, `unlink`. System: the threads, each at its place between two sections, as
--             a step relation. Invariant and Progress: what every step keeps, with Safety, Liveness,
--             Order, Serials, Delivery and Hazards on top. Lifecycle: the life of one transaction, as
--             the specification of what a step may do to it. Integrity: its bytes while it is
--             pending. Setup: uvfs_init, uvfs_cleanup.
--   Protocol  protocol.h: a record for each request, one for the members of the union of replies, and
--             the bytes of a request (Wire), with the offset of each of its
--             members (Offsets).
--   Vfs       the kernel around an operation: inodes by address, the calls that matter as events. Its
--             functions and the server's answers are the parameter `Kernel`.
--   Super     super.c: uvfs_iget, uvfs_refresh_inode, uvfs_revalidate_inode (Inodes), uvfs_encode_fh,
--             uvfs_fh_to_dentry, uvfs_fh_to_parent, uvfs_decode_fh (Handles), uvfs_get_parent, uvfs_get_dentry (Entries),
--             uvfs_statfs, uvfs_parse_options, uvfs_read_super (Mount).
--   Dir       dir.c: uvfs_create, uvfs_symlink, uvfs_mkdir (Create), uvfs_lookup, uvfs_lookup_by_name,
--             uvfs_dentry_revalidate (Lookup), uvfs_unlink, uvfs_rmdir, uvfs_rename (Remove),
--             uvfs_permission (Permission), uvfs_readdir (Readdir).
--   File      file.c: uvfs_writepage, uvfs_readpage, uvfs_write_end, uvfs_commit_write, uvfs_write_begin
--             (Pages), uvfs_getattr, uvfs_setattr, and the calls that revalidate an inode first (Calls).
--   Symlink   symlink.c: uvfs_readlink, uvfs_follow_link.
--   Signal    uvfs_signal.cc: the tool that signals the driver (Device: on the driver).
--   Operations  operations.c: the entries of the tables that send requests as one type, `perform`;
--             Wire: a request's bytes in driver.c, Fields: its members in them.
--   Base      lists and tests on the native numbers, 32-bit words in memory, error numbers.
--
-- Numbers. An `int` or `unsigned` is its bit pattern below 2 ^ 32, so -EIO is 2 ^ 32 - 5, and a test for
-- a negative error is one of the upper half. A size_t has 64 bits. A page has 4096 bytes. Serial_number
-- wraps around at 2 ^ 32. The use count of
-- the device, an int, is a number without a bound: fewer than 2 ^ 31 files are open at once. The lengths
-- and the type of an exported handle, also ints, are not negative. Kernels from 2.6.32 on are modelled
-- where the code has both branches.
--
-- The interleavings. Any number of server threads and of file-system threads run; a step is one section
-- under the lock, or what a thread does between two sections (a copy, a wait that ends). The loop of
-- uvfsd_read is a place of its thread; every other loop but one runs down a list or a count. `Any` accepts a
-- reply at any time; `Careful` says that no reply is accepted for a request that some server thread still
-- copies, and none in the moment between an interrupted request's second wait and the section that
-- unlinks it. The kernel runs the last release only when no call on the file is in progress.
--
-- Fuel. Only uvfs_readdir has some, one unit for each round of its endless loop. With a server that lists
-- a directory, more rounds than the directory has entries left are enough, since each reply has one.
--
-- What is abstracted. Wake-ups of Uvfs_driver_queue are not kept: a sleeping server thread may look
-- again at any time. Signal masks are not kept: a signal may be pending whenever the code looks. A reply
-- is read by its members, which in the source overlap in one union; what the union holds when a server
-- answers another request than the one it was asked is some value of that record. A reply that makes
-- uvfs_readpage copy beyond its page is an outcome of its own, `overrun`, in which
-- the transaction counts as freed. Memory around a reply's directory entries is a
-- parameter of the model, as are the kernel's functions.
--
-- Not modelled: the branches for kernels before 2.6.32, but for uvfs_decode_fh; uvfs_alloc_inode,
-- uvfs_destroy_inode and uvfs_get_sb, which only pass on to the kernel; debug output.
pub mod Base
pub mod Driver
pub mod Protocol
pub mod Vfs
pub mod Super
pub mod Dir
pub mod File
pub mod Symlink
pub mod Signal
pub mod Operations
