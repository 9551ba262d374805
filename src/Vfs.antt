-- ===== src/Vfs.antt =====
-- uvfs.h and the kernel around the file system's operations: what an operation sees of it, and the
-- calls by which it changes it. The functions of the kernel and the server's answers are a parameter.
pub mod Mode
use uvfs.Base.{
  ℕ, ◌+◌, ◌-◌, ◌%◌, ◌≡◌, Bool, true, false, List, [], ◌∷◌, Option, none, some, update,
  if◌then◌else◌, word,
}
use uvfs.Protocol.{Fhandle, Timespec, Attr, Request, Reply}

-- The operation tables of operations.c that `uvfs_iget` chooses from.
pub data Operations : Type 0 where
  no_operations file_operations dir_operations symlink_operations special_operations : Operations

-- `struct uvfs_inode_info`, with the fields of the kernel's inode that the code reads or writes.
pub record Inode : Type 0 where
  pub fh : Fhandle
  pub attr_uid : ℕ
  pub i_ino : ℕ
  pub no_times : Bool  -- S_NOATIME and S_NOCMTIME of i_flags
  pub i_mode : ℕ
  pub i_nlink : ℕ
  pub i_uid : ℕ
  pub i_gid : ℕ
  pub i_size : ℕ
  pub i_atime : Timespec
  pub i_mtime : Timespec
  pub i_ctime : Timespec
  pub i_blocks : ℕ
  pub i_rdev : ℕ
  pub i_op : Operations

-- `struct iattr`, as far as the code reads it.
pub record Iattr : Type 0 where
  pub ia_valid : ℕ
  pub ia_mode : ℕ
  pub ia_uid : ℕ
  pub ia_gid : ℕ
  pub ia_size : ℕ
  pub ia_atime : Timespec
  pub ia_mtime : Timespec
  pub ia_ctime : Timespec

-- A call of the kernel by its effect; an inode is told by its address, an entry by its
-- name, or by its address where the kernel returned one.
pub data Event : Type 0 where
  unlock_new_inode : ℕ → Event
  invalidate_inode_pages : ℕ → Event
  d_drop : List ℕ → Event
  d_instantiate : List ℕ → ℕ → Event
  splice_alias : Option ℕ → List ℕ → Event
  shrink_dcache_parent : List ℕ → Event
  set_dentry_operations : ℕ → Event
  set_entry_operations : List ℕ → Event
  inode_setattr : ℕ → Iattr → Event

-- What one operation sees and leaves.
pub record World : Type 0 where
  pub inode : ℕ → Inode  -- by address
  pub serial_number : ℕ
  pub transactions : ℕ  -- allocated by this thread and not freed
  pub sent : List Request  -- the requests of this thread, the last one first
  pub events : List Event  -- the kernel calls of this thread, the last one first

-- A `struct dentry *` that a function returns: NULL, an error by ERR_PTR, or an entry.
pub data EntryPointer : Type 0 where
  null : EntryPointer
  err_ptr : ℕ → EntryPointer
  entry : ℕ → EntryPointer

-- What iget5_locked returns: an inode that it found, a new one, marked I_NEW and passed to the
-- initialiser, or NULL.
pub data Lookup : Type 0 where
  found : ℕ → Lookup
  new : ℕ → Lookup
  missing : Lookup

-- The kernel's functions and the server.
pub record Kernel : Type 0 where
  pub current_fsuid : ℕ
  pub current_fsgid : ℕ
  pub kmalloc : World → Bool
  -- What the union holds when uvfs_make_request returns, and the inodes as other threads have left
  -- them by then.
  pub answer : World → Request → Reply
  pub meanwhile : World → Request → ℕ → Inode
  -- By hash value and the test that it makes of an inode.
  pub iget5_locked : World → ℕ → (Inode → Bool) → Lookup
  -- What the kernel says of the calling process and of the cached entries.
  pub d_splice_alias : World → Option ℕ → List ℕ → EntryPointer
  pub in_group_p : ℕ → Bool
  pub dac_override : Bool
  pub dac_read_search : Bool
  pub have_submounts : World → List ℕ → Bool
  -- An inode by hash value and test, or NULL.
  pub ilookup5 : World → ℕ → (Inode → Bool) → Option ℕ
  pub d_obtain_alias : World → ℕ → EntryPointer
  -- The root's entry, or NULL.
  pub d_alloc_root : World → ℕ → Option ℕ
  -- The bytes around a reply's directory data, by their 64-bit offset from it.
  pub stray_byte : World → ℕ → ℕ
  -- 0 or an error, and what the second leaves of the inode.
  pub inode_change_ok : Inode → Iattr → ℕ
  pub inode_setattr : Inode → Iattr → ℕ × Inode
  -- What becomes of a link's text, a C string.
  pub vfs_readlink : ℕ → List ℕ → ℕ
  pub vfs_follow_link : List ℕ → ℕ

abbrev pub Op : Type 0 → Type 0
Op A = World → A × World

infixl 5 ◌>>=◌ ◌>>◌
abbrev pub ◌>>=◌ : {A B : Type 0} → Op A → (A → Op B) → Op B
◌>>=◌ m f w = let (a, w') = m w in f a w'

abbrev pub ◌>>◌ : {B : Type 0} → Op (Unit {0}) → Op B → Op B
m >> k = m >>= λ _. k

abbrev pub return : {A : Type 0} → A → Op A
return a w = (a, w)

abbrev pub when : Bool → Op (Unit {0}) → Op (Unit {0})
when b m w = if b then m w else (tt, w)

abbrev pub get_inode : ℕ → Op Inode
get_inode p w = (w.inode p, w)

abbrev pub modify_inode : ℕ → (Inode → Inode) → Op (Unit {0})
modify_inode p f w = (tt, record w { inode = update w.inode p (f (w.inode p)) })

abbrev pub call : Event → Op (Unit {0})
call e w = (tt, record w { events = e ∷ w.events })

-- The part of driver.c's interface that an operation sees.
module _ (k : Kernel) where
  -- The serial of the new transaction, or `none` for NULL.
  unfoldable pub new_transaction : Op (Option ℕ)
  new_transaction w =
      if k.kmalloc w
      then (
        some w.serial_number,
        record w {
          serial_number = (w.serial_number + 1) % word;
          transactions = w.transactions + 1;
        },
      )
      else (none, w)

  unfoldable pub make_request : Request → Op Reply
  make_request r w = (k.answer w r, record w { sent = r ∷ w.sent; inode = k.meanwhile w r })

  -- An operation begins with a new transaction, and fails at once where there is none.
  abbrev pub with_transaction : {A : Type 0} → A → (ℕ → Op A) → Op A
  with_transaction failure body w =
      let (trans, w') = new_transaction w in
      elim trans [ none ↦ (failure, w') | some serial ↦ body serial w' ]

unfoldable pub free : Op (Unit {0})
free w = (tt, record w { transactions = w.transactions - 1 })
