-- ===== src/Driver/Setup.antt =====
-- driver.c: uvfs_init and uvfs_cleanup, with the inode cache of super.c. The state is what the module has
-- registered with the kernel.
pub mod Removal
mod Tests
use uvfs.Base.{ℕ, Bool, true, false, ◌==◌, if◌then◌else◌, is_negative, not}
use uvfs.Base.Errno.{eio, enomem}

pub record Registry : Type 0 where
  pub proc_entry : Bool  -- /proc/fs/pmfs
  pub proc_fops : Bool  -- with Uvfsd_file_operations
  pub file_system : Bool  -- Uvfs_file_system_type
  pub inode_cache : Bool  -- uvfs_inode_cachep

-- What the kernel answers: whether create_proc_entry and kmem_cache_create return something else than
-- NULL, and the result of register_filesystem.
pub record Answers : Type 0 where
  pub create_proc_entry : Bool
  pub register_filesystem : ℕ
  pub kmem_cache_create : Bool

abbrev pub uvfs_init_inodecache : Answers → Registry → ℕ × Registry
uvfs_init_inodecache o r =
    if o.kmem_cache_create then (0, record r { inode_cache = true }) else (enomem, r)

abbrev pub remove_proc_entry : Registry → Registry
remove_proc_entry r = record r { proc_entry = false; proc_fops = false }

-- uvfs_init, from register_filesystem on.
unfoldable pub register : Answers → Registry → ℕ × Registry
register o r =
    let registered = record r { file_system = true } in
    let (failed, r') = uvfs_init_inodecache o registered in
    if is_negative o.register_filesystem
    then (o.register_filesystem, remove_proc_entry r)
    else if failed == 0
    then (0, r')
    else (enomem, r')

-- The error, or 0, and what is registered.
unfoldable pub uvfs_init : Answers → Registry → ℕ × Registry
unfolding register
uvfs_init o r =
    if o.create_proc_entry
    then register o (record r { proc_entry = true; proc_fops = true })
    else (eio, r)

unfoldable pub uvfs_cleanup : Registry → Registry
uvfs_cleanup r = record (remove_proc_entry (record r { file_system = false })) {
  inode_cache = false;
}
