-- ===== src/Driver/Setup/Removal.antt =====
-- driver.c: what is left registered after the module is loaded, or fails to be.
use uvfs.Base.{◌≡◌, true, false, ◌&&◌, not, arith, ◌==◌, if◌then◌else◌, is_negative}
use uvfs.Driver.Setup.{Registry, Answers, register, uvfs_init, uvfs_cleanup}

abbrev pub unregistered : Registry
unregistered = record {
  proc_entry = false;
  proc_fops = false;
  file_system = false;
  inode_cache = false;
}

-- What uvfs_init leaves: everything registered where it returns 0, and then uvfs_cleanup removes it all.
-- Where it returns an error there is nothing left, with one exception: if only the inode cache fails, the
-- file system and the proc entry with its operations stay registered. It returns 0 exactly if all three
-- calls of the kernel succeed.
pub init_registers :
    (o : Answers)
    → let (err, r) = uvfs_init o unregistered in
      let only_cache_fails =
        o.create_proc_entry
        && (not (is_negative o.register_filesystem) && not o.kmem_cache_create) in
      (if err == 0
        then (r.proc_fops && (r.file_system && r.inode_cache) ≡ true)
          × (uvfs_cleanup r ≡ unregistered)
        else r ≡ record unregistered {
          proc_entry = only_cache_fails;
          proc_fops = only_cache_fails;
          file_system = only_cache_fails;
        })
      × ((err == 0) ≡ (
          o.create_proc_entry && (not (is_negative o.register_filesystem) && o.kmem_cache_create)))
unfolding uvfs_init register uvfs_cleanup
init_registers o = ground arith
