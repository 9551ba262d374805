-- ===== src/Driver/Setup/Tests.antt =====
-- Loading the module, with an inode cache that cannot be made.
use uvfs.Base.{◌≡◌, true, false}
use uvfs.Driver.Setup.{Answers, register, uvfs_init}
use uvfs.Driver.Setup.Removal.{unregistered, init_registers}

abbrev answers : Answers
answers = record { create_proc_entry = true; register_filesystem = 0; kmem_cache_create = false }

init_registers_example :
    ((uvfs_init answers unregistered).1
      ≡ record unregistered { proc_entry = true; proc_fops = true; file_system = true })
    × (false ≡ false)
unfolding uvfs_init register
init_registers_example = init_registers answers
