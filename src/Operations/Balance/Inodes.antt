-- ===== src/Operations/Balance/Inodes.antt =====
-- The transactions of what the operations share: finding, refreshing and asking for inodes.
use uvfs.Base.{ℕ, ◌-◌, ◌≡◌, arith, List}
use uvfs.Vfs.{Kernel, World, new_transaction, make_request, free}
use uvfs.Super.Inodes.{uvfs_iget, uvfs_refresh_inode, revalidate_with, uvfs_revalidate_inode}
use uvfs.Protocol.{Fhandle, Attr}
use uvfs.Dir.Lookup.{uvfs_lookup_by_name}

module _ (k : Kernel) where
  pub refresh-transactions :
      (p : ℕ) (a : Attr) (w : World) → (uvfs_refresh_inode k p a w).1.transactions ≡ w.transactions
  unfolding uvfs_refresh_inode
  refresh-transactions p a w = ground arith

  pub iget-transactions :
      (fh : Fhandle) (a : Attr) (w : World) → (uvfs_iget k fh a w).1.transactions ≡ w.transactions
  unfolding uvfs_iget
  iget-transactions fh a w = ground arith

  pub lookup_by_name-transactions :
      (p : ℕ) (name : List ℕ) (w : World)
      → (uvfs_lookup_by_name k p name w).1.transactions ≡ w.transactions
  unfolding uvfs_lookup_by_name new_transaction make_request free
  lookup_by_name-transactions p name w = ground arith

  revalidate_with-transactions :
      (p serial : ℕ) (w : World)
      → (revalidate_with k p serial w).1.transactions ≡ w.transactions - 1
  unfolding revalidate_with make_request free
  revalidate_with-transactions p serial w = grind (arith, refresh-transactions)

  pub revalidate-transactions :
      (p : ℕ) (w : World) → (uvfs_revalidate_inode k p w).1.transactions ≡ w.transactions
  unfolding uvfs_revalidate_inode new_transaction
  revalidate-transactions p w = grind (arith, revalidate_with-transactions)
