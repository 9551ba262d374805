-- ===== src/Operations/Requests/Inodes.antt =====
-- What is sent when the operations find, refresh and ask for inodes.
use uvfs.Base.{ℕ, ◌≡◌, arith, List}
use uvfs.Protocol.{Fhandle, Attr}
use uvfs.Vfs.{Kernel, World, new_transaction, make_request, free}
use uvfs.Super.Inodes.{uvfs_iget, uvfs_refresh_inode, revalidate_with, uvfs_revalidate_inode}
use uvfs.Dir.Lookup.{uvfs_lookup_by_name}
use uvfs.Operations.Requests.Members.{AllFit}

module _ (k : Kernel) where
  pub refresh-sent : (p : ℕ) (a : Attr) (w : World) → (uvfs_refresh_inode k p a w).1.sent ≡ w.sent
  unfolding uvfs_refresh_inode
  refresh-sent p a w = ground arith

  pub iget-sent : (fh : Fhandle) (a : Attr) (w : World) → (uvfs_iget k fh a w).1.sent ≡ w.sent
  unfolding uvfs_iget
  iget-sent fh a w = ground arith

  pub lookup_by_name-AllFit :
      (p : ℕ) (name : List ℕ) (w : World)
      → AllFit w.sent
      → AllFit (uvfs_lookup_by_name k p name w).1.sent
  unfolding uvfs_lookup_by_name new_transaction make_request free
  lookup_by_name-AllFit p name w h = ground arith

  pub revalidate-AllFit :
      (p : ℕ) (w : World) → AllFit w.sent → AllFit (uvfs_revalidate_inode k p w).1.sent
  unfolding uvfs_revalidate_inode revalidate_with new_transaction make_request free
  revalidate-AllFit p w h = grind (arith, refresh-sent)
