-- ===== src/Super/Attributes.antt =====
-- super.c: an inode that uvfs_iget or uvfs_revalidate_inode leaves has what the server said of it.
use uvfs.Base.{refl, not, ◌&&◌, ◌%◌, ℕ, ◌≡◌, ◌≢◌, Bool, true, some, arith, ◌==◌, if◌then◌else◌, ◌∷◌}
use uvfs.Protocol.{Fhandle, Attr}
use uvfs.Vfs.{
  Inode, Kernel, World, found, new_transaction, make_request, free, invalidate_inode_pages,
}
use uvfs.Super.Inodes.{
  uvfs_compare_inode, copy_attributes, is_changed, uvfs_refresh_inode, uvfs_iget, revalidate_with,
  uvfs_revalidate_inode, getattr_request,
}

-- The inode has the attributes of the reply, each in its own field, the mode in 16 bits, and the uid of
-- the caller that asked.
pub record HasAttributes (a : Attr) (uid : ℕ) (inode : Inode) : Type 0 where
  pub mode : inode.i_mode ≡ a.i_mode % 65536
  pub nlink : inode.i_nlink ≡ a.i_nlink
  pub owner : inode.i_uid ≡ a.i_uid
  pub group : inode.i_gid ≡ a.i_gid
  pub size : inode.i_size ≡ a.i_size
  pub atime :
      (inode.i_atime.tv_sec ≡ a.i_atime.tv_sec) × (inode.i_atime.tv_nsec ≡ a.i_atime.tv_nsec)
  pub mtime :
      (inode.i_mtime.tv_sec ≡ a.i_mtime.tv_sec) × (inode.i_mtime.tv_nsec ≡ a.i_mtime.tv_nsec)
  pub ctime :
      (inode.i_ctime.tv_sec ≡ a.i_ctime.tv_sec) × (inode.i_ctime.tv_nsec ≡ a.i_ctime.tv_nsec)
  pub blocks : inode.i_blocks ≡ a.i_blocks
  pub device : inode.i_rdev ≡ a.devno
  pub asked_by : inode.attr_uid ≡ uid

-- Nothing else of an inode has changed.
abbrev pub SameIdentity : Inode → Inode → Type 0
SameIdentity i j =
    (i.fh ≡ j.fh) × (i.i_ino ≡ j.i_ino) × (i.no_times ≡ j.no_times) × (i.i_op ≡ j.i_op)

copy_attributes-HasAttributes :
    (uid : ℕ) (a : Attr) (i j : Inode) → j ≡ copy_attributes uid a i → HasAttributes a uid j
copy_attributes-HasAttributes uid a i j e = record {
  mode = rw e refl;
  nlink = rw e refl;
  owner = rw e refl;
  group = rw e refl;
  size = rw e refl;
  atime = rw e (refl, refl);
  mtime = rw e (refl, refl);
  ctime = rw e (refl, refl);
  blocks = rw e refl;
  device = rw e refl;
  asked_by = rw e refl;
}

iget-copies :
    (k : Kernel) (fh : Fhandle) (a : Attr) (w : World) (p : ℕ)
    → (uvfs_iget k fh a w).0 ≡ some p
    → let j = (uvfs_iget k fh a w).1.inode p in j ≡ copy_attributes k.current_fsuid a j
unfolding uvfs_iget
iget-copies k fh a w p e = ground arith

iget-HasAttributes :
    (k : Kernel) (fh : Fhandle) (a : Attr) (w : World) (p : ℕ)
    → (uvfs_iget k fh a w).0 ≡ some p
    → HasAttributes a k.current_fsuid ((uvfs_iget k fh a w).1.inode p)
iget-HasAttributes k fh a w p e =
    let j = (uvfs_iget k fh a w).1.inode p in
    copy_attributes-HasAttributes k.current_fsuid a j j (iget-copies k fh a w p e)

-- If iget5_locked finds only inodes that pass its test, an inode that uvfs_iget returns is the one of
-- the handle by uvfs_compare_inode, and has every attribute of the reply in its own field, the mode in
-- 16 bits, with the caller's uid as `attr_uid`; every other inode is as it was.
pub iget_reflects_reply :
    (k : Kernel) (fh : Fhandle) (a : Attr) (w : World) (p x : ℕ)
    → ((v : World) (hash : ℕ) (test : Inode → Bool) (q : ℕ)
        → k.iget5_locked v hash test ≡ found q
        → test (v.inode q) ≡ true)
    → (uvfs_iget k fh a w).0 ≡ some p
    → p ≢ x
    → let w' = (uvfs_iget k fh a w).1 in
      (uvfs_compare_inode (w'.inode p) fh ≡ true)
      × HasAttributes a k.current_fsuid (w'.inode p)
      × (w'.inode x ≡ w.inode x)
unfolding uvfs_iget
iget_reflects_reply k fh a w p x law e ne = (
  ground (arith, law w fh.fs_sfuid (λ inode. uvfs_compare_inode inode fh) p),
  iget-HasAttributes k fh a w p e,
  ground arith,
)

-- The pages go if the size or one of the parts of the modification time differs.
stale_iff :
    (i : Inode) (a : Attr)
    → is_changed i a
      ≡ not (
          i.i_size == a.i_size
          && (i.i_mtime.tv_sec == a.i_mtime.tv_sec && i.i_mtime.tv_nsec == a.i_mtime.tv_nsec))
unfolding is_changed
stale_iff i a = ground arith

-- When uvfs_revalidate_inode returns 0, the inode has every attribute of the server's reply in its own
-- field, the mode in 16 bits, with the caller's uid as `attr_uid`, and its handle, number and operations
-- as before; its cached pages were dropped exactly if the size or a part of the modification time was
-- another one than the reply's. When it returns an error that the server gave, the inodes are as the
-- other threads have left them.
pub revalidate_reflects_reply :
    (k : Kernel) (p : ℕ) (w : World)
    → k.kmalloc w ≡ true
    → let w₁ = (new_transaction k w).1 in
      let r = getattr_request k w.serial_number (w.inode p).fh in
      let reply = k.answer w₁ r in
      let a = reply.getattr_a in
      let seen = k.meanwhile w₁ r p in
      let (err, w') = uvfs_revalidate_inode k p w in
      let same =
        seen.i_size == a.i_size
        && (seen.i_mtime.tv_sec == a.i_mtime.tv_sec && seen.i_mtime.tv_nsec == a.i_mtime.tv_nsec) in
      (err ≡ reply.error)
      × (if err == 0
          then HasAttributes a k.current_fsuid (w'.inode p)
            × SameIdentity (w'.inode p) seen
            × (w'.events ≡ (if same then w.events else invalidate_inode_pages p ∷ w.events))
          else (w'.inode ≡ k.meanwhile w₁ r) × (w'.events ≡ w.events))
unfolding uvfs_revalidate_inode revalidate_with uvfs_refresh_inode new_transaction make_request free
revalidate_reflects_reply k p w m =
    let r = getattr_request k w.serial_number (w.inode p).fh in
    let w₁ = (new_transaction k w).1 in
    let a = (k.answer w₁ r).getattr_a in
    let seen = k.meanwhile w₁ r p in
    let uid = k.current_fsuid in
    ground (
      arith,
      copy_attributes-HasAttributes uid a seen (copy_attributes uid a seen) refl,
      stale_iff seen a,
    )
