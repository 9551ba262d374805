-- ===== src/File/Attributes.antt =====
-- file.c: what uvfs_setattr does to the inode, and what it asks of the server.
use uvfs.Base.{ℕ, ◌/◌, ◌%◌, ◌^◌, update, ◌≡◌, ◌∷◌, arith, ◌==◌, if◌then◌else◌, is_negative}
use uvfs.Base.Errno.{enomem, einval}
use uvfs.Protocol.{Request}
use uvfs.Vfs.{Inode, Iattr, Kernel, World, new_transaction, make_request, free, inode_setattr}
use uvfs.File.Calls.{without_times, setattr_with, set_locally, uvfs_setattr}

-- The request for all attributes of the caller's, in the words of the protocol.
abbrev pub attributes_request : Kernel → World → Inode → Iattr → Request
attributes_request k w inode attr = Request.setattr (record {
  type = 11;
  serial = w.serial_number;
  size = 96;
  uid = k.current_fsuid;
  gid = k.current_fsgid;
  fh = inode.fh;
  ia_valid = attr.ia_valid;
  ia_uid = attr.ia_uid;
  ia_gid = attr.ia_gid;
  ia_size = attr.ia_size % 2 ^ 32;
  ia_atime = record {
    tv_sec = attr.ia_atime.tv_sec % 2 ^ 32;
    tv_nsec = attr.ia_atime.tv_nsec % 2 ^ 32;
  };
  ia_mtime = record {
    tv_sec = attr.ia_mtime.tv_sec % 2 ^ 32;
    tv_nsec = attr.ia_mtime.tv_nsec % 2 ^ 32;
  };
  ia_ctime = record {
    tv_sec = attr.ia_ctime.tv_sec % 2 ^ 32;
    tv_nsec = attr.ia_ctime.tv_nsec % 2 ^ 32;
  };
  ia_mode = attr.ia_mode;
})

-- uvfs_setattr changes nothing if inode_change_ok refuses. Otherwise inode_setattr is called, before any
-- request is sent, with the caller's attributes less the bits 4 to 6 of their mask, those of the three
-- times, and leaves its inode. If that fails the result is EINVAL, with nothing sent and with those bits
-- gone from the caller's attributes. If it succeeds and there is memory, exactly one request is sent, with
-- the inode's handle and each attribute of the caller's in its own field, sizes and times in 32 bits and
-- with the whole mask; the result is the server's error, and the caller's attributes are as they were.
pub setattr_outcomes :
    (k : Kernel) (p : ℕ) (attr : Iattr) (w : World)
    → let ((err, attr'), w') = uvfs_setattr k p attr w in
      let mask = without_times attr.ia_valid in
      let untimed = record attr { ia_valid = mask } in
      let (failed, changed) = k.inode_setattr (w.inode p) untimed in
      let w₁ = record w {
        inode = update w.inode p changed;
        events = inode_setattr p untimed ∷ w.events;
      } in
      let w₂ = (new_transaction k w₁).1 in
      let r = attributes_request k w changed attr in
      let allowed = k.inode_change_ok (w.inode p) attr in
      (mask % 16 ≡ attr.ia_valid % 16)
      × (mask / 16 % 8 ≡ 0)
      × (mask / 128 ≡ attr.ia_valid / 128)
      × (if is_negative allowed
          then (err ≡ allowed) × (attr' ≡ attr) × (w' ≡ w)
          else if failed == 0
          then (attr' ≡ attr)
            × (if k.kmalloc w₁
                then (err ≡ (k.answer w₂ r).error) × (w'.sent ≡ r ∷ w.sent)
                else (err ≡ enomem) × (w' ≡ w₁))
          else (err ≡ einval) × (attr' ≡ untimed) × (w' ≡ w₁))
unfolding uvfs_setattr set_locally setattr_with new_transaction make_request free
setattr_outcomes k p attr w = (omega arith, omega arith, omega arith, ground arith)
