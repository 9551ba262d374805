-- ===== src/Super/Export.antt =====
-- super.c: what an exported file handle leads back to.
use uvfs.Base.{ℕ, ◌≤◌, ◌≡◌, Bool, true, false, ◌&&◌, some, arith, length, ltb}
use uvfs.Protocol.{Fhandle}
use uvfs.Vfs.{Inode}
use uvfs.Vfs.Mode.{s_isdir}
use uvfs.Super.Inodes.{uvfs_compare_inode}
use uvfs.Super.Handles.{
  zero_handle, uvfs_encode_fh, uvfs_fh_to_dentry, uvfs_fh_to_parent, uvfs_decode_fh,
}

-- With room for three words, or for five where the handle has to be connectable, what uvfs_encode_fh
-- writes fits, and uvfs_fh_to_dentry decodes it to a handle that uvfs_compare_inode takes for the
-- inode's.
pub encoded_handle_found :
    (inode parent : Inode) (max_len : ℕ) (connectable : Bool)
    → 3 ≤ max_len
    → (connectable && ltb max_len 5) ≡ false
    → let e = uvfs_encode_fh inode parent max_len connectable in
      (h : Fhandle) × (uvfs_fh_to_dentry e.0 (length e.0) e.1 ≡ some h)
      × (uvfs_compare_inode inode h ≡ true)
      × (length e.0 ≤ max_len)
unfolding uvfs_encode_fh uvfs_fh_to_dentry uvfs_compare_inode
encoded_handle_found inode parent max_len connectable room more = (
  record zero_handle {
    na_aruid = inode.fh.na_aruid;
    fs_sfuid = inode.fh.fs_sfuid;
    fs_sbxid = inode.fh.fs_sbxid;
  },
  ground arith,
  ground arith,
  ground arith,
)

-- A connectable handle of an inode that is no directory also leads to its parent, if both are in one
-- archive: uvfs_fh_to_parent decodes it to a handle that uvfs_compare_inode takes for the parent's.
pub encoded_parent_found :
    (inode parent : Inode) (max_len : ℕ)
    → 5 ≤ max_len
    → s_isdir inode.i_mode ≡ false
    → inode.fh.na_aruid ≡ parent.fh.na_aruid
    → let e = uvfs_encode_fh inode parent max_len true in
      (h : Fhandle) × (uvfs_fh_to_parent e.0 (length e.0) e.1 ≡ some h)
      × (uvfs_compare_inode parent h ≡ true)
unfolding uvfs_encode_fh uvfs_fh_to_parent uvfs_compare_inode
encoded_parent_found inode parent max_len room file archive = (
  record zero_handle {
    na_aruid = inode.fh.na_aruid;
    fs_sfuid = parent.fh.fs_sfuid;
    fs_sbxid = parent.fh.fs_sbxid;
  },
  ground arith,
  ground arith,
)

-- What uvfs_encode_fh writes, with the room that it asks for, is decoded alike by kernels before 2.6.32
-- and later ones: uvfs_decode_fh finds the handle that uvfs_fh_to_dentry finds, and, as the parent's, the
-- one that uvfs_fh_to_parent finds, none where there is none.
pub decodings_agree :
    (inode parent : Inode) (max_len : ℕ) (connectable : Bool)
    → 3 ≤ max_len
    → (connectable && ltb max_len 5) ≡ false
    → let e = uvfs_encode_fh inode parent max_len connectable in
      (h : Fhandle) × (uvfs_fh_to_dentry e.0 (length e.0) e.1 ≡ some h)
      × (uvfs_decode_fh e.0 e.1 ≡ some (h, uvfs_fh_to_parent e.0 (length e.0) e.1))
unfolding uvfs_encode_fh uvfs_fh_to_dentry uvfs_fh_to_parent uvfs_decode_fh
decodings_agree inode parent max_len connectable room more = (
  record zero_handle {
    na_aruid = inode.fh.na_aruid;
    fs_sfuid = inode.fh.fs_sfuid;
    fs_sbxid = inode.fh.fs_sbxid;
  },
  ground arith,
  ground arith,
)
