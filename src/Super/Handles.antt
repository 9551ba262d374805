-- ===== src/Super/Handles.antt =====
-- super.c: file handles for export by NFS.
use uvfs.Base.{
  ℕ, Bool, ◌&&◌, ◌||◌, not, List, [], ◌∷◌, Option, none, some, ◌==◌, ltb, if◌then◌else◌, get_or,
}
use uvfs.Protocol.{Fhandle}
use uvfs.Vfs.{Inode}
use uvfs.Vfs.Mode.{s_isdir}

-- `memset(&handle, 0, sizeof(handle))`
abbrev pub zero_handle : Fhandle
zero_handle = record {
  no_mntid = 0;
  no_flags = 0;
  na_ipaddr = 0;
  na_aruid = 0;
  no_sbxid = 0;
  fs_sbxid = 0;
  fs_sfuid = 0;
  no_blank2 = 0;
}

-- uvfs_encode_fh: the words that it writes and the type, for an entry and its parent, with the room
-- that the caller has. `*max_len` is the number of words, which is not negative, as are the lengths and types
-- of handles below; type 255 writes nothing.
unfoldable pub uvfs_encode_fh : Inode → Inode → ℕ → Bool → List ℕ × ℕ
uvfs_encode_fh inode parent max_len connectable =
    let handle = inode.fh.na_aruid ∷ inode.fh.fs_sfuid ∷ inode.fh.fs_sbxid ∷ [] in
    if ltb max_len 3 || (connectable && ltb max_len 5)
    then ([], 255)
    else if connectable && not (s_isdir inode.i_mode)
    then (
      inode.fh.na_aruid ∷ inode.fh.fs_sfuid ∷ inode.fh.fs_sbxid ∷ parent.fh.fs_sfuid
          ∷ parent.fh.fs_sbxid ∷ [],
      2,
    )
    else (handle, 1)

-- The handle that uvfs_fh_to_dentry looks up, of the words of `fid->raw`; `none` is its NULL.
unfoldable pub uvfs_fh_to_dentry : List ℕ → ℕ → ℕ → Option Fhandle
uvfs_fh_to_dentry raw fh_len fh_type =
    if ltb fh_len 3 || ltb 2 fh_type
    then none
    else some (record zero_handle {
      na_aruid = get_or raw 0 0;
      fs_sfuid = get_or raw 1 0;
      fs_sbxid = get_or raw 2 0;
    })

-- The handle that uvfs_fh_to_parent looks up.
unfoldable pub uvfs_fh_to_parent : List ℕ → ℕ → ℕ → Option Fhandle
uvfs_fh_to_parent raw fh_len fh_type =
    if ltb fh_len 5 || not (fh_type == 2)
    then none
    else some (record zero_handle {
      na_aruid = get_or raw 0 0;
      fs_sfuid = get_or raw 3 0;
      fs_sbxid = get_or raw 4 0;
    })

-- uvfs_decode_fh, of kernels before 2.6.32: the handle and the parent's that find_exported_dentry is
-- given; `none` is its 0. It does not look at fh_len.
unfoldable pub uvfs_decode_fh : List ℕ → ℕ → Option (Fhandle × Option Fhandle)
uvfs_decode_fh fh fh_type =
    let handle = record zero_handle {
      na_aruid = get_or fh 0 0;
      fs_sfuid = get_or fh 1 0;
      fs_sbxid = get_or fh 2 0;
    } in
    let parent = record zero_handle {
      na_aruid = get_or fh 0 0;
      fs_sfuid = get_or fh 3 0;
      fs_sbxid = get_or fh 4 0;
    } in
    if fh_type == 2
    then some (handle, some parent)
    else if fh_type == 1
    then some (handle, none)
    else none
