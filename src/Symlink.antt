-- ===== src/Symlink.antt =====
-- symlink.c: uvfs_readlink and uvfs_follow_link.
pub mod Text
use uvfs.Base.{
  ℕ, zero, suc, ◌+◌, ◌%◌, ◌≤◌, ◌<◌, Bool, true, false, List, [], ◌∷◌, ◌++◌, Option, none, some,
  ◌==◌, ltb, if◌then◌else◌, is_negative, take, drop,
}
use uvfs.Base.Errno.{enomem}
use uvfs.Protocol.{Request, GetattrReq, Reply}
use uvfs.Protocol
use uvfs.Protocol.Limits.{max_pathlen}
use uvfs.Vfs.{
  Inode, Kernel, Op, ◌>>=◌, ◌>>◌, return, with_transaction, get_inode, new_transaction,
  make_request, free,
}

-- The text that a C string function sees in memory.
unfoldable pub c_string : List ℕ → List ℕ
c_string [] = []
c_string (b ∷ bs) = let rest = c_string bs in if b == 0 then [] else b ∷ rest

-- `reply->buff[reply->len] = 0`; `none` if that is no byte of the array.
unfoldable pub terminate : ℕ → List ℕ → Option (List ℕ)
terminate len buff =
    if ltb len max_pathlen then some (take len buff ++ 0 ∷ drop (len + 1) buff) else none

-- The error or result of a call, or that it has written a byte outside of the reply's array first:
-- what it returns then is not followed.
pub data Outcome : Type 0 where
  returned : ℕ → Outcome
  overrun : Outcome

module _ (k : Kernel) where
  abbrev pub readlink_request : ℕ → Inode → Request
  readlink_request serial inode = Request.readlink (record {
    type = Protocol.Code.readlink;
    serial = serial;
    size = Protocol.Layout.getattr;
    uid = k.current_fsuid;
    gid = k.current_fsgid;
    fh = inode.fh;
  })

  -- Both functions, up to what they do with the text.
  unfoldable pub link_with : (List ℕ → ℕ) → ℕ → ℕ → Op Outcome
  link_with use_text p serial = do
    inode ← get_inode p
    reply ← make_request k (readlink_request serial inode)
    let result =
        if is_negative reply.error
        then returned reply.error
        else elim (terminate reply.readlink_len reply.readlink_buff) [
          | none ↦ overrun
          | some buff ↦ returned (use_text (c_string buff))
        ]
    free
    return result

  unfoldable pub uvfs_readlink : ℕ → ℕ → Op Outcome
  uvfs_readlink p buflen =
      with_transaction k (returned enomem) (λ serial. link_with (k.vfs_readlink buflen) p serial)

  -- The error is returned by ERR_PTR.
  unfoldable pub uvfs_follow_link : ℕ → Op Outcome
  uvfs_follow_link p =
      with_transaction k (returned enomem) (λ serial. link_with k.vfs_follow_link p serial)
