-- ===== src/Protocol/Wire.antt =====
-- protocol.h: the bytes of a request, as its structure lays them out: what uvfsd_read copies to the
-- server, from the structure's start up to the request's size.
use uvfs.Base.{
  refl, ◌≡◌, ◌≤◌, arith, length-append, ℕ, zero, suc, ◌+◌, ◌-◌, List, [], ◌∷◌, ◌++◌, length,
  bytes32,
}
use uvfs.Protocol.{Fhandle, Timespec, Request}
use uvfs.Protocol.Limits.{max_namelen, max_pathlen}

abbrev pub header_bytes : ℕ → ℕ → ℕ → List ℕ → List ℕ
header_bytes type serial size rest = bytes32 type ++ (bytes32 serial ++ (bytes32 size ++ rest))

unfoldable pub fhandle_bytes : Fhandle → List ℕ
fhandle_bytes h =
    bytes32 h.no_mntid
    ++ (bytes32 h.no_flags
        ++ (bytes32 h.na_ipaddr
            ++ (bytes32 h.na_aruid
                ++ (bytes32 h.no_sbxid
                    ++ (bytes32 h.fs_sbxid ++ (bytes32 h.fs_sfuid ++ bytes32 h.no_blank2))))))

unfoldable pub timespec_bytes : Timespec → List ℕ
timespec_bytes t = bytes32 t.tv_sec ++ bytes32 t.tv_nsec

module _ (old : ℕ → ℕ) where
  -- Bytes of the union that nobody has written, from an offset on.
  abbrev unwritten : ℕ → ℕ → List ℕ
  unwritten o zero = []
  unwritten o (suc n) = old o ∷ unwritten (o + 1) n

  -- An array at an offset, with what was copied to its start.
  unfoldable pub array_bytes : ℕ → ℕ → List ℕ → List ℕ
  array_bytes o room xs = xs ++ unwritten (o + length xs) (room - length xs)

  length-unwritten : (o n : ℕ) → length (unwritten o n) ≡ n
  length-unwritten o zero = refl
  length-unwritten o (suc n) = omega (arith, length-unwritten (o + 1) n)

  pub length-array_bytes :
      (o room : ℕ) (xs : List ℕ) → length xs ≤ room → length (array_bytes o room xs) ≡ room
  unfolding array_bytes
  length-array_bytes o room xs h = omega (
    arith,
    length-append xs (unwritten (o + length xs) (room - length xs)),
    length-unwritten (o + length xs) (room - length xs),
  )

  -- What stands behind the header, uid and gid of most requests.
  abbrev owner_bytes : ℕ → ℕ → Fhandle → List ℕ → List ℕ
  owner_bytes uid gid fh rest = bytes32 uid ++ (bytes32 gid ++ (fhandle_bytes fh ++ rest))

  unfoldable pub body_bytes : Request → List ℕ
  body_bytes (Request.file_write r) =
      owner_bytes r.uid r.gid r.fh
        (bytes32 r.count ++ (bytes32 r.offset ++ array_bytes 60 r.count r.buff))
  body_bytes (Request.file_read r) =
      owner_bytes r.uid r.gid r.fh (bytes32 r.count ++ bytes32 r.offset)
  body_bytes (Request.create r) =
      owner_bytes r.uid r.gid r.fh (bytes32 r.mode ++ (bytes32 r.namelen ++ r.name))
  body_bytes (Request.lookup r) = owner_bytes r.uid r.gid r.fh (bytes32 r.namelen ++ r.name)
  body_bytes (Request.unlink r) = owner_bytes r.uid r.gid r.fh (bytes32 r.namelen ++ r.name)
  body_bytes (Request.symlink r) = owner_bytes r.uid r.gid r.fh (
      array_bytes 52 max_namelen r.name
      ++ (bytes32 r.namelen ++ (array_bytes 312 max_pathlen r.sympath ++ bytes32 r.symlen)))
  body_bytes (Request.mkdir r) =
      bytes32 r.uid
      ++ (bytes32 r.gid
          ++ (bytes32 r.mode ++ (fhandle_bytes r.fh ++ (bytes32 r.namelen ++ r.name))))
  body_bytes (Request.rmdir r) = owner_bytes r.uid r.gid r.fh (bytes32 r.namelen ++ r.name)
  body_bytes (Request.rename r) = owner_bytes r.uid r.gid r.fh_old (
      array_bytes 52 max_namelen r.old_name
      ++ (bytes32 r.old_namelen
          ++ (fhandle_bytes r.fh_new
              ++ (array_bytes 344 max_namelen r.new_name ++ bytes32 r.new_namelen))))
  body_bytes (Request.getattr r) = owner_bytes r.uid r.gid r.fh []
  body_bytes (Request.readlink r) = owner_bytes r.uid r.gid r.fh []
  body_bytes (Request.readdir r) = owner_bytes r.uid r.gid r.fh (bytes32 r.entry_no)
  body_bytes (Request.setattr r) = owner_bytes r.uid r.gid r.fh (
      bytes32 r.ia_valid
      ++ (bytes32 r.ia_uid
          ++ (bytes32 r.ia_gid
              ++ (bytes32 r.ia_size
                  ++ (timespec_bytes r.ia_atime
                      ++ (timespec_bytes r.ia_mtime
                          ++ (timespec_bytes r.ia_ctime ++ bytes32 r.ia_mode)))))))
  body_bytes (Request.statfs r) = fhandle_bytes r.fh
  body_bytes (Request.read_super r) =
      bytes32 r.uid ++ (bytes32 r.gid ++ (bytes32 r.arglength ++ r.buff))

-- `uvfs_generic_req_s`, the start of every request: the type, the serial and the size.
abbrev pub generic : Request → ℕ × ℕ × ℕ
generic (Request.file_write r) = (r.type, r.serial, r.size)
generic (Request.file_read r) = (r.type, r.serial, r.size)
generic (Request.create r) = (r.type, r.serial, r.size)
generic (Request.lookup r) = (r.type, r.serial, r.size)
generic (Request.unlink r) = (r.type, r.serial, r.size)
generic (Request.symlink r) = (r.type, r.serial, r.size)
generic (Request.mkdir r) = (r.type, r.serial, r.size)
generic (Request.rmdir r) = (r.type, r.serial, r.size)
generic (Request.rename r) = (r.type, r.serial, r.size)
generic (Request.getattr r) = (r.type, r.serial, r.size)
generic (Request.readlink r) = (r.type, r.serial, r.size)
generic (Request.readdir r) = (r.type, r.serial, r.size)
generic (Request.setattr r) = (r.type, r.serial, r.size)
generic (Request.statfs r) = (r.type, r.serial, r.size)
generic (Request.read_super r) = (r.type, r.serial, r.size)

unfoldable pub request_bytes : (ℕ → ℕ) → Request → List ℕ
request_bytes old r =
    let (type, serial, size) = generic r in header_bytes type serial size (body_bytes old r)
