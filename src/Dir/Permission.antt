-- ===== src/Dir/Permission.antt =====
-- dir.c: uvfs_permission. A mask has the bits MAY_EXEC, MAY_WRITE and MAY_READ: 1, 2 and 4.
use uvfs.Base.{ℕ, ◌/◌, ◌%◌, ◌≡◌, Bool, true, ◌&&◌, ◌||◌, not, arith, ◌==◌, if◌then◌else◌}
use uvfs.Base.Errno.{enomem, eacces, erofs}
use uvfs.Vfs.{
  Inode, Kernel, World, Op, ◌>>=◌, ◌>>◌, return, with_transaction, get_inode, make_request, free,
}
use uvfs.Vfs.Mode.{s_isreg, s_isdir, s_islnk}
use uvfs.Super.Inodes.{getattr_request}

abbrev pub may_exec : ℕ → Bool
may_exec mask = mask % 2 == 1

abbrev pub may_write : ℕ → Bool
may_write mask = mask / 2 % 2 == 1

abbrev pub may_read : ℕ → Bool
may_read mask = mask / 4 % 2 == 1

-- `(mode & mask & 7) == mask`, of a mask with no other bits.
abbrev pub covers : ℕ → ℕ → Bool
covers mode mask =
    (not (may_exec mask) || may_exec mode)
    && ((not (may_write mask) || may_write mode) && (not (may_read mask) || may_read mode))

-- `mode & S_IXUGO`
unfoldable pub has_exec : ℕ → Bool
has_exec mode = may_exec (mode / 64) || (may_exec (mode / 8) || may_exec mode)

module _ (k : Kernel) where
  -- The bits of the mode that are the caller's.
  unfoldable pub class_bits : Inode → ℕ → ℕ
  class_bits inode mode =
      if k.current_fsuid == inode.i_uid
      then mode / 64
      else if k.in_group_p inode.i_gid
      then mode / 8
      else mode

  -- From the choice of the class to the end.
  unfoldable pub decide : Inode → ℕ → ℕ → ℕ
  decide inode mask mode =
      if covers (class_bits inode mode) mask
      then 0
      else if (not (may_exec mask) || (has_exec mode || s_isdir mode)) && k.dac_override
      then 0
      else if (mask == 4 || (s_isdir mode && not (may_write mask))) && k.dac_read_search
      then 0
      else eacces

  -- The mode as the server says it, or its error.
  unfoldable pub ask_mode : Inode → ℕ → Op (ℕ × ℕ)
  ask_mode inode serial = do
    reply ← make_request k (getattr_request k serial inode.fh)
    free
    return (reply.error, reply.getattr_a.i_mode % 65536)

  -- The tests of a mask with MAY_WRITE: 0, or the error. IS_RDONLY and IS_IMMUTABLE are the kernel's.
  unfoldable pub check_write : Inode → ℕ → Bool → Bool → ℕ
  check_write inode mask rdonly immutable =
      if may_write mask
      then (if rdonly && (s_isreg inode.i_mode || (s_isdir inode.i_mode || s_islnk inode.i_mode))
          then erofs
          else if immutable
          then eacces
          else 0)
      else 0

  unfoldable pub current_mode : ℕ → Op (ℕ × ℕ)
  current_mode p = do
    inode ← get_inode p
    if k.current_fsuid == inode.attr_uid
        then return (0, inode.i_mode)
        else with_transaction k (enomem, 0) (λ serial. ask_mode inode serial)

  unfoldable pub uvfs_permission : ℕ → ℕ → Bool → Bool → Op ℕ
  uvfs_permission p bits rdonly immutable = do
    before ← get_inode p
    let mask = bits % 8
    let refused = check_write before mask rdonly immutable
    if not (refused == 0) then return refused else (do
      (error, mode) ← current_mode p
      inode ← get_inode p
      return (if error == 0 then decide inode mask mode else error))

-- The decision by the bits of the mask, of the class's bits and of the mode.
granted : Bool → Bool → Bool → Bool → Bool → Bool → Bool → Bool → Bool → Bool → Bool
granted e w r me mw mr any dir override search =
    ((not e || me) && ((not w || mw) && (not r || mr)))
    || (((not e || (any || dir)) && override)
        || (((not e && (not w && r)) || (dir && not w)) && search))

granted-smaller :
    (e w r e' w' r' me mw mr any dir override search : Bool)
    → ((not e' || e) && ((not w' || w) && (not r' || r))) ≡ true
    → granted e w r me mw mr any dir override search ≡ true
    → granted e' w' r' me mw mr any dir override search ≡ true
unfolding granted
granted-smaller e w r e' w' r' me mw mr any dir override search c h = ground arith

mask_bits :
    (mask : ℕ)
    → (may_exec (mask % 8) ≡ may_exec mask)
      × (may_write (mask % 8) ≡ may_write mask)
      × (may_read (mask % 8) ≡ may_read mask)
      × ((mask % 8 == 4) ≡ (not (may_exec mask) && (not (may_write mask) && may_read mask)))
mask_bits mask = (ground arith, ground arith, ground arith, ground arith)

if_zero :
    (a b c : Bool)
    → ((if a then 0 else (if b then 0 else (if c then 0 else eacces))) == 0) ≡ a || (b || c)
if_zero a b c = ground arith

decide-granted :
    (k : Kernel) (inode : Inode) (mask mode : ℕ)
    → (decide k inode (mask % 8) mode == 0)
      ≡ granted
          (may_exec mask)
          (may_write mask)
          (may_read mask)
          (may_exec (class_bits k inode mode))
          (may_write (class_bits k inode mode))
          (may_read (class_bits k inode mode))
          (has_exec mode)
          (s_isdir mode)
          k.dac_override
          k.dac_read_search
unfolding decide granted
decide-granted k inode mask mode =
    let (e, w, r, only) = mask_bits mask in
    rw only (
      rw e (
        rw w (
          rw r (
            if_zero (covers (class_bits k inode mode) mask)
              ((not (may_exec mask) || (has_exec mode || s_isdir mode)) && k.dac_override)
              ((not (may_exec mask) && (not (may_write mask) && may_read mask)
                  || s_isdir mode && not (may_write mask))
                && k.dac_read_search)))))

decide-smaller :
    (k : Kernel) (inode : Inode) (mask part mode : ℕ)
    → covers mask part ≡ true
    → decide k inode (mask % 8) mode ≡ 0
    → decide k inode (part % 8) mode ≡ 0
decide-smaller k inode mask part mode c h =
    let class = class_bits k inode mode in
    ground (
      arith,
      decide-granted k inode mask mode,
      decide-granted k inode part mode,
      granted-smaller (may_exec mask) (may_write mask) (may_read mask) (may_exec part)
          (may_write part) (may_read part) (may_exec class) (may_write class) (may_read class)
          (has_exec mode) (s_isdir mode) k.dac_override k.dac_read_search c,
    )

check_write-smaller :
    (k : Kernel) (inode : Inode) (mask part : ℕ) (rdonly immutable : Bool)
    → covers mask part ≡ true
    → check_write k inode (mask % 8) rdonly immutable ≡ 0
    → check_write k inode (part % 8) rdonly immutable ≡ 0
unfolding check_write
check_write-smaller k inode mask part rdonly immutable c h = ground arith

-- Who may do several things to an inode at once may do each of them: if uvfs_permission grants a mask,
-- it grants, in the same state, every mask whose bits MAY_READ, MAY_WRITE and MAY_EXEC are among its.
pub permission_monotone :
    (k : Kernel) (p mask part : ℕ) (rdonly immutable : Bool) (w : World)
    → covers mask part ≡ true
    → (uvfs_permission k p mask rdonly immutable w).0 ≡ 0
    → (uvfs_permission k p part rdonly immutable w).0 ≡ 0
unfolding uvfs_permission
permission_monotone k p mask part rdonly immutable w c h = ground (
  arith,
  check_write-smaller k (w.inode p) mask part rdonly immutable c,
  decide-smaller k ((current_mode k p w).1.inode p) mask part (current_mode k p w).0.1 c,
)
