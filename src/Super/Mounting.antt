-- ===== src/Super/Mounting.antt =====
-- super.c: what a mount sends and leaves.
use uvfs.Base.{
  ℕ, ◌%◌, ◌+◌, ◌<◌, ◌≡◌, refl, true, List, [], ◌∷◌, ◌++◌, Option, none, some, arith, length, drop,
  Option-cases, inl, inr,
}
use uvfs.Protocol.{Request, Fhandle, Attr}
use uvfs.Protocol.Limits.{max_pathlen}
use uvfs.Vfs.{Kernel, World, new_transaction, make_request, free}
use uvfs.Super.Inodes.{uvfs_iget}
use uvfs.Super.Mount.{
  Superblock, store_option, starts_with, uvfs_parse_options, parse_data, set_root, super_request,
  read_super_with, mount_store, uvfs_read_super,
}

starts_with-append :
    (prefix text : List ℕ)
    → starts_with prefix text ≡ true
    → text ≡ prefix ++ drop (length prefix) text
unfolding starts_with
starts_with-append [] text h = refl
starts_with-append (b ∷ bs) [] h = absurd (ground arith)
starts_with-append (b ∷ bs) (c ∷ cs) h = ground (arith, starts_with-append bs cs)

parse_data-store :
    (given : Option (List ℕ)) (arg : List ℕ)
    → parse_data given ≡ some arg
    → given ≡ some (store_option ++ arg)
unfolding parse_data uvfs_parse_options
parse_data-store none arg h = absurd (ground arith)
parse_data-store (some options) arg h = ground (arith, starts_with-append store_option options)

iget-sent :
    (k : Kernel) (fh : Fhandle) (a : Attr) (w : World) → (uvfs_iget k fh a w).1.sent ≡ w.sent
unfolding uvfs_iget
iget-sent k fh a w = ground arith

module _ (k : Kernel) (sb : Superblock) (arg : List ℕ) (w : World) where
  -- The request of a mount with this path.
  abbrev pub mount_request : Request
  mount_request = Request.read_super (record {
    type = 14;
    serial = w.serial_number;
    size = 24 + (length arg + 1);
    uid = k.current_fsuid;
    gid = k.current_fsgid;
    arglength = length arg + 1;
    buff = arg ++ 0 ∷ [];
  })

  -- What a mount leaves, of the reply to its request.
  abbrev pub AfterMount : Superblock → World → Type 0
  AfterMount sb' w' =
      let reply = (k.answer (new_transaction k w).1 mount_request).read_super in
      (w'.sent ≡ mount_request ∷ w.sent)
      × (sb'.s_maxbytes ≡ 4294967295)
      × (sb'.s_blocksize ≡ reply.s_blocksize)
      × (sb'.s_blocksize_bits ≡ reply.s_blocksize_bits % 256)
      × (sb'.s_magic ≡ reply.s_magic)
      × (sb'.has_operations ≡ true)
      × ((q : ℕ) × (v : World) × (v' : World) × ((uvfs_iget k reply.fh reply.a v).0 ≡ some q)
          × (sb'.s_root ≡ k.d_alloc_root v' q))

  mount_store-AfterMount :
      (mount_store k sb (some arg) w).0.0 ≡ 0
      → (length arg + 1 < max_pathlen)
        × AfterMount (mount_store k sb (some arg) w).0.1 (mount_store k sb (some arg) w).1
  unfolding mount_store read_super_with set_root new_transaction make_request free
  mount_store-AfterMount h =
      let w₁ = (new_transaction k w).1 in
      let (reply, w₂) = make_request k (super_request k arg w.serial_number) w₁ in
      let (root, w₃) = uvfs_iget k reply.read_super.fh reply.read_super.a w₂ in
      let sent = iget-sent k reply.read_super.fh reply.read_super.a w₂ in
      elim (Option-cases root) [
        | inl e ↦ absurd (ground arith)
        | inr (q, e) ↦ (
          ground arith,
          (
            ground (arith, sent),
            ground arith,
            ground arith,
            ground arith,
            ground arith,
            ground arith,
            (q, w₂, w₃, e, ground arith),
          ),
        )
      ]

mounted_from :
    (k : Kernel) (sb : Superblock) (parsed : Option (List ℕ)) (w : World)
    → (mount_store k sb parsed w).0.0 ≡ 0
    → (arg : List ℕ) × (parsed ≡ some arg)
      × (length arg + 1 < max_pathlen)
      × AfterMount k sb arg w (mount_store k sb parsed w).0.1 (mount_store k sb parsed w).1
unfolding mount_store
mounted_from k sb none w h = absurd (ground arith)
mounted_from k sb (some arg) w h =
    let (short, mounted) = mount_store-AfterMount k sb arg w h in (arg, refl, short, mounted)

-- When uvfs_read_super returns 0, the mount's data was the text "store=" and a path of at most 1022
-- bytes; the one request that was sent carries that path with its terminating zero, its length with the
-- zero, and the caller's uid and gid; and the superblock has the block size, the bits of it, in 8 bits,
-- and the magic number of the reply, 2 ^ 32 - 1 as the greatest file size, its operations, and as its root
-- what d_alloc_root has returned, NULL too, for the inode that uvfs_iget has found for the reply's handle
-- and attributes.
pub mounted_store :
    (k : Kernel) (sb : Superblock) (given : Option (List ℕ)) (w : World)
    → (uvfs_read_super k sb given w).0.0 ≡ 0
    → let ((err, sb'), w') = uvfs_read_super k sb given w in
      (arg : List ℕ) × (given ≡ some (store_option ++ arg))
      × (length arg + 1 < max_pathlen)
      × AfterMount k sb arg w sb' w'
unfolding uvfs_read_super
mounted_store k sb given w h =
    let (arg, parsed, short, mounted) = mounted_from k sb (parse_data given) w h in
    (arg, parse_data-store given arg parsed, short, mounted)
