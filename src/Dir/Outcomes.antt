-- ===== src/Dir/Outcomes.antt =====
-- dir.c: what the callers of lookup, create and d_revalidate see of the server's answers.
use uvfs.Base.{
  ℕ, ◌<◌, ◌≡◌, ◌⊎◌, inl, inr, refl, Bool, true, false, List, ◌∷◌, Option, none, some, arith, ◌==◌,
  if◌then◌else◌, length, is_negative, Bool-cases,
}
use uvfs.Base.Errno.{enametoolong, erestartsys}
use uvfs.Protocol.{Fhandle, Attr}
use uvfs.Protocol.Limits.{max_namelen, max_pathlen}
use uvfs.Vfs.{Inode, Kernel, World, null, d_drop, Event}
use uvfs.Vfs.Mode.{s_isdir}
use uvfs.Super.Inodes.{uvfs_compare_inode}
use uvfs.Dir.Create.{uvfs_create, uvfs_symlink, uvfs_mkdir}
use uvfs.Dir.Lookup.{
  uvfs_lookup_by_name, uvfs_lookup, lookup_inode, uvfs_dentry_revalidate, revalidate_entry,
  invalidate,
}
use uvfs.Dir.Remove.{uvfs_unlink, uvfs_rmdir, uvfs_rename}

-- A name over the protocol's limit makes create, symlink, mkdir, unlink, rmdir, rename, by either of its
-- names, and lookup_by_name fail with ENAMETOOLONG, with nothing allocated, sent or changed; so does a
-- path over its limit in symlink, whatever the name is.
pub long_names_refused :
    (k : Kernel) (d p x mode : ℕ) (name other path : List ℕ) (target : Option ℕ) (w : World)
    → max_namelen < length name
    → max_pathlen < length path
    → (uvfs_create k d name mode w ≡ (enametoolong, w))
      × (uvfs_symlink k d name other w ≡ (enametoolong, w))
      × (uvfs_symlink k d other path w ≡ (enametoolong, w))
      × (uvfs_mkdir k d name mode w ≡ (enametoolong, w))
      × (uvfs_unlink k d name p w ≡ (enametoolong, w))
      × (uvfs_rmdir k d name p w ≡ (enametoolong, w))
      × (uvfs_rename k d name p x other target w ≡ (enametoolong, w))
      × (uvfs_rename k d other p x name target w ≡ (enametoolong, w))
      × (uvfs_lookup_by_name k d name w ≡ ((enametoolong, none), w))
unfolding uvfs_create uvfs_symlink uvfs_mkdir uvfs_unlink uvfs_rmdir uvfs_rename uvfs_lookup_by_name
long_names_refused k d p x mode name other path target w h h' = (
  ground arith,
  ground arith,
  ground arith,
  ground arith,
  ground arith,
  ground arith,
  ground arith,
  ground arith,
  ground arith,
)

lookup_inode-failed :
    (k : Kernel) (result : ℕ × Option (Fhandle × Attr)) (w : World)
    → is_negative result.0 ≡ true
    → (lookup_inode k result w).0 ≡ none
unfolding lookup_inode
lookup_inode-failed k (err, none) w h = refl
lookup_inode-failed k (err, some (fh, a)) w h = ground arith

-- If d_splice_alias returns NULL for no inode, uvfs_lookup returns NULL, the answer for a name that
-- does not exist, whenever uvfs_lookup_by_name fails with an error, whatever the error is: one made by
-- ENOMEM, ENAMETOOLONG, a signal or the server.
pub lookup_hides_error :
    (k : Kernel) (p : ℕ) (name : List ℕ) (w : World)
    → ((v : World) → k.d_splice_alias v none name ≡ null)
    → is_negative (uvfs_lookup_by_name k p name w).0.0 ≡ true
    → (uvfs_lookup k p name w).0 ≡ null
unfolding uvfs_lookup lookup_inode
lookup_hides_error k p name w law h =
    let failed =
      lookup_inode-failed k (uvfs_lookup_by_name k p name w).0 (uvfs_lookup_by_name k p name w).1
        h in
    rw failed (law _)

invalidate-cases :
    (k : Kernel) (name : List ℕ) (is_dir : Bool) (w : World)
    → let (answer, w') = invalidate k name is_dir w in
      ((answer ≡ 0)
        × (w'.events ≡ (
            d_drop name
            ∷ (if is_dir then Event.shrink_dcache_parent name ∷ w.events else w.events))))
      ⊎ ((answer ≡ 1) × (w'.events ≡ w.events) × (is_dir ≡ true) × (k.have_submounts w name ≡ true))
unfolding invalidate
invalidate-cases k name false w = inl (refl, refl)
invalidate-cases k name true w = elim (Bool-cases (k.have_submounts w name)) [
  | inl m ↦ inr (ground arith, ground arith, refl, m)
  | inr m ↦ inl (ground arith, ground arith)
]

-- What a positive entry's revalidation finds, after the lookup of its name.
abbrev pub Dropped : World → World → ℕ → List ℕ → Bool → Type 0
Dropped w w' answer name is_dir =
    (answer ≡ 0)
    × (w'.events
        ≡ (d_drop name ∷ (if is_dir then Event.shrink_dcache_parent name ∷ w.events else w.events)))

abbrev pub Valid : Kernel → World → List ℕ → Inode → ℕ × Option (Fhandle × Attr) → Type 0
Valid k seen name inode (err, stored) =
    (err ≡ erestartsys)
    ⊎ (((h : Fhandle × Attr) × (err ≡ 0)
          × (stored ≡ some h)
          × (uvfs_compare_inode inode h.0 ≡ true))
        ⊎ ((s_isdir inode.i_mode ≡ true) × (k.have_submounts seen name ≡ true)))

invalidated :
    (k : Kernel) (name : List ℕ) (inode : Inode) (result : ℕ × Option (Fhandle × Attr)) (w : World)
    → let is_dir = s_isdir inode.i_mode in
      let (answer, w') = invalidate k name is_dir w in
      Dropped w w' answer name is_dir
      ⊎ ((answer ≡ 1) × (w'.events ≡ w.events) × Valid k w name inode result)
invalidated k name inode result w = elim (invalidate-cases k name (s_isdir inode.i_mode) w) [
  | inl d ↦ inl d
  | inr (a, e, d, m) ↦ inr (a, e, inr (inr (d, m)))
]

entry-cases :
    (k : Kernel) (parent : ℕ) (name : List ℕ) (p : ℕ) (result : ℕ × Option (Fhandle × Attr))
    (w : World)
    → let (answer, w') = revalidate_entry k parent name p result w in
      let inode = w.inode p in
      Dropped w w' answer name (s_isdir inode.i_mode)
      ⊎ ((answer ≡ 1) × (w'.events ≡ w.events) × Valid k w name inode result)
unfolding revalidate_entry
entry-cases k parent name p (err, none) w = elim (Bool-cases (err == 0)) [
  | inl zero ↦ rw zero (invalidated k name (w.inode p) (err, none) w)
  | inr bad ↦ elim (Bool-cases (err == erestartsys)) [
    | inl e ↦ rw bad (rw e (inr (refl, refl, inl (ground arith))))
    | inr e ↦ rw bad (rw e (invalidated k name (w.inode p) (err, none) w))
  ]
]
entry-cases k parent name p (err, some (fh, a)) w = elim (Bool-cases (err == 0)) [
  | inl zero ↦ elim (Bool-cases (uvfs_compare_inode (w.inode p) fh)) [
    | inl same ↦ rw zero (rw same (inr (refl, refl, inr (inl ((fh, a), ground arith, refl, same)))))
    | inr other ↦ rw zero (rw other (invalidated k name (w.inode p) (err, some (fh, a)) w))
  ]
  | inr bad ↦ elim (Bool-cases (err == erestartsys)) [
    | inl e ↦ rw bad (rw e (inr (refl, refl, inl (ground arith))))
    | inr e ↦ rw bad (rw e (invalidated k name (w.inode p) (err, some (fh, a)) w))
  ]
]

-- After the lookup of a positive entry's name, uvfs_dentry_revalidate either returns 0, with d_drop of
-- the entry as its last call, or returns 1 without a call. With 1 the lookup was interrupted by a signal,
-- or succeeded with a handle that uvfs_compare_inode takes for the inode's, or the inode is a directory
-- that has something mounted below it.
pub revalidate_drops :
    (k : Kernel) (parent : ℕ) (name : List ℕ) (p : ℕ) (w : World)
    → let (answer, w') = uvfs_dentry_revalidate k parent name (some p) w in
      let (result, seen) = uvfs_lookup_by_name k parent name w in
      let inode = seen.inode p in
      Dropped seen w' answer name (s_isdir inode.i_mode)
      ⊎ ((answer ≡ 1) × (w'.events ≡ seen.events) × Valid k seen name inode result)
unfolding uvfs_dentry_revalidate
revalidate_drops k parent name p w =
    let (result, seen) = uvfs_lookup_by_name k parent name w in
    entry-cases k parent name p result seen
