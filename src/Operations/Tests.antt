-- ===== src/Operations/Tests.antt =====
-- The operations of the file system on the kernel of Operations/Sample.antt.
mod Mounts
mod Wire
mod Files
use uvfs.Base.{
  ℕ, ◌+◌, ◌-◌, ◌*◌, ◌%◌, ◌≤◌, ◌≡◌, ◌⊎◌, refl, Bool, true, false, [], ◌∷◌, none, some, arith, length,
  ◌==◌, if◌then◌else◌, get_or, word,
}
use uvfs.Base.Errno.{enametoolong, enomem, eio}
use uvfs.Protocol.{Fhandle}
use uvfs.Protocol.Limits.{page_size}
use uvfs.Vfs.{Inode, World, found, null, new_transaction, make_request, free, Event}
use uvfs.Vfs.Mode.{s_isdir}
use uvfs.Super.Handles.{uvfs_encode_fh, uvfs_fh_to_dentry, uvfs_fh_to_parent, uvfs_decode_fh}
use uvfs.Super.Inodes.{uvfs_compare_inode, uvfs_iget, uvfs_revalidate_inode, revalidate_with}
use uvfs.Super.Export.{encoded_handle_found, encoded_parent_found, decodings_agree}
use uvfs.Super.Attributes.{
  HasAttributes, SameIdentity, iget_reflects_reply, revalidate_reflects_reply,
}
use uvfs.Dir.Create.{uvfs_create, uvfs_symlink, uvfs_mkdir}
use uvfs.Dir.Lookup.{uvfs_lookup_by_name, uvfs_lookup, uvfs_dentry_revalidate}
use uvfs.Dir.Remove.{uvfs_unlink, uvfs_rmdir, uvfs_rename}
use uvfs.Dir.Links.{rename_request, rename_counts, gained, lost_by_move, lost_by_target}
use uvfs.Dir.Outcomes.{long_names_refused, lookup_hides_error, revalidate_drops, Dropped, Valid}
use uvfs.Dir.Permission.{
  uvfs_permission, permission_monotone, check_write, current_mode, decide, class_bits,
}
use uvfs.File.Pages.{zeros, filled, returned, uvfs_readpage, uvfs_write_end}
use uvfs.File.Content.{page_request, readpage_content, readpage_unlocks, write_end_hides_error}
use uvfs.Operations.{Operation, perform}
use uvfs.Operations.Balance.{perform-transactions}
use uvfs.Operations.Requests.{AllFit, perform-AllFit}
use uvfs.Operations.Sample.{handle, attributes, file, directory, answer, kernel, world, name, page}

encoded_handle_found_example :
    let e = uvfs_encode_fh file directory 5 true in
    (h : Fhandle) × (uvfs_fh_to_dentry e.0 (length e.0) e.1 ≡ some h)
    × (uvfs_compare_inode file h ≡ true)
    × (length e.0 ≤ 5)
encoded_handle_found_example = encoded_handle_found file directory 5 true (omega arith) refl

encoded_parent_found_example :
    let e = uvfs_encode_fh file directory 5 true in
    (h : Fhandle) × (uvfs_fh_to_parent e.0 (length e.0) e.1 ≡ some h)
    × (uvfs_compare_inode directory h ≡ true)
encoded_parent_found_example = encoded_parent_found file directory 5 (omega arith) refl refl

decodings_agree_example :
    let e = uvfs_encode_fh file directory 5 true in
    (h : Fhandle) × (uvfs_fh_to_dentry e.0 (length e.0) e.1 ≡ some h)
    × (uvfs_decode_fh e.0 e.1 ≡ some (h, uvfs_fh_to_parent e.0 (length e.0) e.1))
decodings_agree_example = decodings_agree file directory 5 true (omega arith) refl

finds_by_test :
    (v : World) (hash : ℕ) (test : Inode → Bool) (q : ℕ)
    → (kernel 0).iget5_locked v hash test ≡ found q
    → test (v.inode q) ≡ true
finds_by_test v hash test q e = ground arith

iget_reflects_reply_example :
    let w' = (uvfs_iget (kernel 0) (handle 50) attributes world).1 in
    (uvfs_compare_inode (w'.inode 5) (handle 50) ≡ true)
    × HasAttributes attributes 100 (w'.inode 5)
    × (w'.inode 4 ≡ world.inode 4)
unfolding uvfs_iget uvfs_compare_inode
iget_reflects_reply_example =
    iget_reflects_reply (kernel 0) (handle 50) attributes world 5 4 finds_by_test refl
      (λ e. omega arith)

revalidate_reflects_reply_example :
    let (err, w') = uvfs_revalidate_inode (kernel 0) 5 world in
    (err ≡ 0)
    × (HasAttributes attributes 100 (w'.inode 5)
        × SameIdentity (w'.inode 5) file
        × (w'.events ≡ Event.invalidate_inode_pages 5 ∷ []))
unfolding uvfs_revalidate_inode revalidate_with new_transaction make_request free
revalidate_reflects_reply_example = revalidate_reflects_reply (kernel 0) 5 world refl

rename_counts_example :
    let (err, w') = uvfs_rename (kernel 0) 4 name 5 7 name (some 5) world in
    let r = rename_request (kernel 0) world 4 name 7 name in
    (w'.sent ≡ r ∷ [])
    × (err ≡ 0)
    × (if err == 0
        then (w'.inode 5).i_nlink
          ≡ (1
              + gained file 7 5
              + word
              - lost_by_move file 4 5
              - lost_by_target world.inode 7 (some 5) 5)
            % word
        else w'.inode ≡ world.inode)
unfolding uvfs_rename new_transaction make_request free
rename_counts_example =
    rename_counts (kernel 0) 4 name 5 7 name (some 5) world 5 (omega arith) (omega arith) refl
      (omega arith)

long_names_refused_example :
    (uvfs_create (kernel 0) 4 (zeros 257) 420 world ≡ (enametoolong, world))
    × (uvfs_symlink (kernel 0) 4 (zeros 257) name world ≡ (enametoolong, world))
    × (uvfs_symlink (kernel 0) 4 name (zeros 1025) world ≡ (enametoolong, world))
    × (uvfs_mkdir (kernel 0) 4 (zeros 257) 420 world ≡ (enametoolong, world))
    × (uvfs_unlink (kernel 0) 4 (zeros 257) 5 world ≡ (enametoolong, world))
    × (uvfs_rmdir (kernel 0) 4 (zeros 257) 5 world ≡ (enametoolong, world))
    × (uvfs_rename (kernel 0) 4 (zeros 257) 5 4 name none world ≡ (enametoolong, world))
    × (uvfs_rename (kernel 0) 4 name 5 4 (zeros 257) none world ≡ (enametoolong, world))
    × (uvfs_lookup_by_name (kernel 0) 4 (zeros 257) world ≡ ((enametoolong, none), world))
long_names_refused_example =
    long_names_refused (kernel 0) 4 5 4 420 (zeros 257) name (zeros 1025) none world (omega arith)
      (omega arith)

lookup_hides_error_example : (uvfs_lookup (kernel eio) 4 name world).0 ≡ null
unfolding uvfs_lookup_by_name new_transaction make_request free
lookup_hides_error_example = lookup_hides_error (kernel eio) 4 name world (λ v. refl) refl

revalidate_drops_example :
    let (answer, w') = uvfs_dentry_revalidate (kernel 0) 4 name (some 5) world in
    let (result, seen) = uvfs_lookup_by_name (kernel 0) 4 name world in
    let inode = seen.inode 5 in
    Dropped seen w' answer name (s_isdir inode.i_mode)
    ⊎ ((answer ≡ 1) × (w'.events ≡ seen.events) × Valid (kernel 0) seen name inode result)
revalidate_drops_example = revalidate_drops (kernel 0) 4 name 5 world

length-zeros_page : length page.bytes ≡ page_size
length-zeros_page = refl

readpage_content_example :
    let pg' = filled (answer 0) page in
    (length pg'.bytes ≡ page_size)
    × (get_or pg'.bytes 1 0 ≡ 98)
    × (pg'.uptodate ≡ true)
    × (pg'.locked ≡ false)
readpage_content_example =
    readpage_content (answer 0) page 1 length-zeros_page (omega arith) (omega arith)

readpage_unlocks_example :
    let (outcome, w') = uvfs_readpage (kernel 0) 5 page world in
    (w'.sent ≡ page_request (kernel 0) world 5 page.index ∷ [])
    × ((outcome ≡ returned 0 (filled (answer 0) page))
        × ((filled (answer 0) page).uptodate ≡ true)
        × ((filled (answer 0) page).locked ≡ false)
        × ((filled (answer 0) page).index ≡ page.index))
unfolding uvfs_readpage new_transaction make_request free
readpage_unlocks_example = readpage_unlocks (kernel 0) 5 page world

perform-transactions_example :
    (perform (kernel 0) (Operation.create 4 name 420) world).transactions ≡ 0
perform-transactions_example = perform-transactions (kernel 0) (Operation.create 4 name 420) world

perform-AllFit_example : AllFit (perform (kernel 0) (Operation.write_end 5 page 2 3 3) world).sent
perform-AllFit_example =
    perform-AllFit (kernel 0) (Operation.write_end 5 page 2 3 3) world (omega arith) tt

-- The owner of the file may read and write it, so may read it.
permission_monotone_example : (uvfs_permission (kernel 0) 5 4 false false world).0 ≡ 0
unfolding uvfs_permission check_write current_mode decide class_bits
permission_monotone_example = permission_monotone (kernel 0) 5 6 4 false false world refl refl
