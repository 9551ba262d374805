-- ===== src/Operations/Tests/Mounts.antt =====
-- Mounts, exported handles, links and the reading of a directory on the kernel of
-- Operations/Sample.antt.
use uvfs.Base.{
  ℕ, zero, suc, ◌+◌, ◌≤◌, ◌<◌, ◌≡◌, ◌≢◌, ◌⊎◌, refl, true, false, List, [], ◌∷◌, ◌++◌, none, some,
  arith, ltb, length, if◌then◌else◌, take, drop, bytes32,
}
use uvfs.Base.Errno.{ecomm}
use uvfs.Protocol.{Request, ReaddirReq, Reply}
use uvfs.Protocol.Limits.{max_pathlen, buffsize}
use uvfs.Vfs.{Kernel, World, err_ptr, new_transaction, make_request, free}
use uvfs.Super.Inodes.{uvfs_compare_inode, uvfs_iget}
use uvfs.Super.Handles.{uvfs_encode_fh}
use uvfs.Super.Entries.{dentry_of_fh}
use uvfs.Super.Entries.Aliases.{FindsByTest, exported_entry}
use uvfs.Super.Mount.{
  Superblock, store_option, starts_with, uvfs_parse_options, parse_data, mount_store,
  read_super_with, set_root, uvfs_read_super,
}
use uvfs.Super.Mounting.{AfterMount, mounted_store}
use uvfs.Symlink.{uvfs_readlink, uvfs_follow_link, returned, c_string}
use uvfs.Symlink.Text.{link_text}
use uvfs.Dir.Readdir.{uvfs_readdir, ended}
use uvfs.Dir.Readdir.Entries.{Entry, encode_entry, encode, deliver}
use uvfs.Dir.Readdir.Listing.{Lists, readdir_lists}
use uvfs.Operations.Sample.{file, directory, answer, kernel, world}

-- A directory of two entries, which the server lists in two replies.
abbrev entries : List Entry
entries = record { name = 97 ∷ []; ino = 50 } ∷ record { name = 98 ∷ 99 ∷ []; ino = 51 } ∷ []

abbrev batch : ReaddirReq → ℕ
batch r = if ltb r.entry_no 2 then 1 else 0

abbrev list_answer : Request → Reply
list_answer (Request.readdir r) = record (answer 0) {
  readdir_count = batch r;
  readdir_data = encode r.entry_no (take (batch r) (drop r.entry_no entries)) ++ [];
}
list_answer _ = answer 0

abbrev lister : Kernel
lister = record (kernel 0) { answer = λ w r. list_answer r }

lister-room :
    (n : ℕ) → length (encode n (take (if ltb n 2 then 1 else 0) (drop n entries))) ≤ buffsize
unfolding encode encode_entry bytes32
lister-room zero = omega arith
lister-room (suc zero) = omega arith
lister-room (suc (suc n)) = grind arith

lister-Lists : Lists lister entries
lister-Lists = record {
  batch = λ w r. batch r;
  within = λ w r. ground arith;
  some_left = λ w r h. ground arith;
  no_error = λ w r. refl;
  counted = λ w r. refl;
  laid_out = λ w r. ([], refl, lister-room r.entry_no);
  numbered = omega arith;
  entries = (
    record { short = omega arith; small = omega arith },
    (record { short = omega arith; small = omega arith }, tt),
  );
}

-- The callback takes every entry.
readdir_lists_example :
    (uvfs_readdir lister (λ out ent. false) 4 3 0 [] world).0
    ≡ ended 0 2 (
        record { name = 97 ∷ []; namlen = 1; offset = 0; ino = 50 }
        ∷ record { name = 98 ∷ 99 ∷ []; namlen = 2; offset = 1; ino = 51 }
        ∷ [])
unfolding deliver
readdir_lists_example =
    readdir_lists lister (λ out ent. false) 4 entries lister-Lists 3 0 [] world (λ v. refl)
      (omega arith) (omega arith)

kernel-FindsByTest : FindsByTest (kernel 0)
kernel-FindsByTest = record {
  iget = λ v hash test q e. ground arith;
  lookup = λ v hash test q e. ground arith;
}

exported_entry_example :
    let e = uvfs_encode_fh file directory 5 true in
    let (r, w') = dentry_of_fh (kernel 0) e.0 (length e.0) e.1 world in
    ((q : ℕ) × (v : World) × (r ≡ (kernel 0).d_obtain_alias v q)
      × (uvfs_compare_inode (w'.inode q) file.fh ≡ true))
    ⊎ ((err : ℕ) × (r ≡ err_ptr err) × (err ≢ ecomm))
exported_entry_example =
    exported_entry (kernel 0) file directory 5 true world kernel-FindsByTest (omega arith) refl

abbrev unmounted : Superblock
unmounted = record {
  s_maxbytes = 0;
  s_blocksize = 0;
  s_blocksize_bits = 0;
  s_magic = 0;
  has_operations = false;
  s_root = none;
}

-- "store=a"
abbrev options : List ℕ
options = store_option ++ 97 ∷ []

mounted_store_example :
    let ((err, sb'), w') = uvfs_read_super (kernel 0) unmounted (some options) world in
    (arg : List ℕ) × (some options ≡ some (store_option ++ arg))
    × (length arg + 1 < max_pathlen)
    × AfterMount (kernel 0) unmounted arg world sb' w'
unfolding uvfs_read_super mount_store parse_data uvfs_parse_options starts_with read_super_with
    set_root uvfs_iget new_transaction make_request free
mounted_store_example = mounted_store (kernel 0) unmounted (some options) world refl

-- The link's text is "ab".
link_text_example :
    ((uvfs_readlink (kernel 0) 5 80 world).0 ≡ returned 2)
    × ((uvfs_follow_link (kernel 0) 5 world).0 ≡ returned 0)
    × (length (c_string (97 ∷ 98 ∷ [])) ≤ 2)
unfolding c_string new_transaction
link_text_example = link_text (kernel 0) 5 80 world refl
