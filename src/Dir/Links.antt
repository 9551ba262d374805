-- ===== src/Dir/Links.antt =====
-- dir.c: uvfs_rename's counts of links.
use uvfs.Base.{
  ℕ, length, true, Bool-cases, inl, inr, List, ◌∷◌, ◌+◌, ◌-◌, ◌%◌, ◌≤◌, ◌<◌, ◌≡◌, refl, Bool, ◌&&◌,
  Option, none, some, arith, ◌==◌, if◌then◌else◌, word,
}
use uvfs.Protocol.{Request}
use uvfs.Vfs.{Inode, Kernel, World, new_transaction, make_request, free}
use uvfs.Vfs.Mode.{s_isdir}
use uvfs.Dir.Remove.{replace_target, reparent, move_links, uvfs_rename}

abbrev one_if : Bool → ℕ
one_if b = if b then 1 else 0

-- What the renaming of `src` from one directory to another, over no or another object, adds to and
-- takes from the count of an inode `x`.
abbrev pub gained : Inode → ℕ → ℕ → ℕ
gained src dstdir x = one_if (s_isdir src.i_mode && dstdir == x)

abbrev pub lost_by_move : Inode → ℕ → ℕ → ℕ
lost_by_move src srcdir x = one_if (s_isdir src.i_mode && srcdir == x)

abbrev pub lost_by_target : (ℕ → Inode) → ℕ → Option ℕ → ℕ → ℕ
lost_by_target f dstdir none x = 0
lost_by_target f dstdir (some d) x =
    if s_isdir (f d).i_mode
    then (if d == x then 2 else 0) + one_if (dstdir == x)
    else one_if (d == x)

replace_target-counts :
    (k : Kernel) (dstdir : ℕ) (dst : Option ℕ) (w : World) (x : ℕ)
    → (w.inode x).i_nlink < word
    → ((replace_target k dstdir dst w).1.inode x).i_nlink
      ≡ ((w.inode x).i_nlink + word - lost_by_target w.inode dstdir dst x) % word
unfolding replace_target
replace_target-counts k dstdir none w x h = ground arith
replace_target-counts k dstdir (some d) w x h = ground arith

replace_target-mode :
    (k : Kernel) (dstdir : ℕ) (dst : Option ℕ) (w : World) (x : ℕ)
    → ((replace_target k dstdir dst w).1.inode x).i_mode ≡ (w.inode x).i_mode
unfolding replace_target
replace_target-mode k dstdir none w x = refl
replace_target-mode k dstdir (some d) w x = ground arith

take_twice :
    (n g m t : ℕ)
    → n < word
    → g ≤ 1
    → m ≤ 1
    → t ≤ 3
    → ((n + word - t) % word + g + word - m) % word ≡ (n + g + word - m - t) % word
take_twice n g m t a b c d = omega arith

reparent-counts :
    (k : Kernel) (srcdir src dstdir : ℕ) (before : Inode) (w : World) (x : ℕ)
    → (w.inode src).i_mode ≡ before.i_mode
    → (w.inode x).i_nlink < word
    → ((reparent k srcdir src dstdir w).1.inode x).i_nlink
      ≡ ((w.inode x).i_nlink + gained before dstdir x + word - lost_by_move before srcdir x) % word
unfolding reparent
reparent-counts k srcdir src dstdir before w x same h = ground arith

lost_by_target-le :
    (f : ℕ → Inode) (dstdir : ℕ) (dst : Option ℕ) (x : ℕ) → lost_by_target f dstdir dst x ≤ 3
lost_by_target-le f dstdir none x = ground arith
lost_by_target-le f dstdir (some d) x = ground arith

one_if-le : (b : Bool) → one_if b ≤ 1
one_if-le b = ground arith

move_links-counts :
    (k : Kernel) (srcdir src dstdir : ℕ) (dst : Option ℕ) (w : World) (x : ℕ)
    → (w.inode x).i_nlink < word
    → ((move_links k srcdir src dstdir dst w).1.inode x).i_nlink
      ≡ ((w.inode x).i_nlink
          + gained (w.inode src) dstdir x
          + word
          - lost_by_move (w.inode src) srcdir x
          - lost_by_target w.inode dstdir dst x)
        % word
unfolding move_links
move_links-counts k srcdir src dstdir dst w x h =
    let w₁ = (replace_target k dstdir dst w).1 in
    let old = (w.inode x).i_nlink in
    let t = lost_by_target w.inode dstdir dst x in
    let target = replace_target-counts k dstdir dst w x h in
    let before = w.inode src in
    let same = replace_target-mode k dstdir dst w src in
    let rest = reparent-counts k srcdir src dstdir before w₁ x same (omega (arith, target)) in
    let one = one_if-le (s_isdir before.i_mode && dstdir == x) in
    let two = one_if-le (s_isdir before.i_mode && srcdir == x) in
    let three = lost_by_target-le w.inode dstdir dst x in
    let g = gained before dstdir x in
    let m = lost_by_move before srcdir x in
    let both = take_twice old g m t h one two three in omega (arith, rest, target, both)

move_links-sent :
    (k : Kernel) (srcdir src dstdir : ℕ) (dst : Option ℕ) (w : World)
    → (move_links k srcdir src dstdir dst w).1.sent ≡ w.sent
unfolding move_links replace_target reparent
move_links-sent k srcdir src dstdir none w = ground arith
move_links-sent k srcdir src dstdir (some d) w = ground arith

-- The request of a rename.
abbrev pub rename_request : Kernel → World → ℕ → List ℕ → ℕ → List ℕ → Request
rename_request k w srcdir srcname dstdir dstname = Request.rename (record {
  type = 9;
  serial = w.serial_number;
  size = 604;
  uid = k.current_fsuid;
  gid = k.current_fsgid;
  fh_old = (w.inode srcdir).fh;
  old_name = srcname;
  old_namelen = length srcname;
  fh_new = (w.inode dstdir).fh;
  new_name = dstname;
  new_namelen = length dstname;
})

-- uvfs_rename with names of at most 256 bytes and memory for a transaction sends one request, with the
-- source directory's handle and the source's name as the old ones and the destination's as the new ones,
-- and returns the server's error. With 0 the count of every inode is the one before the reply, plus 1 for
-- the new parent of a directory, minus 1 for its old parent, minus 2 for a replaced directory and 1 for
-- its parent, or minus 1 for another replaced object, modulo 2 ^ 32, also where two or more of these
-- inodes are one. With an error no inode is changed.
pub rename_counts :
    (k : Kernel) (srcdir : ℕ) (srcname : List ℕ) (src dstdir : ℕ) (dstname : List ℕ)
    (dst : Option ℕ) (w : World) (x : ℕ)
    → length srcname ≤ 256
    → length dstname ≤ 256
    → k.kmalloc w ≡ true
    → (k.meanwhile
        (new_transaction k w).1
        (rename_request k w srcdir srcname dstdir dstname)
        x).i_nlink
      < word
    → let (err, w') = uvfs_rename k srcdir srcname src dstdir dstname dst w in
      let r = rename_request k w srcdir srcname dstdir dstname in
      let seen = k.meanwhile (new_transaction k w).1 r in
      (w'.sent ≡ r ∷ w.sent)
      × (err ≡ (k.answer (new_transaction k w).1 r).error)
      × (if err == 0
          then (w'.inode x).i_nlink
            ≡ ((seen x).i_nlink
                + gained (seen src) dstdir x
                + word
                - lost_by_move (seen src) srcdir x
                - lost_by_target seen dstdir dst x)
              % word
          else w'.inode ≡ seen)
unfolding uvfs_rename new_transaction make_request free
rename_counts k srcdir srcname src dstdir dstname dst w x a b m h =
    let r = rename_request k w srcdir srcname dstdir dstname in
    let w₁ = (new_transaction k w).1 in
    let w₂ = record w₁ { sent = r ∷ w.sent; inode = k.meanwhile w₁ r } in
    let counts = move_links-counts k srcdir src dstdir dst w₂ x h in
    let reply = k.answer w₁ r in
    elim (Bool-cases (reply.error == 0)) [
      | inl e ↦ ground (arith, e, counts, move_links-sent k srcdir src dstdir dst w₂)
      | inr e ↦ ground (arith, e)
    ]
