-- ===== src/Super/Entries/Aliases.antt =====
-- super.c: whose entry uvfs_get_dentry returns.
use uvfs.Base.{
  ℕ, ◌≡◌, ◌≢◌, ◌⊎◌, inl, inr, refl, Bool, true, false, Option, none, some, arith, ltb, length, ◌&&◌,
  Option-cases, ◌≤◌,
}
use uvfs.Base.Errno.{ecomm}
use uvfs.Protocol.{Fhandle, Attr}
use uvfs.Vfs.{Inode, Kernel, World, err_ptr, found, new_transaction, make_request, free}
use uvfs.Super.Inodes.{uvfs_compare_inode, uvfs_iget, getattr_request}
use uvfs.Super.Handles.{uvfs_encode_fh}
use uvfs.Super.Export.{encoded_handle_found}
use uvfs.Super.Entries.{
  alias_of, ask_server, find_inode, entry_or_error, uvfs_get_dentry, dentry_of_fh, get_or_null,
}

-- The kernel's tables find only inodes that pass the test they are given.
pub record FindsByTest (k : Kernel) : Type 0 where
  pub iget :
      (v : World) (hash : ℕ) (test : Inode → Bool) (q : ℕ)
      → k.iget5_locked v hash test ≡ found q
      → test (v.inode q) ≡ true
  pub lookup :
      (v : World) (hash : ℕ) (test : Inode → Bool) (q : ℕ)
      → k.ilookup5 v hash test ≡ some q
      → test (v.inode q) ≡ true

alias_of-result :
    (k : Kernel) (q : ℕ) (w : World)
    → ((alias_of k q w).0 ≡ k.d_obtain_alias w q) × ((alias_of k q w).1.inode ≡ w.inode)
unfolding alias_of
alias_of-result k q w = ground arith

entry_or_error-some :
    (k : Kernel) (r : ℕ × Option ℕ) (w : World) (q : ℕ)
    → r.1 ≡ some q
    → ((entry_or_error k r w).0 ≡ k.d_obtain_alias w q) × ((entry_or_error k r w).1.inode ≡ w.inode)
unfolding entry_or_error
entry_or_error-some k (err, none) w q e = absurd (ground arith)
entry_or_error-some k (err, some p) w q e = ground (arith, alias_of-result k p w)

entry_or_error-none :
    (k : Kernel) (r : ℕ × Option ℕ) (w : World)
    → r.1 ≡ none
    → (entry_or_error k r w).0 ≡ err_ptr r.0
unfolding entry_or_error
entry_or_error-none k (err, none) w e = refl
entry_or_error-none k (err, some p) w e = absurd (ground arith)

module _ (k : Kernel) (law : FindsByTest k) (fh : Fhandle) where
  iget-compare :
      (a : Attr) (w : World) (q : ℕ)
      → (uvfs_iget k fh a w).0 ≡ some q
      → uvfs_compare_inode ((uvfs_iget k fh a w).1.inode q) fh ≡ true
  unfolding uvfs_iget uvfs_compare_inode
  iget-compare a w q e =
      ground (arith, law.iget w fh.fs_sfuid (λ inode. uvfs_compare_inode inode fh) q)

  ask_server-compare :
      (serial : ℕ) (w : World) (q : ℕ)
      → (ask_server k fh serial w).0.1 ≡ some q
      → uvfs_compare_inode ((ask_server k fh serial w).1.inode q) fh ≡ true
  unfolding ask_server free
  ask_server-compare serial w q e =
      let (reply, w₁) = make_request k (getattr_request k serial fh) w in
      ground (arith, iget-compare reply.getattr_a w₁ q)

  ask_server-error :
      (serial : ℕ) (w : World)
      → (ask_server k fh serial w).0.1 ≡ none
      → (ask_server k fh serial w).0.0 ≢ ecomm
  unfolding ask_server
  ask_server-error serial w e = λ c. ground arith

  find_inode-compare :
      (w : World) (q : ℕ)
      → (find_inode k fh w).0.1 ≡ some q
      → uvfs_compare_inode ((find_inode k fh w).1.inode q) fh ≡ true
  unfolding find_inode new_transaction
  find_inode-compare w q e =
      let w₁ = (new_transaction k w).1 in
      ground (
        arith,
        law.lookup w fh.fs_sfuid (λ inode. uvfs_compare_inode inode fh) q,
        ask_server-compare w.serial_number w₁ q,
      )

  find_inode-error : (w : World) → (find_inode k fh w).0.1 ≡ none → (find_inode k fh w).0.0 ≢ ecomm
  unfolding find_inode new_transaction
  find_inode-error w e =
      λ c. ground (arith, ask_server-error w.serial_number (new_transaction k w).1)

  -- If the kernel's tables find only inodes that pass their test, uvfs_get_dentry returns what
  -- d_obtain_alias has for an inode that uvfs_compare_inode takes for the handle's, or an error that is
  -- not ECOMM, with no entry asked for.
  pub get_dentry_finds :
      (w : World)
      → let (r, w') = uvfs_get_dentry k fh w in
        ((q : ℕ) × (v : World) × (r ≡ k.d_obtain_alias v q)
          × (uvfs_compare_inode (w'.inode q) fh ≡ true))
        ⊎ ((e : ℕ) × (r ≡ err_ptr e) × (e ≢ ecomm))
  unfolding uvfs_get_dentry
  get_dentry_finds w =
      let (result, w₁) = find_inode k fh w in
      elim (Option-cases result.1) [
        | inl e ↦ inr (result.0, entry_or_error-none k result w₁ e, find_inode-error w e)
        | inr (q, e) ↦
            let (alias, same) = entry_or_error-some k result w₁ q e in
            inl (q, w₁, alias, rw same (find_inode-compare w q e))
      ]

compare_trans :
    (i j : Inode) (h : Fhandle)
    → uvfs_compare_inode i h ≡ true
    → uvfs_compare_inode j h ≡ true
    → uvfs_compare_inode j i.fh ≡ true
unfolding uvfs_compare_inode
compare_trans i j h a b = ground arith

-- uvfs_fh_to_dentry on what uvfs_encode_fh has written for an inode, with the room that it asks for: if
-- the kernel's tables find only inodes that pass their test, it returns what d_obtain_alias has for an
-- inode that uvfs_compare_inode takes for the encoded one's, or an error that is not ECOMM.
pub exported_entry :
    (k : Kernel) (inode parent : Inode) (max_len : ℕ) (connectable : Bool) (w : World)
    → FindsByTest k
    → 3 ≤ max_len
    → (connectable && ltb max_len 5) ≡ false
    → let e = uvfs_encode_fh inode parent max_len connectable in
      let (r, w') = dentry_of_fh k e.0 (length e.0) e.1 w in
      ((q : ℕ) × (v : World) × (r ≡ k.d_obtain_alias v q)
        × (uvfs_compare_inode (w'.inode q) inode.fh ≡ true))
      ⊎ ((err : ℕ) × (r ≡ err_ptr err) × (err ≢ ecomm))
unfolding dentry_of_fh get_or_null
exported_entry k inode parent max_len connectable w law room more =
    let (h, decoded, same, size) =
      encoded_handle_found inode parent max_len connectable room more in
    elim (get_dentry_finds k law h w) [
      | inl (q, v, alias, equal) ↦
          inl (q, v, rw decoded alias, rw decoded (compare_trans inode _ h same equal))
      | inr (err, e, ne) ↦ inr (err, rw decoded e, ne)
    ]
