-- ===== src/Dir/Readdir/Hazards.antt =====
-- dir.c: the loop of uvfs_readdir with replies that count no entry.
use uvfs.Base.{ℕ, zero, suc, ◌≡◌, refl, true, false, List, arith, is_negative}
use uvfs.Protocol.{Request}
use uvfs.Vfs.{Kernel, World, new_transaction, make_request, free}
use uvfs.Dir.Readdir.{
  Dirent, Filldir, walk, unfinished, again, readdir_request, ask_entries, entries_of, after_reply,
  read_entries, round, uvfs_readdir,
}

module _ (k : Kernel) (filldir : Filldir) (p : ℕ) where
  spinning_round :
      (pos : ℕ) (out : List Dirent) (w : World)
      → ((v : World) → k.kmalloc v ≡ true)
      → ((v : World) (r : Request) → is_negative (k.answer v r).error ≡ false)
      → ((v : World) (r : Request) → is_negative (k.answer v r).readdir_count ≡ true)
      → (round k filldir p pos out w).0 ≡ again pos out
  unfolding round read_entries ask_entries after_reply entries_of walk new_transaction make_request
      free
  spinning_round pos out w m fine negative =
      let w₁ = (new_transaction k w).1 in
      let r = readdir_request k filldir p (w₁.inode p) pos w.serial_number in
      ground (arith, m w, fine w₁ r, negative w₁ r)

  -- If every answer of the server is a success with a negative count of entries, uvfs_readdir never
  -- returns: it has not ended after any number of rounds.
  pub negative_count_spins :
      (fuel pos : ℕ) (out : List Dirent) (w : World)
      → ((v : World) → k.kmalloc v ≡ true)
      → ((v : World) (r : Request) → is_negative (k.answer v r).error ≡ false)
      → ((v : World) (r : Request) → is_negative (k.answer v r).readdir_count ≡ true)
      → (uvfs_readdir k filldir p fuel pos out w).0 ≡ unfinished
  unfolding uvfs_readdir
  negative_count_spins zero pos out w m fine negative = refl
  negative_count_spins (suc fuel) pos out w m fine negative = ground (
    arith,
    spinning_round pos out w m fine negative,
    negative_count_spins fuel pos out (round k filldir p pos out w).1 m fine negative,
  )
