-- ===== src/Dir/Readdir/Listing.antt =====
-- dir.c: uvfs_readdir with a server that has a directory of numbered entries.
use uvfs.Base.{
  ℕ, zero, suc, ◌+◌, ◌-◌, ◌%◌, ◌^◌, ◌≤◌, ◌<◌, ◌≡◌, refl, true, false, List, ◌∷◌, ◌++◌, arith, ◌==◌,
  if◌then◌else◌, is_negative, length, take, drop, word, Bool-cases, inl, inr, ◌∙◌, sym, subst, ap,
  length-take, length-drop,
}
use uvfs.Protocol.{Request, ReaddirReq, Reply}
use uvfs.Protocol
use uvfs.Protocol.Limits.{buffsize}
use uvfs.Vfs.{Kernel, World, new_transaction, make_request, free}
use uvfs.Dir.Readdir.{
  Dirent, Filldir, memory, Walk, done, full, walk, Outcome, ended, Round, stop, again, ask_entries,
  entries_of, after_reply, read_entries, round, uvfs_readdir,
}
use uvfs.Dir.Readdir.Entries.{Entry, encode, deliver, Holds, AllEntries, walk-encode}
use uvfs.Dir.Readdir.Delivery.{
  Holds-memory, AllEntries-drop, AllEntries-take, continued, deliver-split, deliver-pos, drop-drop,
  drop_all,
}

-- A server that lists this directory: to a request for the entries from a number on it answers with
-- some of the next ones, with at least one if there is one, laid out in its reply.
pub record Lists (k : Kernel) (directory : List Entry) : Type 0 where
  pub batch : World → ReaddirReq → ℕ
  pub within : (w : World) (r : ReaddirReq) → batch w r ≤ length directory - r.entry_no
  pub some_left : (w : World) (r : ReaddirReq) → r.entry_no < length directory → 0 < batch w r
  pub no_error : (w : World) (r : ReaddirReq) → (k.answer w (Request.readdir r)).error ≡ 0
  pub counted :
      (w : World) (r : ReaddirReq) → (k.answer w (Request.readdir r)).readdir_count ≡ batch w r
  pub laid_out :
      (w : World) (r : ReaddirReq)
      → (rest : List ℕ) × ((k.answer w (Request.readdir r)).readdir_data
          ≡ encode r.entry_no (take (batch w r) (drop r.entry_no directory)) ++ rest)
        × (length (encode r.entry_no (take (batch w r) (drop r.entry_no directory))) ≤ buffsize)
  pub numbered : length directory < 2 ^ 31
  pub entries : AllEntries directory

-- How uvfs_readdir ends after a listing.
abbrev pub listed : Walk → Outcome
listed (done pos out) = ended 0 pos out
listed (full pos out) = ended 0 pos out

abbrev to_round : Walk → Round
to_round (done pos out) = again pos out
to_round (full pos out) = stop 0 pos out

module _ (k : Kernel) (filldir : Filldir) (p : ℕ) (directory : List Entry)
    (law : Lists k directory) where
  after_reply-lists :
      (w v : World) (r : ReaddirReq) (pos : ℕ) (out : List Dirent)
      → r.entry_no ≡ pos
      → pos ≤ length directory
      → let b = law.batch w r in
        after_reply k filldir p v (k.answer w (Request.readdir r)) pos out ≡ (
          if b == 0
          then stop 0 pos out
          else to_round (deliver filldir pos (take b (drop pos directory)) out))
  unfolding after_reply entries_of
  after_reply-lists w v r pos out e inside =
      let b = law.batch w r in
      let reply = k.answer w (Request.readdir r) in
      let batch = take b (drop pos directory) in
      let (rest, bytes, room) = law.laid_out w r in
      let size : length batch ≡ b =
        omega (
          arith,
          length-take b (drop pos directory),
          length-drop pos directory,
          law.within w r,
          e,
        ) in
      let held : Holds (memory reply.readdir_data (k.stray_byte v)) 0 (encode pos batch) =
        rw (bytes ∙ ap (λ n. encode n (take b (drop n directory)) ++ rest) e)
          (Holds-memory (k.stray_byte v) (encode pos batch) rest) in
      let room' : length (encode pos batch) ≤ buffsize =
        subst (λ n. length (encode n (take b (drop n directory))) ≤ buffsize) e room in
      let walked =
        walk-encode filldir (memory reply.readdir_data (k.stray_byte v)) batch 0 pos out held
          (AllEntries-take b (drop pos directory) (AllEntries-drop pos directory law.entries))
          (omega arith) (omega (arith, room'))
          (omega (arith, size, law.within w r, law.numbered, e)) in
      let small : is_negative b ≡ false = ground (arith, law.within w r, law.numbered) in
      let walked' : walk filldir (memory reply.readdir_data (k.stray_byte v)) b 0 pos out
          ≡ deliver filldir pos batch out =
        rw size at walked in
      elim (Bool-cases (b == 0)) [
        | inl none_left ↦ rw (law.no_error w r) (rw (law.counted w r) (rw none_left refl))
        | inr left ↦
            rw (law.no_error w r) (rw (law.counted w r) (rw left (rw small (rw walked' refl))))
      ]

  -- What follows a round.
  abbrev resume : ℕ → World → Round → Outcome × World
  resume fuel w (stop err pos out) = (ended err pos out, w)
  resume fuel w (again pos out) = uvfs_readdir k filldir p fuel pos out w

  -- The listing goes on where a batch of it ended.
  next_round :
      (fuel pos b : ℕ) (out : List Dirent) (w : World) (x : Walk)
      → deliver filldir pos (take b (drop pos directory)) out ≡ x
      → b ≤ length directory - pos
      → pos ≤ length directory
      → 0 < b
      → ((pos' : ℕ) (out' : List Dirent)
          → pos' ≡ pos + b
          → (uvfs_readdir k filldir p fuel pos' out' w).0
            ≡ listed (deliver filldir pos' (drop pos' directory) out'))
      → (resume fuel w (to_round x)).0 ≡ listed (continued filldir x (drop b (drop pos directory)))
  next_round fuel pos b out w (full pos' out') e within inside some ih = refl
  next_round fuel pos b out w (done pos' out') e within inside some ih =
      let batch = take b (drop pos directory) in
      let place : pos' ≡ pos + b = omega (
        arith,
        deliver-pos filldir pos batch out pos' out' e,
        length-take b (drop pos directory),
        length-drop pos directory,
      ) in
      ih pos' out' place
      ∙ ap (λ es. listed (deliver filldir pos' es out'))
          (ap (λ n. drop n directory) place ∙ sym (drop-drop pos b directory))

  round-lists :
      (pos : ℕ) (out : List Dirent) (w : World)
      → k.kmalloc w ≡ true
      → pos ≤ length directory
      → (b : ℕ) × (b ≤ length directory - pos)
        × (pos < length directory → 0 < b)
        × ((round k filldir p pos out w).0 ≡ (
            if b == 0
            then stop 0 pos out
            else to_round (deliver filldir pos (take b (drop pos directory)) out)))
  unfolding round read_entries ask_entries new_transaction make_request free
  round-lists pos out w m inside =
      let w₁ = record w {
        serial_number = (w.serial_number + 1) % word;
        transactions = w.transactions + 1;
      } in
      let r : ReaddirReq = record {
        type = Protocol.Code.readdir;
        serial = w.serial_number;
        size = Protocol.Layout.readdir;
        uid = k.current_fsuid;
        gid = k.current_fsgid;
        fh = (w.inode p).fh;
        entry_no = pos % word;
      } in
      let asked = record w₁ {
        sent = Request.readdir r ∷ w₁.sent;
        inode = k.meanwhile w₁ (Request.readdir r);
      } in
      let e : pos % word ≡ pos = omega (arith, law.numbered) in
      (
        law.batch w₁ r,
        omega (arith, law.within w₁ r, e),
        λ l. law.some_left w₁ r (omega (arith, e)),
        ground (arith, m, after_reply-lists w₁ asked r pos out e inside),
      )

  readdir-suc :
      (fuel pos : ℕ) (out : List Dirent) (w : World)
      → uvfs_readdir k filldir p (suc fuel) pos out w
        ≡ resume fuel (round k filldir p pos out w).1 (round k filldir p pos out w).0
  unfolding uvfs_readdir
  readdir-suc fuel pos out w =
      elim ((round k filldir p pos out w).0)
        as (λ r.
          (elim r as (λ _. Outcome × World) [
            | stop err pos' out' ↦ (ended err pos' out', (round k filldir p pos out w).1)
            | again pos' out' ↦
                uvfs_readdir k filldir p fuel pos' out' (round k filldir p pos out w).1
          ])
          ≡ resume fuel (round k filldir p pos out w).1 r) [
            | stop err pos' out' ↦ refl
            | again pos' out' ↦ refl
          ]

  -- With a server that lists a directory, memory for every transaction and more rounds than entries left,
  -- uvfs_readdir ends with 0 from any position in the directory: the callback is given every entry from
  -- that position on, once and in order, with its number as the offset, up to the first one that it
  -- refuses; and the position that is left is the number of that entry, or of the directory's end. How
  -- the server cuts its answers into replies makes no difference.
  pub readdir_lists :
      (fuel pos : ℕ) (out : List Dirent) (w : World)
      → ((v : World) → k.kmalloc v ≡ true)
      → pos ≤ length directory
      → length directory - pos < fuel
      → (uvfs_readdir k filldir p fuel pos out w).0
        ≡ listed (deliver filldir pos (drop pos directory) out)
  unfolding deliver
  readdir_lists zero pos out w m inside enough = absurd (omega arith)
  readdir_lists (suc fuel) pos out w m inside enough =
      let (b, within, some, ends) = round-lists pos out w (m w) inside in
      elim (Bool-cases (b == 0)) [
        | inl zero_left ↦
            let at_end : length directory ≤ pos = ground (arith, some) in
            rw (readdir-suc fuel pos out w)
              (rw ends (rw zero_left (rw (drop_all pos directory at_end) refl)))
        | inr left ↦
            let after = (round k filldir p pos out w).1 in
            let advance : 0 < b = ground arith in
            let x = deliver filldir pos (take b (drop pos directory)) out in
            rw (readdir-suc fuel pos out w) (
              rw ends (
                rw left (
                  rw (deliver-split filldir b pos (drop pos directory) out) (
                    next_round fuel pos b out after x refl within inside advance (λ pos' out' e.
                      readdir_lists fuel pos' out' after m (omega (arith, e, within))
                        (omega (arith, e, within, advance)))))))
      ]
