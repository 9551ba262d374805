-- ===== src/Symlink/Text.antt =====
-- symlink.c: which text a symbolic link has.
use uvfs.Base.{
  ℕ, zero, suc, ◌+◌, ◌≤◌, ◌≡◌, refl, true, List, [], ◌∷◌, ◌++◌, arith, ltb, if◌then◌else◌,
  is_negative, take, drop, length,
}
use uvfs.Protocol.Limits.{max_pathlen}
use uvfs.Vfs.{Kernel, World, new_transaction, make_request, free}
use uvfs.Symlink.{
  c_string, terminate, returned, overrun, readlink_request, link_with, uvfs_readlink,
  uvfs_follow_link,
}

c_string-terminated : (xs rest : List ℕ) → c_string (xs ++ 0 ∷ rest) ≡ c_string xs
unfolding c_string
c_string-terminated [] rest = refl
c_string-terminated (x ∷ xs) rest = ground (arith, c_string-terminated xs rest)

length-c_string-take : (n : ℕ) (xs : List ℕ) → length (c_string (take n xs)) ≤ n
unfolding c_string
length-c_string-take zero xs = omega arith
length-c_string-take (suc n) [] = omega arith
length-c_string-take (suc n) (x ∷ xs) = ground (arith, length-c_string-take n xs)

-- With memory for a transaction, uvfs_readlink and uvfs_follow_link return the server's error, or hand
-- the kernel the reply's text, up to its length or its first zero byte, if that length is below 1024. Any other
-- length makes both write a byte outside of the array.
-- The text is no longer than that length.
pub link_text :
    (k : Kernel) (p buflen : ℕ) (w : World)
    → k.kmalloc w ≡ true
    → let r = readlink_request k w.serial_number (w.inode p) in
      let reply = k.answer (new_transaction k w).1 r in
      let text = c_string (take reply.readlink_len reply.readlink_buff) in
      let outcome = λ (use_text : List ℕ → ℕ).
        if is_negative reply.error
        then returned reply.error
        else if ltb reply.readlink_len max_pathlen
        then returned (use_text text)
        else overrun in
      ((uvfs_readlink k p buflen w).0 ≡ outcome (k.vfs_readlink buflen))
      × ((uvfs_follow_link k p w).0 ≡ outcome k.vfs_follow_link)
      × (length text ≤ reply.readlink_len)
unfolding uvfs_readlink uvfs_follow_link link_with terminate new_transaction make_request free
link_text k p buflen w m =
    let w₁ = (new_transaction k w).1 in
    let reply = k.answer w₁ (readlink_request k w.serial_number (w.inode p)) in
    let n = reply.readlink_len in
    let ended =
      c_string-terminated (take n reply.readlink_buff) (drop (n + 1) reply.readlink_buff) in
    (ground (arith, ended), ground (arith, ended), length-c_string-take n reply.readlink_buff)
