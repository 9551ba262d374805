-- ===== src/Base/Words.antt =====
-- Bytes in memory and the 32-bit little-endian words in them. An `int` is its bit pattern, below
-- 2 ^ 32; a negative one is written by `neg32`.
use Prim.Native.Nat.{ℕ, zero, suc, ◌≤◌, ◌+◌, ◌-◌, ◌*◌, ◌/◌, ◌%◌, ◌^◌, ◌<◌}
use mathlib.Core.Path.{◌≡◌, refl}
use mathlib.Core.Bool.{Bool}
use mathlib.Core.List.{List, [], ◌∷◌, ◌++◌}
use native.Mathlib.Omega.{arith}
use uvfs.Base.Tests.{leb, ltb, if◌then◌else◌}
use uvfs.Base.Lists.{length, take, drop, get_or, length-append, length-take, length-drop}

abbrev pub word : ℕ
word = 2 ^ 32

-- The bit pattern of the `int` -n, for 0 < n.
abbrev pub neg32 : ℕ → ℕ
neg32 n = word - n

-- The test `x < 0` on an `int`.
abbrev pub is_negative : ℕ → Bool
is_negative x = leb (2 ^ 31) x

-- An `int` as a 64-bit integer: its sign is extended.
abbrev pub widen : ℕ → ℕ
widen x = if is_negative x then x + (2 ^ 64 - word) else x

unfoldable pub bytes32 : ℕ → List ℕ
bytes32 v = (v % 256) ∷ (v / 256 % 256) ∷ (v / 65536 % 256) ∷ (v / 16777216 % 256) ∷ []

-- The word at a byte offset; memory that was not written reads as 0.
unfoldable pub get32 : List ℕ → ℕ → ℕ
get32 u off =
    get_or u off 0
    + 256 * get_or u (off + 1) 0
    + 65536 * get_or u (off + 2) 0
    + 16777216 * get_or u (off + 3) 0

-- `memcpy(u + off, bytes, length bytes)`: what lies behind the copied bytes stays.
unfoldable pub copy_at : List ℕ → ℕ → List ℕ → List ℕ
copy_at u off bytes = take off u ++ (bytes ++ drop (off + length bytes) u)

unfoldable pub set32 : List ℕ → ℕ → ℕ → List ℕ
unfolding copy_at bytes32
set32 u off v = copy_at u off (bytes32 v)

pub get_or-append :
    (xs ys : List ℕ) (i d : ℕ)
    → get_or (xs ++ ys) i d
      ≡ (if ltb i (length xs) then get_or xs i d else get_or ys (i - length xs) d)
get_or-append [] ys i d = ground arith
get_or-append (x ∷ xs) ys zero d = ground arith
get_or-append (x ∷ xs) ys (suc i) d = ground (arith, get_or-append xs ys i d)

-- Where bytes were copied to, they are read back.
get_or-copy_at :
    (u : List ℕ) (off : ℕ) (bytes : List ℕ) (i j : ℕ)
    → off ≤ length u
    → i < length bytes
    → off + i ≡ j
    → get_or (copy_at u off bytes) j 0 ≡ get_or bytes i 0
unfolding copy_at
get_or-copy_at u off bytes i j h l e = ground (
  arith,
  get_or-append (take off u) (bytes ++ drop (off + length bytes) u) j 0,
  get_or-append bytes (drop (off + length bytes) u) i 0,
  length-take off u,
)

pub get32-set32 :
    (u : List ℕ) (off v : ℕ) → off ≤ length u → v < word → get32 (set32 u off v) off ≡ v
unfolding get32 set32
get32-set32 u off v h l = omega (
  arith,
  get_or-copy_at u off (bytes32 v) 0 off h (omega arith) (omega arith),
  get_or-copy_at u off (bytes32 v) 1 (off + 1) h (omega arith) refl,
  get_or-copy_at u off (bytes32 v) 2 (off + 2) h (omega arith) refl,
  get_or-copy_at u off (bytes32 v) 3 (off + 3) h (omega arith) refl,
)

pub get32-copy_at :
    (u bytes : List ℕ) (i : ℕ) → i + 4 ≤ length bytes → get32 (copy_at u 0 bytes) i ≡ get32 bytes i
unfolding get32
get32-copy_at u bytes i h = omega (
  arith,
  get_or-copy_at u 0 bytes i i (omega arith) (omega arith) (omega arith),
  get_or-copy_at u 0 bytes (i + 1) (i + 1) (omega arith) (omega arith) (omega arith),
  get_or-copy_at u 0 bytes (i + 2) (i + 2) (omega arith) (omega arith) (omega arith),
  get_or-copy_at u 0 bytes (i + 3) (i + 3) (omega arith) (omega arith) (omega arith),
)

pub length-copy_at_over :
    (u bytes : List ℕ) → length u ≤ length bytes → length (copy_at u 0 bytes) ≡ length bytes
unfolding copy_at
length-copy_at_over u bytes h =
    omega (arith, length-append bytes (drop (0 + length bytes) u), length-drop (0 + length bytes) u)

-- A copy that begins inside never shortens the memory.
pub le-length-copy_at :
    (u : List ℕ) (off : ℕ) (bytes : List ℕ)
    → off ≤ length u
    → length u ≤ length (copy_at u off bytes)
unfolding copy_at
le-length-copy_at u off bytes h = omega (
  arith,
  length-append (take off u) (bytes ++ drop (off + length bytes) u),
  length-append bytes (drop (off + length bytes) u),
  length-take off u,
  length-drop (off + length bytes) u,
)
