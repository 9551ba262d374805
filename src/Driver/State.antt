-- ===== src/Driver/State.antt =====
-- uvfs.h and driver.c: a transaction and the driver's global state.
use uvfs.Base.{ℕ, ◌+◌, Bool, false, List, [], count, remove, update, set32}

-- `uvfs_transaction_s`. Of its wait queue `fs_queue` the model keeps whether `wake_up` was called
-- since the request began to wait; the links `list` are the places in the two lists of `Driver`.
pub record Transaction : Type 0 where
  pub u : List ℕ  -- the bytes of the union of request and reply
  pub serial : ℕ
  pub in_use : Bool
  pub abort : Bool
  pub answered : Bool
  pub woken : Bool

-- The statics of driver.c, and the kernel's heap as far as it holds transactions.
pub record Driver : Type 0 where
  pub use_count : ℕ  -- uvfs_use_count, an int: fewer than 2 ^ 31 files are open
  pub shutting_down : Bool  -- ShuttingDown
  pub serial_number : ℕ  -- Serial_number
  pub requests : List ℕ  -- Uvfs_requests, first in first out
  pub replies : List ℕ  -- Uvfs_replies
  pub heap : ℕ → Transaction
  pub live : ℕ → Bool  -- allocated and not yet freed

-- How many links to a transaction the two lists hold.
abbrev pub links : ℕ → Driver → ℕ
links a d = count a d.requests + count a d.replies

-- A store through a pointer to a transaction.
abbrev pub modify : ℕ → (Transaction → Transaction) → Driver → Driver
modify a f d = record d { heap = update d.heap a (f (d.heap a)) }

-- `list_del_init`: out of whichever list the transaction is in; no effect if it is in none.
abbrev pub list_del_init : ℕ → Driver → Driver
list_del_init a d = record d { requests = remove a d.requests; replies = remove a d.replies }

-- `trans->u.reply.generic.error = -n`: the error stands at byte 12 of every reply.
abbrev pub set_error : ℕ → Transaction → Transaction
set_error e t = record t { u = set32 t.u 12 e }

-- The kernel before the first open. What the heap holds does not matter: nothing is allocated.
abbrev pub blank : Transaction
blank = record {
  u = [];
  serial = 0;
  in_use = false;
  abort = false;
  answered = false;
  woken = false;
}

abbrev pub init : Driver
init = record {
  use_count = 0;
  shutting_down = false;
  serial_number = 0;
  requests = [];
  replies = [];
  heap = λ _. blank;
  live = λ _. false;
}
