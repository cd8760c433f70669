-- ===== src/Lock.antt =====
-- pkg/etcd/locker.go: the distributed lock that center keeps in etcd, one key per lock, whose
-- value is the owner. The key hangs on a lease; revoking the lease deletes it at once. The code
-- ignores the error of a revoke; a lease that is not revoked ends by itself after 30 seconds, which
-- is not part of the calls modelled here.
pub mod Attempts
pub mod Exclusion
pub mod Release
mod Tests
use gopher_cron.Base.{
  ℕ, Text, List, [], ◌∷◌, eq_text, Bool, true, false, Option, none, some, ◌==◌, if◌then◌else◌,
  text_eq,
}

-- What etcd stores at a lock key: the value and the lease of the key.
pub record Held : Type 0 where
  pub owner : Text
  pub lease : ℕ

abbrev pub Kvs : Type 0
Kvs = Text → Option Held

abbrev pub put_key : Text → Held → Kvs → Kvs
put_key key h kvs k = if text_eq key k then some h else kvs k

-- `Locker`, without its clients
pub record Locker : Type 0 where
  pub key : Text
  pub lease_id : ℕ
  pub is_locked : Bool

abbrev pub init_locker : Text → Locker
init_locker lockkey = record { key = lockkey; lease_id = 0; is_locked = false }

-- How a write to etcd ends: answered, or with an error before or after it took effect.
pub data Write : Type 0 where
  answered lost_before lost_after : Write

-- What etcd answers to the calls of one `TryLockWithOwner`.
pub record Replies : Type 0 where
  pub grant : Option ℕ
  pub keep_alive : Bool
  pub commit : Write
  pub put : Write
  pub revoke : Write

pub data LockError : Type 0 where
  grant_error keep_alive_error commit_error lock_already_required put_error : LockError

abbrev pub without_lease : ℕ → Option Held → Option Held
without_lease lease_id none = none
without_lease lease_id (some h) = if h.lease == lease_id then none else some h

-- a revoke that etcd carries out
abbrev pub revoke : ℕ → Kvs → Kvs
revoke lease_id kvs k = without_lease lease_id (kvs k)

-- `lease.Revoke`, whose error is dropped
abbrev pub revoke_call : Write → ℕ → Kvs → Kvs
revoke_call answered lease_id kvs = revoke lease_id kvs
revoke_call lost_before lease_id kvs = kvs
revoke_call lost_after lease_id kvs = revoke lease_id kvs

-- The transaction: put the key if nothing is there, else get it.
unfoldable pub txn : Text → Held → Kvs → Kvs × Option Held
txn key h kvs = elim (kvs key) [ none ↦ (put_key key h kvs, none) | some held ↦ (kvs, some held) ]

abbrev pub Attempt : Type 0
Attempt = Locker × Kvs × Option LockError

abbrev pub locked : Locker → ℕ → Locker
locked tl lease_id = record tl { lease_id = lease_id; is_locked = true }

-- The put that takes the lock over from the same owner.
unfoldable pub inherit : (put revoked : Write) → Locker → Held → Kvs → Attempt
inherit answered revoked tl h kvs = (locked tl h.lease, put_key tl.key h kvs, none)
inherit lost_before revoked tl h kvs = (tl, revoke_call revoked h.lease kvs, some put_error)
inherit lost_after revoked tl h kvs =
    (tl, revoke_call revoked h.lease (put_key tl.key h kvs), some put_error)

-- What follows the answer of the transaction.
unfoldable pub after_txn : (put revoked : Write) → Locker → Held → Kvs × Option Held → Attempt
unfolding inherit
after_txn put revoked tl h (kvs, none) = (locked tl h.lease, kvs, none)
after_txn put revoked tl h (kvs, some held) =
    if text_eq held.owner h.owner
    then inherit put revoked tl h kvs
    else (tl, revoke_call revoked h.lease kvs, some lock_already_required)

unfoldable pub after_commit : (commit put revoked : Write) → Locker → Held → Kvs → Attempt
unfolding txn after_txn
after_commit answered put revoked tl h kvs = after_txn put revoked tl h (txn tl.key h kvs)
after_commit lost_before put revoked tl h kvs =
    (tl, revoke_call revoked h.lease kvs, some commit_error)
after_commit lost_after put revoked tl h kvs =
    (tl, revoke_call revoked h.lease ((txn tl.key h kvs).0), some commit_error)

unfoldable pub try_lock_with_owner : Replies → (owner : Text) → Locker → Kvs → Attempt
unfolding after_commit
try_lock_with_owner replies owner tl kvs = elim replies.grant [
  | none ↦ (tl, kvs, some grant_error)
  | some lease_id ↦
      if replies.keep_alive
      then after_commit replies.commit replies.put replies.revoke tl
          (record { owner = owner; lease = lease_id }) kvs
      else (tl, kvs, some keep_alive_error)
]

unfoldable pub try_lock : Replies → Locker → Kvs → Attempt
try_lock replies tl kvs = try_lock_with_owner replies [] tl kvs

unfoldable pub lock_exist : Locker → Kvs → Bool
lock_exist tl kvs = elim (kvs tl.key) [ none ↦ false | some held ↦ true ]

unfoldable pub unlock : (revoked : Write) → Locker → Kvs → Locker × Kvs
unlock revoked tl kvs =
    if tl.is_locked
    then (record tl { is_locked = false }, revoke_call revoked tl.lease_id kvs)
    else (tl, kvs)
