-- ===== src/Lock/Release.antt =====
-- What a lock that was taken leaves in etcd, and what its unlock gives back.
use gopher_cron.Base.{
  nat_eq, ℕ, Text, eq_text, true, false, none, some, if◌then◌else◌, text_eq, ◌≡◌, ◌≢◌, inl, inr,
  arith, Bool-cases, sym, ap, ◌∙◌, beq_refl,
}
use gopher_cron.Lock.{
  Held, Kvs, Locker, Replies, answered, revoke, without_lease, put_key, try_lock_with_owner, unlock,
}
use gopher_cron.Lock.Attempts.{
  IsFresh, GrantsFresh, locker_of, kvs_of, error_of, held_by, revoke-fresh, Acquired, acquired,
}

-- If an attempt returns no error, then the lock was free or had the same owner, the locker is
-- locked, and the only change is that its key now holds the owner on the locker's lease.
pub try_lock_with_owner-Acquired :
    (replies : Replies) (owner : Text) (tl : Locker) (kvs : Kvs)
    → error_of (try_lock_with_owner replies owner tl kvs) ≡ none
    → Acquired owner tl kvs (try_lock_with_owner replies owner tl kvs)
try_lock_with_owner-Acquired replies owner tl kvs q = (acquired replies owner tl kvs q).0

revoke-put_key :
    (l : ℕ) (key owner : Text) (kvs : Kvs)
    → IsFresh l kvs
    → (k : Text)
    → revoke l (put_key key (held_by owner l) kvs) k ≡ (if text_eq key k then none else kvs k)
revoke-put_key l key owner kvs fresh k = elim (Bool-cases (text_eq key k)) [
  | inl e ↦
      ap (λ b. without_lease l (if b then some (held_by owner l) else kvs k)) e
      ∙ ap (λ b. if b then none else some (held_by owner l)) (beq_refl l)
      ∙ ap (λ b. if b then none else kvs k) (sym e)
  | inr n ↦ rw n (revoke-fresh l kvs fresh k)
]

unlock-put_key :
    (tl : Locker) (key owner : Text) (kvs : Kvs)
    → tl.is_locked ≡ true
    → IsFresh tl.lease_id kvs
    → (k : Text)
    → (unlock answered tl (put_key key (held_by owner tl.lease_id) kvs)).1 k
      ≡ (if text_eq key k then none else kvs k)
unfolding unlock
unlock-put_key tl key owner kvs locked_now fresh k =
    let stored = put_key key (held_by owner tl.lease_id) kvs in
    ap
      (λ b.
        (if◌then◌else◌ {A = Locker × Kvs} b
            (record tl { is_locked = false }, revoke tl.lease_id stored) (tl, stored)).1
          k)
      locked_now
    ∙ revoke-put_key tl.lease_id key owner kvs fresh k

-- If a locker got the lock on a lease that was not in use and then unlocks, the key is free, and
-- every other key is as it was before the attempt.
pub unlock-try_lock_with_owner :
    (replies : Replies) (owner : Text) (tl : Locker) (kvs : Kvs)
    → GrantsFresh replies kvs
    → error_of (try_lock_with_owner replies owner tl kvs) ≡ none
    → (k : Text)
    → (unlock answered
          (locker_of (try_lock_with_owner replies owner tl kvs))
          (kvs_of (try_lock_with_owner replies owner tl kvs))).1
        k
      ≡ (if text_eq tl.key k then none else kvs k)
unlock-try_lock_with_owner replies owner tl kvs fresh q k =
    let a = try_lock_with_owner replies owner tl kvs in
    let ((was, is_locked, key, stored), granted) = acquired replies owner tl kvs q in
    ap (λ s. (unlock answered (locker_of a) s).1 k) stored
    ∙ unlock-put_key (locker_of a) tl.key owner kvs is_locked (fresh (locker_of a).lease_id granted)
        k

-- If the first holder of a lock unlocks after another locker has got it, on a lease that was not
-- in use, then the lock stays with the second.
pub unlock-inherited :
    (replies : Replies) (owner : Text) (old tl : Locker) (kvs : Kvs) (h : Held)
    → GrantsFresh replies kvs
    → kvs tl.key ≡ some h
    → old.lease_id ≡ h.lease
    → error_of (try_lock_with_owner replies owner tl kvs) ≡ none
    → (unlock answered old (kvs_of (try_lock_with_owner replies owner tl kvs))).1 tl.key
      ≡ some (held_by owner (locker_of (try_lock_with_owner replies owner tl kvs)).lease_id)
unfolding unlock
unlock-inherited replies owner old tl kvs h fresh e same q =
    let a = try_lock_with_owner replies owner tl kvs in
    let ((was, is_locked, key, stored), granted) = acquired replies owner tl kvs q in
    let other = fresh (locker_of a).lease_id granted tl.key h e in
    ap (λ s. (unlock answered old s).1 tl.key) stored ∙ go (locker_of a).lease_id other
  where
    go :
        (l : ℕ)
        → h.lease ≢ l
        → (unlock answered old (put_key tl.key (held_by owner l) kvs)).1 tl.key
          ≡ some (held_by owner l)
    go l other = let same_key = beq_refl tl.key in ground arith
