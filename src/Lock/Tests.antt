-- ===== src/Lock/Tests.antt =====
-- The lock at concrete keys.
use gopher_cron.Base.{Text, codes, none, some, true, ◌≡◌, ◌≢◌, refl, arith, [], ◌∷◌, text_eq}
use gopher_cron.Lock.{
  Held, Kvs, Locker, answered, lost_after, Replies, try_lock_with_owner, try_lock, init_locker,
  put_key, locked,
}
use gopher_cron.Lock.Attempts.{GrantsFresh, AnsweredWith, kvs_of, error_of, locker_of, held_by}
use gopher_cron.Lock.Exclusion.{AreRivals, attempts, attempts-rivals, try_lock-both}

abbrev key : Text
key = codes "/cron/lock/1/a"

abbrev ip : Text
ip = codes "10.0.0.1"

abbrev other_ip : Text
other_ip = codes "10.0.0.12"

-- nobody holds a lock
abbrev free : Kvs
free k = none

-- the lock is held on lease 5
abbrev taken : Kvs
taken = put_key key (held_by ip 5) free

abbrev all_well : Replies
all_well = record {
  grant = some 6;
  keep_alive = true;
  commit = answered;
  put = answered;
  revoke = answered;
}

abbrev put_lost : Replies
put_lost = record {
  grant = some 7;
  keep_alive = true;
  commit = answered;
  put = lost_after;
  revoke = answered;
}

abbrev locker : Locker
locker = init_locker key

fresh_free : (r : Replies) → GrantsFresh r free
fresh_free r l g k h e = cc

only_lease_five : (k : Text) (h : Held) → taken k ≡ some h → h.lease ≡ 5
only_lease_five k h e = ground arith

fresh_taken : GrantsFresh all_well taken
fresh_taken l g k h e = let five = only_lease_five k h e in ground arith

fresh_taken_lost : GrantsFresh put_lost taken
fresh_taken_lost l g k h e = let five = only_lease_five k h e in ground arith

held : taken key ≡ some (held_by ip 5)
unfolding text_eq
held = refl

not_other : ip ≢ other_ip
not_other e = cc

one_rival : AreRivals key ip ((all_well, other_ip, locker) ∷ []) taken
one_rival = (refl, not_other, fresh_taken, tt)

no_error : error_of (try_lock_with_owner all_well ip locker free) ≡ none
unfolding try_lock_with_owner
no_error = refl

no_error_again : error_of (try_lock_with_owner all_well ip locker taken) ≡ none
unfolding try_lock_with_owner text_eq
no_error_again = refl

well : AnsweredWith 6 all_well
well = (refl, refl, refl, refl)

nobody : (h : Held) → free key ≡ some h → h.owner ≡ ip
nobody h e = cc

free_now : free key ≡ none
free_now = refl

try_lock-both_example :
    (try_lock all_well locker free ≡ (locked locker 6, put_key key (held_by [] 6) free, none))
    × (error_of (try_lock all_well locker (kvs_of (try_lock all_well locker free))) ≡ none)
    × ((locker_of (try_lock all_well locker (kvs_of (try_lock all_well locker free)))).is_locked
        ≡ true)
try_lock-both_example =
    try_lock-both all_well all_well 6 6 locker locker free well well free_now refl

attempts-rivals_example :
    attempts ((all_well, other_ip, locker) ∷ []) taken key ≡ some (held_by ip 5)
attempts-rivals_example =
    attempts-rivals key (held_by ip 5) ((all_well, other_ip, locker) ∷ []) taken held one_rival
