-- ===== src/Lock/Attempts.antt =====
-- How one attempt to lock ends, call by call.
use gopher_cron.Base.{
  nat_eq, ℕ, Text, eq_text, true, Option, none, some, if◌then◌else◌, text_eq, text_eq_iff, ◌≡◌, ◌≢◌,
  ◌⊎◌, inl, inr, refl, arith, Bool-cases, Option-cases, sym, ap, beq_false,
}
use gopher_cron.Lock.{
  Held, Kvs, Locker, Write, answered, lost_before, lost_after, Replies, LockError, revoke,
  revoke_call, txn, after_txn, locked, put_key, inherit, after_commit, try_lock_with_owner, Attempt,
  lock_already_required,
}

-- No key hangs on the lease: what `Grant` promises of the id it returns.
abbrev pub IsFresh : ℕ → Kvs → Type 0
IsFresh l kvs = (k : Text) (h : Held) → kvs k ≡ some h → h.lease ≢ l

abbrev pub GrantsFresh : Replies → Kvs → Type 0
GrantsFresh replies kvs = (l : ℕ) → replies.grant ≡ some l → IsFresh l kvs

-- the outcomes of an attempt
abbrev pub locker_of : Attempt → Locker
locker_of a = a.0

abbrev pub kvs_of : Attempt → Kvs
kvs_of a = a.1

abbrev pub error_of : Attempt → Option LockError
error_of a = a.2

abbrev pub held_by : Text → ℕ → Held
held_by owner l = record { owner = owner; lease = l }

pub revoke-fresh : (l : ℕ) (kvs : Kvs) → IsFresh l kvs → (k : Text) → revoke l kvs k ≡ kvs k
revoke-fresh l kvs fresh k = elim (Option-cases (kvs k)) [
  | inl e ↦ ground arith
  | inr (h, e) ↦ let n = fresh k h e in ground arith
]

pub revoke_call-fresh :
    (v : Write) (l : ℕ) (kvs : Kvs) → IsFresh l kvs → (k : Text) → revoke_call v l kvs k ≡ kvs k
revoke_call-fresh answered l kvs fresh k = revoke-fresh l kvs fresh k
revoke_call-fresh lost_before l kvs fresh k = refl
revoke_call-fresh lost_after l kvs fresh k = revoke-fresh l kvs fresh k

pub txn_free :
    (key : Text) (h : Held) (kvs : Kvs) → kvs key ≡ none → txn key h kvs ≡ (put_key key h kvs, none)
unfolding txn
txn_free key h kvs e = rw (e, txn) refl

pub txn_held :
    (key : Text) (h g : Held) (kvs : Kvs) → kvs key ≡ some g → txn key h kvs ≡ (kvs, some g)
unfolding txn
txn_held key h g kvs e = rw (e, txn) refl

pub commit_free :
    (p v : Write) (tl : Locker) (h : Held) (kvs : Kvs)
    → kvs tl.key ≡ none
    → after_commit answered p v tl h kvs ≡ (locked tl h.lease, put_key tl.key h kvs, none)
unfolding after_commit after_txn
commit_free p v tl h kvs e = ap (after_txn p v tl h) (txn_free tl.key h kvs e)

pub commit_held :
    (p v : Write) (tl : Locker) (h g : Held) (kvs : Kvs)
    → kvs tl.key ≡ some g
    → after_commit answered p v tl h kvs ≡ (
        if text_eq g.owner h.owner
        then inherit p v tl h kvs
        else (tl, revoke_call v h.lease kvs, some lock_already_required))
unfolding after_commit after_txn
commit_held p v tl h g kvs e = ap (after_txn p v tl h) (txn_held tl.key h g kvs e)

abbrev pub Excluded : Locker → Kvs → Attempt → Type 0
Excluded tl kvs a = (error_of a ≢ none) × (locker_of a ≡ tl) × ((k : Text) → kvs_of a k ≡ kvs k)

pub after_commit-Excluded :
    (c p v : Write) (tl : Locker) (owner : Text) (l : ℕ) (kvs : Kvs) (h : Held)
    → IsFresh l kvs
    → kvs tl.key ≡ some h
    → h.owner ≢ owner
    → Excluded tl kvs (after_commit c p v tl (held_by owner l) kvs)
unfolding after_commit txn after_txn
after_commit-Excluded answered p v tl owner l kvs h fresh e n =
    let d = beq_false h.owner owner n in
    rw (commit_held p v tl (held_by owner l) h kvs e, d)
      ((λ q. cc, refl, revoke_call-fresh v l kvs fresh))
after_commit-Excluded lost_before p v tl owner l kvs h fresh e n =
    (λ q. cc, refl, revoke_call-fresh v l kvs fresh)
after_commit-Excluded lost_after p v tl owner l kvs h fresh e n =
    rw (e, after_commit, txn) ((λ q. cc, refl, revoke_call-fresh v l kvs fresh))

-- What a successful attempt leaves behind.
abbrev pub Acquired : Text → Locker → Kvs → Attempt → Type 0
Acquired owner tl kvs a =
    (kvs tl.key ≡ none ⊎ ((h : Held) × (kvs tl.key ≡ some h) × (h.owner ≡ owner)))
    × ((locker_of a).is_locked ≡ true)
    × ((locker_of a).key ≡ tl.key)
    × (kvs_of a ≡ put_key tl.key (held_by owner (locker_of a).lease_id) kvs)

pub after_commit-Acquired :
    (c p v : Write) (tl : Locker) (owner : Text) (l : ℕ) (kvs : Kvs)
    → error_of (after_commit c p v tl (held_by owner l) kvs) ≡ none
    → Acquired owner tl kvs (after_commit c p v tl (held_by owner l) kvs)
      × ((locker_of (after_commit c p v tl (held_by owner l) kvs)).lease_id ≡ l)
unfolding after_commit txn after_txn inherit
after_commit-Acquired answered p v tl owner l kvs q = elim (Option-cases (kvs tl.key)) [
  | inl e ↦ rw (commit_free p v tl (held_by owner l) kvs e) ((inl e, refl, refl, refl), refl)
  | inr (h, e) ↦ elim (Bool-cases (text_eq h.owner owner)) [
    | inl s ↦ go p h e s q
    | inr s ↦ absurd (refused (rw (commit_held p v tl (held_by owner l) h kvs e, s) at q))
  ]
]
  where
    refused : ¬ (some lock_already_required ≡ none)
    refused x = cc

    go :
        (p : Write) (h : Held)
        → kvs tl.key ≡ some h
        → text_eq h.owner owner ≡ true
        → error_of (after_commit answered p v tl (held_by owner l) kvs) ≡ none
        → Acquired owner tl kvs (after_commit answered p v tl (held_by owner l) kvs)
          × ((locker_of (after_commit answered p v tl (held_by owner l) kvs)).lease_id ≡ l)
    go answered h e s q =
        let owns = (text_eq_iff h.owner owner).0 s in
        rw (commit_held answered v tl (held_by owner l) h kvs e, s)
          ((inr (h, e, owns), refl, refl, refl), refl)
    go lost_before h e s q =
        let b = rw (commit_held lost_before v tl (held_by owner l) h kvs e, s) at q in cc
    go lost_after h e s q =
        let b = rw (commit_held lost_after v tl (held_by owner l) h kvs e, s) at q in cc
after_commit-Acquired lost_before p v tl owner l kvs q = cc
after_commit-Acquired lost_after p v tl owner l kvs q = cc

pub acquired :
    (replies : Replies) (owner : Text) (tl : Locker) (kvs : Kvs)
    → error_of (try_lock_with_owner replies owner tl kvs) ≡ none
    → Acquired owner tl kvs (try_lock_with_owner replies owner tl kvs)
      × (replies.grant ≡ some (locker_of (try_lock_with_owner replies owner tl kvs)).lease_id)
unfolding try_lock_with_owner
acquired replies owner tl kvs q = elim (Option-cases replies.grant) [
  | inl g ↦ let b = rw (g, try_lock_with_owner) at q in cc
  | inr (l, g) ↦ elim (Bool-cases replies.keep_alive) [
    | inl a ↦
        let (x, y) =
          after_commit-Acquired replies.commit replies.put replies.revoke tl owner l kvs
            (rw (g, a, try_lock_with_owner) at q) in
        rw (g, a, try_lock_with_owner) ((x, ap some (sym y)))
    | inr a ↦ let b = rw (g, a, try_lock_with_owner) at q in cc
  ]
]

-- Every call to etcd is answered.
abbrev pub AnsweredWith : ℕ → Replies → Type 0
AnsweredWith l replies =
    (replies.grant ≡ some l)
    × (replies.keep_alive ≡ true)
    × (replies.commit ≡ answered)
    × (replies.put ≡ answered)
