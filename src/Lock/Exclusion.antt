-- ===== src/Lock/Exclusion.antt =====
-- Who gets a lock: attempts of other owners, of the same owner, and of nobody in particular.
use gopher_cron.Base.{
  nat_eq, ℕ, Text, List, [], ◌∷◌, eq_text, true, none, some, if◌then◌else◌, text_eq_iff, ◌≡◌, ◌≢◌,
  inl, inr, refl, arith, Bool-cases, Option-cases, ap, ◌∙◌, beq_refl,
}
use gopher_cron.Lock.{
  Held, Kvs, Locker, answered, Replies, revoke_call, locked, put_key, inherit, try_lock_with_owner,
  try_lock, lock_already_required,
}
use gopher_cron.Lock.Attempts.{
  GrantsFresh, locker_of, kvs_of, error_of, held_by, commit_free, commit_held, Excluded,
  after_commit-Excluded, AnsweredWith,
}

-- If somebody else holds the lock and the lease that etcd grants is not in use, then the attempt
-- gets an error, takes nothing, and no key changes, whichever calls to etcd fail.
pub try_lock_with_owner-Excluded :
    (replies : Replies) (owner : Text) (tl : Locker) (kvs : Kvs) (h : Held)
    → GrantsFresh replies kvs
    → kvs tl.key ≡ some h
    → h.owner ≢ owner
    → Excluded tl kvs (try_lock_with_owner replies owner tl kvs)
unfolding try_lock_with_owner
try_lock_with_owner-Excluded replies owner tl kvs h fresh e n = elim (Option-cases replies.grant) [
  | inl g ↦ rw g ((λ q. cc, refl, λ k. refl))
  | inr (l, g) ↦ elim (Bool-cases replies.keep_alive) [
    | inl a ↦
        rw (g, a)
          (after_commit-Excluded replies.commit replies.put replies.revoke tl owner l kvs h
            (fresh l g) e n)
    | inr a ↦ rw (g, a) ((λ q. cc, refl, λ k. refl))
  ]
]

-- Requests of other lockers, one after the other: whose they are and what etcd answers.
abbrev pub Request : Type 0
Request = Replies × Text × Locker

unfoldable pub attempts : List Request → Kvs → Kvs
attempts [] kvs = kvs
attempts ((replies, owner, tl) ∷ rest) kvs =
    attempts rest (kvs_of (try_lock_with_owner replies owner tl kvs))

-- Each request is for the key, by an owner other than `o`, and gets an unused lease.
abbrev pub AreRivals : Text → Text → List Request → Kvs → Type 0
AreRivals key o [] kvs = Unit
AreRivals key o ((replies, owner, tl) ∷ rest) kvs =
    (tl.key ≡ key)
    × (o ≢ owner)
    × GrantsFresh replies kvs
    × AreRivals key o rest (kvs_of (try_lock_with_owner replies owner tl kvs))

-- Any number of attempts by other owners for a held lock, each on a lease that is not in use and
-- whatever etcd answers, leave the lock with its holder.
pub attempts-rivals :
    (key : Text) (h : Held) (requests : List Request) (kvs : Kvs)
    → kvs key ≡ some h
    → AreRivals key h.owner requests kvs
    → attempts requests kvs key ≡ some h
unfolding attempts
attempts-rivals key h [] kvs e r = e
attempts-rivals key h ((replies, owner, tl) ∷ rest) kvs e r =
    let (same, other, fresh, later) = r in
    let x = try_lock_with_owner-Excluded replies owner tl kvs h fresh (ap kvs same ∙ e) other in
    attempts-rivals key h rest (kvs_of (try_lock_with_owner replies owner tl kvs)) (x.2 key ∙ e)
      later

-- If etcd answers every call, an attempt for a lock that is free, or that the same owner holds,
-- succeeds.
pub try_lock_with_owner-free :
    (replies : Replies) (owner : Text) (tl : Locker) (kvs : Kvs) (l : ℕ)
    → AnsweredWith l replies
    → ((h : Held) → kvs tl.key ≡ some h → h.owner ≡ owner)
    → try_lock_with_owner replies owner tl kvs
      ≡ (locked tl l, put_key tl.key (held_by owner l) kvs, none)
unfolding try_lock_with_owner inherit
try_lock_with_owner-free replies owner tl kvs l r own =
    let (g, a, c, p) = r in
    rw (g, a, c, p, try_lock_with_owner)
      (elim (Option-cases (kvs tl.key)) [
        | inl e ↦ commit_free answered replies.revoke tl (held_by owner l) kvs e
        | inr (h, e) ↦
            commit_held answered replies.revoke tl (held_by owner l) h kvs e
            ∙ ap
                (λ b.
                  if b
                  then inherit answered replies.revoke tl (held_by owner l) kvs
                  else (tl, revoke_call replies.revoke l kvs, some lock_already_required))
                ((text_eq_iff h.owner owner).1 (own h e))
      ])

-- `TryLock` names no owner, so it never excludes: with every call answered, two lockers for one
-- free key both get the lock, the second while the first still holds it.
pub try_lock-both :
    (r r' : Replies) (l l' : ℕ) (tl tl' : Locker) (kvs : Kvs)
    → AnsweredWith l r
    → AnsweredWith l' r'
    → kvs tl.key ≡ none
    → tl'.key ≡ tl.key
    → (try_lock r tl kvs ≡ (locked tl l, put_key tl.key (held_by [] l) kvs, none))
      × (error_of (try_lock r' tl' (kvs_of (try_lock r tl kvs))) ≡ none)
      × ((locker_of (try_lock r' tl' (kvs_of (try_lock r tl kvs)))).is_locked ≡ true)
unfolding try_lock
try_lock-both r r' l l' tl tl' kvs a a' e same =
    let first = try_lock_with_owner-free r [] tl kvs l a (λ h p. cc) in
    let second =
      try_lock_with_owner-free r' [] tl' (put_key tl.key (held_by [] l) kvs) l' a'
        (λ h p. owner_of h p) in
    let then_ = ap (λ x. try_lock_with_owner r' [] tl' (kvs_of x)) first ∙ second in
    (first, ap error_of then_, ap (λ x. (locker_of x).is_locked) then_)
  where
    owner_of : (h : Held) → put_key tl.key (held_by [] l) kvs tl'.key ≡ some h → h.owner ≡ []
    owner_of h p = let q = beq_refl tl.key in ground arith
