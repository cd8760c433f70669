-- ===== src/Center/Held.antt =====
-- What a lock stream holds and what it gives back: the proofs on `TryLock` of the service.
use gopher_cron.Base.{
  ℕ, Text, List, [], ◌∷◌, ◌≡◌, refl, sym, subst, true, false, Option, none, some, text_eq,
  text_eq_iff, Bool-cases, inl, inr, ap, ◌∙◌, if◌then◌else◌,
}
use gopher_cron.Keys.{build_lock_key}
use gopher_cron.Lock.{
  answered, Held, put_key, Kvs, Locker, LockError, Attempt, try_lock_with_owner, unlock,
}
use gopher_cron.Lock.Attempts.{GrantsFresh, locker_of, kvs_of, error_of, held_by}
use gopher_cron.Lock.Release.{try_lock_with_owner-Acquired, unlock-try_lock_with_owner}
use gopher_cron.Center.Session.{
  Asked, Ended, unauthenticated, Peer, is_allowed, owner, after_lock, attempted, task_locker,
  lock_round, session_loop, try_lock_session, go_on,
}

after_lock-none : (q : Asked) (e : Option LockError) → after_lock q e ≡ none → e ≡ none
unfolding after_lock
after_lock-none q none h = refl
after_lock-none q (some e) h = cc

put_key_self : (k : Text) (h : Held) (kvs : Kvs) → put_key k h kvs k ≡ some h
put_key_self k h kvs = rw ((text_eq_iff k k).1 refl)

module _ (etcd_prefix : Text) where
  abbrev pub lock_key : Asked → Text
  lock_key q = build_lock_key etcd_prefix q.request.project_id q.request.task_id

  -- the lock of a request is held by the agent for the run of the request
  abbrev pub HoldsLock : (ip : Text) → Asked → Kvs → Type 0
  HoldsLock ip q kvs = (lease : ℕ) × (kvs (lock_key q) ≡ some (held_by (owner ip q.request) lease))

  abbrev pub attempt : (ip : Text) → Asked → Kvs → Attempt
  attempt ip q kvs =
      try_lock_with_owner q.replies (owner ip q.request) (task_locker etcd_prefix q.request) kvs

  lock_round_allowed :
      (peer : Peer) (ip : Text) (q : Asked) (last : Option Locker) (kvs : Kvs)
      → is_allowed peer q.request.project_id ≡ true
      → lock_round etcd_prefix peer ip q last kvs ≡ attempted q (attempt ip q kvs)
  unfolding lock_round
  lock_round_allowed peer ip q last kvs h = rw h

  lock_round_refused :
      (peer : Peer) (ip : Text) (q : Asked) (last : Option Locker) (kvs : Kvs)
      → is_allowed peer q.request.project_id ≡ false
      → lock_round etcd_prefix peer ip q last kvs ≡ (last, kvs, some unauthenticated)
  unfolding lock_round
  lock_round_refused peer ip q last kvs h = rw h

  lock_round-HoldsLock :
      (peer : Peer) (ip : Text) (q : Asked) (last : Option Locker) (kvs : Kvs)
      → (lock_round etcd_prefix peer ip q last kvs).2 ≡ none
      → HoldsLock ip q (lock_round etcd_prefix peer ip q last kvs).1
  lock_round-HoldsLock peer ip q last kvs h =
      elim (Bool-cases (is_allowed peer q.request.project_id)) [
        | inr n ↦
            absurd (some_none (sym (ap (λ r. r.2) (lock_round_refused peer ip q last kvs n)) ∙ h))
        | inl y ↦
            let same = lock_round_allowed peer ip q last kvs y in
            let well =
              after_lock-none q (error_of (attempt ip q kvs)) (sym (ap (λ r. r.2) same) ∙ h) in
            let (was, is_locked, key, stored) =
              try_lock_with_owner-Acquired q.replies (owner ip q.request)
                (task_locker etcd_prefix q.request) kvs well in
            (
              (locker_of (attempt ip q kvs)).lease_id,
              ap (λ r. r.1 (lock_key q)) same
                  ∙ ap (λ s. s (lock_key q)) stored
                  ∙ put_key_self (lock_key q) _ kvs,
            )
      ]
    where
      some_none : some unauthenticated ≡ none → ⊥
      some_none e = cc

  -- after each reply, the lock of its request is held
  abbrev pub AllHold : (ip : Text) → List Asked → List Kvs → Type 0
  AllHold ip asked [] = Unit
  AllHold ip [] (s ∷ seen) = ⊥
  AllHold ip (q ∷ asked) (s ∷ seen) = HoldsLock ip q s × AllHold ip asked seen

  abbrev went_on :
      Peer
      → (ip : Text) → List Asked
      → Option Locker × Kvs × Option Ended
      → (List Kvs × Kvs) × Ended
  went_on peer ip qs = go_on peer.revoked (λ last kvs. session_loop etcd_prefix peer ip qs last kvs)

  session_loop_cons :
      (peer : Peer) (ip : Text) (q : Asked) (qs : List Asked) (last : Option Locker) (kvs : Kvs)
      (d : Option Locker × Kvs × Option Ended)
      → lock_round etcd_prefix peer ip q last kvs ≡ d
      → session_loop etcd_prefix peer ip (q ∷ qs) last kvs ≡ went_on peer ip qs d
  unfolding session_loop
  session_loop_cons peer ip q qs last kvs d h = ap (went_on peer ip qs) h

  empty-AllHold :
      (peer : Peer) (ip : Text) (last : Option Locker) (kvs : Kvs)
      → AllHold ip [] (session_loop etcd_prefix peer ip [] last kvs).0.0
  unfolding session_loop
  empty-AllHold peer ip last kvs = tt

  session_loop-AllHold :
      (peer : Peer) (ip : Text) (qs : List Asked) (last : Option Locker) (kvs : Kvs)
      → AllHold ip qs (session_loop etcd_prefix peer ip qs last kvs).0.0
  session_loop-AllHold peer ip [] last kvs = empty-AllHold peer ip last kvs
  session_loop-AllHold peer ip (q ∷ qs) last kvs =
      subst (λ r. AllHold ip (q ∷ qs) r.0.0) (sym (session_loop_cons peer ip q qs last kvs _ refl))
        (go (lock_round etcd_prefix peer ip q last kvs) refl (session_loop-AllHold peer ip qs))
    where
      go :
          (d : Option Locker × Kvs × Option Ended)
          → lock_round etcd_prefix peer ip q last kvs ≡ d
          → ((last : Option Locker) (kvs : Kvs)
              → AllHold ip qs (session_loop etcd_prefix peer ip qs last kvs).0.0)
          → AllHold ip (q ∷ qs) (went_on peer ip qs d).0.0
      go (last', kvs', some e) h rec = tt
      go (last', kvs', none) h rec = (
        subst (HoldsLock ip q) (ap (λ d. d.1) h)
            (lock_round-HoldsLock peer ip q last kvs (ap (λ d. d.2) h)),
        rec last' kvs',
      )

  session_of :
      (peer : Peer) (ip : Text) (asked : List Asked) (kvs : Kvs)
      → peer.agent_ip ≡ some ip
      → try_lock_session etcd_prefix peer asked kvs
        ≡ session_loop etcd_prefix peer ip asked none kvs
  unfolding try_lock_session
  session_of peer ip asked kvs h = rw h

  -- Each time the stream of an agent with an address says that a lock is taken, etcd holds the
  -- lock of the task of that request for this agent and the run of the request, whatever was
  -- requested on the stream before.
  pub try_lock_session-AllHold :
      (peer : Peer) (ip : Text) (asked : List Asked) (kvs : Kvs)
      → peer.agent_ip ≡ some ip
      → AllHold ip asked (try_lock_session etcd_prefix peer asked kvs).0.0
  try_lock_session-AllHold peer ip asked kvs h =
      subst (λ r. AllHold ip asked r.0.0) (sym (session_of peer ip asked kvs h))
        (session_loop-AllHold peer ip asked none kvs)

  -- the stream of one request, whose lock could be taken
  one_request :
      (peer : Peer) (ip : Text) (q : Asked) (kvs : Kvs)
      → is_allowed peer q.request.project_id ≡ true
      → session_loop etcd_prefix peer ip (q ∷ []) none kvs
        ≡ went_on peer ip [] (attempted q (attempt ip q kvs))
  one_request peer ip q kvs y =
      session_loop_cons peer ip q [] none kvs _ (lock_round_allowed peer ip q none kvs y)

  final_keys :
      (peer : Peer) (ip : Text) (tl : Locker) (kvs : Kvs) (e : Option Ended)
      → (went_on peer ip [] (some tl, kvs, e)).0.1 ≡ (unlock peer.revoked tl kvs).1
  unfolding session_loop
  final_keys peer ip tl kvs none = refl
  final_keys peer ip tl kvs (some e) = refl

  -- A stream of an agent with an address and one allowed request, whose lock could be taken on a
  -- lease that was not in use, gives the lock back however it ends, if etcd answers the revoke of
  -- the unlock: then the lock is free, and every other key is as it was before.
  pub try_lock_session-released :
      (peer : Peer) (ip : Text) (q : Asked) (kvs : Kvs)
      → peer.agent_ip ≡ some ip
      → is_allowed peer q.request.project_id ≡ true
      → GrantsFresh q.replies kvs
      → error_of (attempt ip q kvs) ≡ none
      → peer.revoked ≡ answered
      → (k : Text)
      → (try_lock_session etcd_prefix peer (q ∷ []) kvs).0.1 k
        ≡ (if text_eq (lock_key q) k then none else kvs k)
  try_lock_session-released peer ip q kvs h y fresh well gone k =
      let a = attempt ip q kvs in
      ap (λ r. r.0.1 k) (session_of peer ip (q ∷ []) kvs h ∙ one_request peer ip q kvs y)
      ∙ ap (λ s. s k) (final_keys peer ip (locker_of a) (kvs_of a) (after_lock q (error_of a)))
      ∙ ap (λ v. (unlock v (locker_of a) (kvs_of a)).1 k) gone
      ∙ unlock-try_lock_with_owner q.replies (owner ip q.request)
          (task_locker etcd_prefix q.request) kvs fresh well k
