-- ===== src/Utils/Signal.antt =====
-- utils/utils.go: `rChannel`, a channel for the first of several signals. `Send` and `Close` take
-- the lock of the channel, so a use of it is a sequence of calls.
use gopher_cron.Base.{
  List, [], ◌∷◌, Bool, true, false, Option, none, some, ◌≡◌, refl, if◌then◌else◌, ap, ◌∙◌, sym,
  subst, ◌≢◌,
}

-- `channel` has room for one value.
pub record SignalChannel (A : Type 0) : Type 0 where
  pub is_close : Bool
  pub channel : Option A

-- What `WaitOne` receives at once, if anything: a value, or the zero value of a closed channel.
pub data Received (A : Type 0) : Type 0 where
  blocked zero_value : Received A
  value : A → Received A

pub data Call (A : Type 0) : Type 0 where
  send_call : A → Call A
  close_call : Call A

module _ {A : Type 0} where
  abbrev pub new_signal_channel : SignalChannel A
  new_signal_channel = record { is_close = false; channel = none }

  -- A send to a full channel takes the default branch.
  abbrev pub offer : A → Option A → Option A
  offer t none = some t
  offer t (some a) = some a

  unfoldable pub send : A → SignalChannel A → SignalChannel A
  send t r = if r.is_close then r else record r { channel = offer t r.channel }

  unfoldable pub close : SignalChannel A → SignalChannel A
  close r = record r { is_close = true }

  unfoldable pub received : Option A → Bool → Received A
  received (some a) _ = value a
  received none true = zero_value
  received none false = blocked

  -- The deferred close follows the receive.
  unfoldable pub after_wait : Received A → SignalChannel A → SignalChannel A
  after_wait blocked r = r
  after_wait _ r = record { is_close = true; channel = none }

  unfoldable pub wait_one : SignalChannel A → SignalChannel A × Received A
  unfolding received after_wait
  wait_one r = let got = received r.channel r.is_close in (after_wait got r, got)

  unfoldable pub call : Call A → SignalChannel A → SignalChannel A
  unfolding send close
  call (send_call t) r = send t r
  call close_call r = close r

  unfoldable pub calls : List (Call A) → SignalChannel A → SignalChannel A
  unfolding call
  calls [] r = r
  calls (c ∷ cs) r = calls cs (call c r)

  -- What the first call alone decides.
  abbrev pub decided : List (Call A) → Received A
  decided [] = blocked
  decided (send_call t ∷ cs) = value t
  decided (close_call ∷ cs) = zero_value

  calls-full :
      (cs : List (Call A)) (a : A) (b : Bool)
      → (calls cs (record { is_close = b; channel = some a })).channel ≡ some a
  unfolding calls call send close
  calls-full [] a b = refl
  calls-full (send_call t ∷ cs) a true = calls-full cs a true
  calls-full (send_call t ∷ cs) a false = calls-full cs a false
  calls-full (close_call ∷ cs) a b = calls-full cs a true

  calls-closed :
      (cs : List (Call A)) (o : Option A)
      → calls cs (record { is_close = true; channel = o }) ≡ record { is_close = true; channel = o }
  unfolding calls call send close
  calls-closed [] o = refl
  calls-closed (send_call t ∷ cs) o = calls-closed cs o
  calls-closed (close_call ∷ cs) o = calls-closed cs o

  -- Of any sequence of sends and closes, the first call decides what `WaitOne` receives: its
  -- value if it is a send, the zero value if it is a close; with no call it blocks.
  pub wait_one-calls :
      (cs : List (Call A)) → (wait_one (calls cs new_signal_channel)).1 ≡ decided cs
  unfolding wait_one received calls call send close
  wait_one-calls [] = refl
  wait_one-calls (send_call t ∷ cs) =
      ap (λ o. received o (calls cs (record { is_close = false; channel = some t })).is_close)
        (calls-full cs t false)
  wait_one-calls (close_call ∷ cs) = ap (λ r. received r.channel r.is_close) (calls-closed cs none)

  after_wait-received :
      (got : Received A) (r : SignalChannel A)
      → got ≢ blocked
      → after_wait got r ≡ record { is_close = true; channel = none }
  unfolding after_wait
  after_wait-received blocked r n = absurd (n refl)
  after_wait-received zero_value r n = refl
  after_wait-received (value a) r n = refl

  not_blocked : (first : Call A) (cs : List (Call A)) → decided (first ∷ cs) ≢ blocked
  not_blocked (send_call t) cs e = cc
  not_blocked close_call cs e = cc

  -- After any call a wait receives, and from then on no call has an effect: every later wait gets
  -- the zero value, whatever is sent before it.
  pub wait_one-after :
      (first : Call A) (cs later : List (Call A))
      → (wait_one (calls later ((wait_one (calls (first ∷ cs) new_signal_channel)).0))).1
        ≡ zero_value
  unfolding wait_one received
  wait_one-after first cs later =
      let r = calls (first ∷ cs) new_signal_channel in
      let n = subst (λ x. x ≢ blocked) (sym (wait_one-calls (first ∷ cs))) (not_blocked first cs) in
      ap (λ s. (wait_one (calls later s)).1)
        (after_wait-received (received r.channel r.is_close) r n)
      ∙ ap (λ s. (wait_one s).1) (calls-closed later none)
