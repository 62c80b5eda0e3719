-- ===== src/Tui/Session/Wakes.antt =====
-- internal/tui/action.go: a closed session leaves no goroutine waiting for an answer.
use certhold.Base.{ℕ, Bool, true, false, Option, none, some, ◌≡◌, ◌∙◌, refl, arith}
use certhold.Tui.Session.{
  Phase, before, parked, leaving, gone, Session, new_session, set_phase, reply_to, replied,
  rejected, answered, confirm_host_key, receive, leave, arm, close,
}

abbrev pub is_parked : Phase → Bool
is_parked parked = true
is_parked _ = false

abbrev pub is_leaving : Phase → Bool
is_leaving leaving = true
is_leaving _ = false

-- No goroutine waits for a reply.
abbrev pub NoneWaits : Session → Type 0
NoneWaits s = (d : ℕ) → is_parked (s.phase d) ≡ false

-- What may happen next. A prompt is raised when no goroutine waits, since the runs are one after another;
-- others may still be on their way out of the call. The deferred store is one that does not come after
-- the publication of another goroutine that waits.
pub data Step (s : Session) : Session → Type 0 where
  raised : (c : ℕ) → NoneWaits s → Step s (confirm_host_key c s)
  -- the overlay, or `handleActionDone`, answers
  answers : (c : ℕ) → Step s (reply_to c s)
  receives : (c : ℕ) → Step s (receive c s)
  leaves : (c : ℕ) → is_leaving (s.phase c) ≡ true → NoneWaits s → Step s (leave c s)
  arms : Step s (arm s)
  closes : Step s (close s)

pub data Reach (s : Session) : Session → Type 0 where
  here : Reach s s
  next : {t u : Session} → Reach s t → Step t u → Reach s u

-- A goroutine that waits is the published one, unless the session is closed, when none waits.
pub record Orderly (s : Session) : Type 0 where
  pub published : (c : ℕ) → is_parked (s.phase c) ≡ true → s.in_flight ≡ some c
  pub shut : (c : ℕ) → s.closed ≡ true → is_parked (s.phase c) ≡ false

module _ (s : Session) (h : Orderly s) where
  Orderly-raised : (c : ℕ) → NoneWaits s → Orderly (confirm_host_key c s)
  unfolding confirm_host_key set_phase
  Orderly-raised c idle = record {
    published = λ d. ground (arith, idle d);
    shut = λ d. ground (arith, idle d);
  }

  Orderly-answers : (c : ℕ) → Orderly (reply_to c s)
  unfolding reply_to set_phase
  Orderly-answers c = record {
    published = λ d. ground (arith, h.published d);
    shut = λ d. ground (arith, h.shut d);
  }

  Orderly-receives : (c : ℕ) → Orderly (receive c s)
  unfolding receive set_phase
  Orderly-receives c = record {
    published = λ d. ground (arith, h.published d);
    shut = λ d. ground (arith, h.shut d);
  }

  Orderly-leaves : (c : ℕ) → NoneWaits s → Orderly (leave c s)
  unfolding leave set_phase
  Orderly-leaves c idle = record {
    published = λ d. ground (arith, idle d);
    shut = λ d. ground (arith, idle d);
  }

  -- After the published goroutine is rejected, none waits.
  none_waits :
      (o : Option ℕ) → s.in_flight ≡ o → (c : ℕ) → is_parked ((rejected o s).phase c) ≡ false
  unfolding reply_to set_phase
  none_waits none e c = ground (arith, e, h.published c)
  none_waits (some d) e c = ground (arith, e, h.published c)

  Orderly-arms : Orderly (arm s)
  unfolding arm
  Orderly-arms = record {
    published = λ c. ground (arith, none_waits s.in_flight refl c);
    shut = λ c. ground (arith, none_waits s.in_flight refl c);
  }

close_waits :
    (s : Session)
    → (o : Option ℕ) → (c : ℕ)
    → (rejected o (record s { closed = true; has_channel = false })).phase c
      ≡ (rejected o s).phase c
unfolding reply_to
close_waits s none c = refl
close_waits s (some d) c = refl

Orderly-closes : (s : Session) → Orderly s → Orderly (close s)
unfolding close
Orderly-closes s h = record {
  published = λ c. ground (arith, close_waits s s.in_flight c, none_waits s h s.in_flight refl c);
  shut = λ c. ground (arith, close_waits s s.in_flight c, none_waits s h s.in_flight refl c);
}

Step-Orderly : {s t : Session} → Step s t → Orderly s → Orderly t
Step-Orderly (raised c idle) h = Orderly-raised _ h c idle
Step-Orderly (answers c) h = Orderly-answers _ h c
Step-Orderly (receives c) h = Orderly-receives _ h c
Step-Orderly (leaves c now idle) h = Orderly-leaves _ h c idle
Step-Orderly arms h = Orderly-arms _ h
Step-Orderly closes h = Orderly-closes _ h

new_session-Orderly : Orderly new_session
new_session-Orderly = record { published = λ c. ground arith; shut = λ c e. refl }

Reach-Orderly : {s : Session} → Reach new_session s → Orderly s
Reach-Orderly here = new_session-Orderly
Reach-Orderly (next r st) = Step-Orderly st (Reach-Orderly r)

answered_now : (p : Phase) → is_parked p ≡ true → replied p ≡ answered
answered_now parked h = refl
answered_now before h = cc h
answered_now answered h = refl
answered_now leaving h = cc h
answered_now gone h = cc h

-- The goroutine that is published and waits has its reply after the rejection.
rejected-answers :
    (s : Session) (o : Option ℕ) (c : ℕ)
    → o ≡ some c
    → is_parked (s.phase c) ≡ true
    → (rejected o s).phase c ≡ answered
unfolding reply_to set_phase
rejected-answers s none c e waits = cc e
rejected-answers s (some d) c e waits = ground (arith, e, answered_now (s.phase c) waits)

-- However the steps of the goroutines, of the overlays, of `arm` and of `close` follow one another, if a
-- prompt is raised only when no goroutine waits for a reply, and no deferred store comes after the
-- publication of a goroutine that waits, then a goroutine that waits is the published one, the session
-- is not closed, and `arm` and `close` each give the goroutine its reply.
pub closed_wakes_all :
    {s : Session}
    → Reach new_session s
    → (c : ℕ) → is_parked (s.phase c) ≡ true
    → (s.closed ≡ false)
      × (s.in_flight ≡ some c)
      × ((arm s).phase c ≡ answered)
      × ((close s).phase c ≡ answered)
unfolding arm close
closed_wakes_all {s} r c waits =
    let o = Reach-Orderly r in
    let out = o.published c waits in
    let woken = rejected-answers s s.in_flight c out waits in
    (ground (arith, o.shut c), out, woken, close_waits s s.in_flight c ∙ woken)
