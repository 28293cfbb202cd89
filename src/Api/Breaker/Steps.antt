-- ===== src/Api/Breaker/Steps.antt =====
-- The interleavings of calls (src/api/middleware.rs, `call` and `handle_failure`). A call reads the state
-- under a lock that it releases, calls the operation, and takes the lock again to write the state, so
-- other calls and the sleeping tasks can run in between.
use express402_relayer.Common.{
  ℕ, ◌≡◌, ◌≢◌, refl, sym, subst, ◌∙◌, ap, List, [], ◌∷◌, ◌++◌, All, All-append,
}
use mathlib.Core.List.{append_assoc}
use express402_relayer.Types.Error.{RelayerError, Result, ok, err, panic}
use express402_relayer.Api.Breaker.{
  CircuitBreakerState, opened, half_open, closed, Running, set_state, trial, regular, refusal, call,
  call_in,
}

module _ (W R : Type 0) where
  -- A call in flight: it has read the state, or it has the answer of the operation too.
  pub data Flight : Type 0 where
    has_read : CircuitBreakerState → Flight
    has_answer : CircuitBreakerState → Result R → Flight

  -- The results of the calls that have returned stand latest first.
  pub record System : Type 0 where
    pub running : Running
    pub flights : List Flight
    pub world : W
    pub results : List (Result R)

  -- What a call does once it has the answer of the operation, after it read the given state.
  unfoldable pub write_back : CircuitBreakerState → ℕ → Running → W × Result R → Running
  write_back opened now s answer = s
  write_back half_open now s answer = (trial s answer).0
  write_back closed now s answer = (regular now s answer).0

  -- One atomic step: a call reads the state; it is refused; it calls the operation; it writes the state and
  -- returns; or one of the sleeping tasks wakes up, at any time.
  pub data Step : System → System → Type 0 where
    reads :
        (s : System) → Step s (record s { flights = has_read s.running.breaker.state ∷ s.flights })
    refuses :
        (s : System) (l r : List Flight)
        → s.flights ≡ l ++ has_read opened ∷ r
        → Step s (record s { flights = l ++ r; results = refusal ∷ s.results })
    operates :
        (s : System) (l r : List Flight) (x : CircuitBreakerState) (f : W → W × Result R)
        → s.flights ≡ l ++ has_read x ∷ r
        → x ≢ opened
        → Step s (record s { flights = l ++ has_answer x (f s.world).1 ∷ r; world = (f s.world).0 })
    settles :
        (s : System) (l r : List Flight) (x : CircuitBreakerState) (answer : Result R) (now : ℕ)
        → s.flights ≡ l ++ has_answer x answer ∷ r
        → Step s (record s {
          running = write_back x now s.running (s.world, answer);
          flights = l ++ r;
          results = answer ∷ s.results;
        })
    wakes :
        (s : System) (l r : List ℕ) (t : ℕ)
        → s.running.wakes_at ≡ l ++ t ∷ r
        → Step s
            (record s { running = set_state half_open (record s.running { wakes_at = l ++ r }) })

  pub data Reach (s : System) : System → Type 0 where
    here : Reach s s
    next : {t u : System} → Reach s t → Step t u → Reach s u

  -- The call has read that the breaker is open.
  abbrev pub IsRefused : Flight → Type 0
  IsRefused f = f ≡ has_read opened

  abbrev pub IsRefusal : Result R → Type 0
  IsRefusal r = r ≡ refusal

  -- The breaker is open, no task sleeps, and each call in flight has read that it is open.
  pub record IsDead (s : System) : Type 0 where
    pub state : s.running.breaker.state ≡ opened
    pub asleep : s.running.wakes_at ≡ []
    pub refused : All IsRefused s.flights

  -- From `s` to `t` no operation has been called, and each call that returned was refused.
  pub record OnlyRefusals (s t : System) : Type 0 where
    pub same_world : t.world ≡ s.world
    pub since : List (Result R)
    pub more : t.results ≡ since ++ s.results
    pub all_refused : All IsRefusal since

  All-middle :
      (l r : List Flight) (f : Flight)
      → All IsRefused (l ++ f ∷ r)
      → IsRefused f × All IsRefused (l ++ r)
  All-middle [] r f h = h
  All-middle (g ∷ l) r f h = let (this, rest) = All-middle l r f h.1 in (this, (h.0, rest))

  cons_middle : {A : Type 0} (l r : List A) (a : A) → [] ≢ l ++ a ∷ r
  cons_middle [] r a e = cc
  cons_middle (b ∷ l) r a e = cc

  answer_not_read : (x y : CircuitBreakerState) (r : Result R) → has_answer x r ≢ has_read y
  answer_not_read x y r e = cc

  read_same : (x y : CircuitBreakerState) → ◌≡◌ {A = Flight} (has_read x) (has_read y) → x ≡ y
  read_same x y e = cc

  step-IsDead : {s t : System} → Step s t → IsDead s → IsDead t × OnlyRefusals s t
  step-IsDead (reads s) d = (
    record { state = d.state; asleep = d.asleep; refused = (ap has_read d.state, d.refused) },
    record { same_world = refl; since = []; more = refl; all_refused = tt },
  )
  step-IsDead (refuses s l r e) d =
      let (this, rest) = All-middle l r (has_read opened) (subst (All IsRefused) e d.refused) in
      (
        record { state = d.state; asleep = d.asleep; refused = rest },
        record { same_world = refl; since = refusal ∷ []; more = refl; all_refused = (refl, tt) },
      )
  step-IsDead (operates s l r x f e open_not) d =
      let (this, rest) = All-middle l r (has_read x) (subst (All IsRefused) e d.refused) in
      absurd (open_not (read_same x opened this))
  step-IsDead (settles s l r x answer now e) d =
      let (this, rest) = All-middle l r (has_answer x answer) (subst (All IsRefused) e d.refused) in
      absurd (answer_not_read x opened answer this)
  step-IsDead (wakes s l r t e) d = absurd (cons_middle l r t (sym d.asleep ∙ e))

  refusals-append : (s t u : System) → OnlyRefusals s t → OnlyRefusals t u → OnlyRefusals s u
  refusals-append s t u p q = record {
    same_world = q.same_world ∙ p.same_world;
    since = q.since ++ p.since;
    more = q.more ∙ ap (λ rs. q.since ++ rs) p.more ∙ sym (append_assoc q.since p.since s.results);
    all_refused = All-append IsRefusal q.since p.since q.all_refused p.all_refused;
  }

  Reach-IsDead : {s t : System} → IsDead s → Reach s t → IsDead t × OnlyRefusals s t
  Reach-IsDead d here = (d, record { same_world = refl; since = []; more = refl; all_refused = tt })
  Reach-IsDead d (next {t} {u} r st) =
      let (before, p) = Reach-IsDead d r in
      let (after, q) = step-IsDead st before in (after, refusals-append _ t u p q)

  -- What a call leaves that read HalfOpen, and whose operation failed, when it writes the state.
  abbrev pub trial_failed : System → List Flight → List Flight → RelayerError → ℕ → System
  trial_failed s l r e now = record s {
    running = write_back half_open now s.running (s.world, err e);
    flights = l ++ r;
    results = err e ∷ s.results;
  }

  -- If a call that read HalfOpen has failed, no task sleeps, and any other call in flight has read that the
  -- breaker is open, then the breaker is open for good once the call has written the state: whatever
  -- calls and steps follow, in any order, it stays open, no task sleeps, no operation is called, and each
  -- call that returns is refused.
  pub trial-forever :
      (s t : System) (l r : List Flight) (e : RelayerError) (now : ℕ)
      → s.flights ≡ l ++ has_answer half_open (err e) ∷ r
      → s.running.wakes_at ≡ []
      → All IsRefused (l ++ r)
      → Reach (trial_failed s l r e now) t
      → Step s (trial_failed s l r e now) × IsDead t × OnlyRefusals (trial_failed s l r e now) t
  unfolding write_back trial set_state
  trial-forever s t l r e now flying asleep refused steps =
      let (dead, only) =
        Reach-IsDead (record { state = refl; asleep = asleep; refused = refused }) steps in
      (settles s l r half_open (err e) now flying, dead, only)

  trial-answer : (s : Running) (a : W × Result R) → (trial s a).1 ≡ a
  unfolding trial
  trial-answer s (w, ok r) = refl
  trial-answer s (w, err e) = refl
  trial-answer s (w, panic) = refl

  regular-answer : (now : ℕ) (s : Running) (a : W × Result R) → (regular now s a).1 ≡ a
  unfolding regular
  regular-answer now s (w, ok r) = refl
  regular-answer now s (w, err e) = refl
  regular-answer now s (w, panic) = refl

  -- The system after a call, with what it leaves.
  abbrev returned : System → Running × (W × Result R) → System
  returned s (running, (world, result)) = record {
    running = running;
    flights = s.flights;
    world = world;
    results = result ∷ s.results;
  }

  call_in-Reach :
      (s : System) (x : CircuitBreakerState) (f : W → W × Result R) (now : ℕ)
      → Reach
          (record s { flights = has_read x ∷ s.flights })
          (returned s (call_in x f now s.running s.world))
  unfolding call_in write_back
  call_in-Reach s opened f now = next here (refuses _ [] s.flights refl)
  call_in-Reach s half_open f now =
      subst
        (λ (q : W × Result R).
          Reach (record s { flights = has_read half_open ∷ s.flights })
            (returned s ((trial s.running (f s.world)).0, q)))
        (sym (trial-answer s.running (f s.world)))
        (next (next here (operates _ [] s.flights half_open f refl (λ e. cc)))
          (settles _ [] s.flights half_open (f s.world).1 now refl))
  call_in-Reach s closed f now =
      subst
        (λ (q : W × Result R).
          Reach (record s { flights = has_read closed ∷ s.flights })
            (returned s ((regular now s.running (f s.world)).0, q)))
        (sym (regular-answer now s.running (f s.world)))
        (next (next here (operates _ [] s.flights closed f refl (λ e. cc)))
          (settles _ [] s.flights closed (f s.world).1 now refl))

  Reach-trans : {s t u : System} → Reach s t → Reach t u → Reach s u
  Reach-trans p here = p
  Reach-trans p (next q st) = next (Reach-trans p q) st

  -- A call that nothing interrupts takes these steps: what `call` computes is one of the interleavings.
  call-Reach :
      (s : System) (f : W → W × Result R) (now : ℕ)
      → Reach s (returned s (call f now s.running s.world))
  unfolding call
  call-Reach s f now =
      Reach-trans (next here (reads s)) (call_in-Reach s s.running.breaker.state f now)
