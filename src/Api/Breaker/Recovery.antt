-- ===== src/Api/Breaker/Recovery.antt =====
-- When the breaker lets calls through again (src/api/middleware.rs, `call` and `handle_failure`), where
-- each call ends before the next one starts.
use express402_relayer.Common.{
  ℕ, ◌+◌, ◌≤◌, ◌<◌, ◌≡◌, refl, sym, ap, subst, ◌∙◌, inl, inr, Bool, true, false, not, List, [], ◌∷◌,
  ◌++◌, leb, length, any, retain, All, Bool-cases, arith,
}
use express402_relayer.Types.Error.{RelayerError, Result, ok, err, panic}
use express402_relayer.Api.Breaker.{
  CircuitBreakerState, closed, opened, half_open, Running, new, set_state, handle_failure, wake,
  trial, regular, refusal, call_in, call,
}

-- At most one task is asleep, and none while the breaker is not open.
abbrev Sleeps : CircuitBreakerState → List ℕ → Type 0
Sleeps opened ts = length ts ≤ 1
Sleeps closed ts = ts ≡ []
Sleeps half_open ts = ts ≡ []

abbrev Inv : Running → Type 0
Inv s = Sleeps s.breaker.state s.wakes_at

Sleeps-empty : (state : CircuitBreakerState) (ts : List ℕ) → ts ≡ [] → Sleeps state ts
Sleeps-empty opened ts e = omega (arith, ap length e)
Sleeps-empty closed ts e = e
Sleeps-empty half_open ts e = e

Sleeps-short : (state : CircuitBreakerState) (ts : List ℕ) → Sleeps state ts → length ts ≤ 1
Sleeps-short opened ts v = v
Sleeps-short closed ts v = omega (arith, ap length v)
Sleeps-short half_open ts v = omega (arith, ap length v)

any-retained :
    (p : ℕ → Bool) (ts : List ℕ) → any p ts ≡ true → length ts ≤ 1 → retain (λ t. not (p t)) ts ≡ []
unfolding any retain
any-retained p [] h le = refl
any-retained p (t ∷ []) h le = ground arith
any-retained p (t ∷ u ∷ ts) h le = absurd (omega arith)

wake-Inv : (now : ℕ) (s : Running) → Inv s → Inv (wake now s)
unfolding wake
wake-Inv now s v = elim (Bool-cases (any (λ t. leb t now) s.wakes_at)) [
  | inl woken ↦
      rw woken
        (any-retained (λ t. leb t now) s.wakes_at woken (Sleeps-short s.breaker.state s.wakes_at v))
  | inr asleep ↦ rw asleep v
]

module _ (W R : Type 0) where
  -- What happens to a breaker: a call of an operation at some time, or the time passing.
  pub data Event : Type 0 where
    called : (W → W × Result R) → ℕ → Event
    passed : ℕ → Event

  -- The breaker, the world and the results of the calls, the first one first.
  abbrev pub Outcome : Type 0
  Outcome = Running × (W × List (Result R))

  abbrev pub with_result : Result R → Outcome → Outcome
  with_result r (s, (w, rs)) = (s, (w, r ∷ rs))

  unfoldable pub run : List Event → Running → W → Outcome
  run [] s w = (s, (w, []))
  run (called f now ∷ rest) s w =
      let (s', (w', r)) = call f now s w in with_result r (run rest s' w')
  run (passed now ∷ rest) s w = run rest (wake now s) w

  -- One refusal for each call.
  abbrev pub refusals : List Event → List (Result R)
  refusals [] = []
  refusals (called f now ∷ rest) = refusal ∷ refusals rest
  refusals (passed now ∷ rest) = refusals rest

  -- The events lie before a time.
  abbrev pub Before : ℕ → Event → Type 0
  Before limit (called f now) = now < limit
  Before limit (passed now) = now < limit

  trial-Inv : (s : Running) (answer : W × Result R) → s.wakes_at ≡ [] → Inv (trial s answer).0
  unfolding trial set_state
  trial-Inv s (w, ok r) e = e
  trial-Inv s (w, err x) e = omega (arith, ap length e)
  trial-Inv s (w, panic) e = Sleeps-empty s.breaker.state s.wakes_at e

  regular-Inv :
      (now : ℕ) (s : Running) (answer : W × Result R)
      → s.wakes_at ≡ []
      → Inv (regular now s answer).0
  unfolding regular handle_failure
  regular-Inv now s (w, ok r) e = Sleeps-empty s.breaker.state s.wakes_at e
  regular-Inv now s (w, err x) e =
      omega (arith, ap (λ ts. length (ts ++ (now + s.breaker.recovery_timeout) ∷ [])) e)
  regular-Inv now s (w, panic) e = Sleeps-empty s.breaker.state s.wakes_at e

  call_in-Inv :
      (x : CircuitBreakerState) (f : W → W × Result R) (now : ℕ) (s : Running) (w : W)
      → x ≡ s.breaker.state
      → Sleeps x s.wakes_at
      → Inv (call_in x f now s w).0
  unfolding call_in
  call_in-Inv opened f now s w e v = subst (λ y. Sleeps y s.wakes_at) e v
  call_in-Inv half_open f now s w e v = trial-Inv s (f w) v
  call_in-Inv closed f now s w e v = regular-Inv now s (f w) v

  call-Inv : (f : W → W × Result R) (now : ℕ) (s : Running) (w : W) → Inv s → Inv (call f now s w).0
  unfolding call
  call-Inv f now s w v = call_in-Inv s.breaker.state f now s w refl v

  run-Inv : (es : List Event) (s : Running) (w : W) → Inv s → Inv (run es s w).0
  unfolding run
  run-Inv [] s w v = v
  run-Inv (called f now ∷ rest) s w v =
      run-Inv rest (call f now s w).0 (call f now s w).1.0 (call-Inv f now s w v)
  run-Inv (passed now ∷ rest) s w v = run-Inv rest (wake now s) w (wake-Inv now s v)

  -- No task wakes up at an event.
  abbrev Asleep : List ℕ → Event → Type 0
  Asleep ts (called f now) = Unit {0}
  Asleep ts (passed now) = any (λ t. leb t now) ts ≡ false

  call-opened :
      (f : W → W × Result R) (now : ℕ) (s : Running) (w : W)
      → s.breaker.state ≡ opened
      → call f now s w ≡ (s, (w, refusal))
  unfolding call call_in
  call-opened f now s w e = ap (λ x. call_in x f now s w) e

  wake-asleep : (now : ℕ) (s : Running) → any (λ t. leb t now) s.wakes_at ≡ false → wake now s ≡ s
  unfolding wake
  wake-asleep now s e = rw e refl

  run-quiet :
      (es : List Event) (s : Running) (w : W)
      → s.breaker.state ≡ opened
      → All (Asleep s.wakes_at) es
      → run es s w ≡ (s, (w, refusals es))
  unfolding run
  run-quiet [] s w e quiet = refl
  run-quiet (called f now ∷ rest) s w e quiet =
      ap (λ c. with_result c.1.1 (run rest c.0 c.1.0)) (call-opened f now s w e)
      ∙ ap (with_result refusal) (run-quiet rest s w e quiet.1)
  run-quiet (passed now ∷ rest) s w e quiet =
      ap (λ x. run rest x w) (wake-asleep now s quiet.0) ∙ run-quiet rest s w e quiet.1

  Before-Asleep :
      (es : List Event) (limit : ℕ) → All (Before limit) es → All (Asleep (limit ∷ [])) es
  unfolding any
  Before-Asleep [] limit h = tt
  Before-Asleep (called f now ∷ rest) limit h = (tt, Before-Asleep rest limit h.1)
  Before-Asleep (passed now ∷ rest) limit h = (ground (arith, h.0), Before-Asleep rest limit h.1)

  -- The breaker that events lead a new one to.
  abbrev pub reached : List Event → ℕ → ℕ → W → Running
  reached es threshold timeout w = (run es (new threshold timeout) w).0

  reached-Sleeps :
      (es : List Event) (threshold timeout : ℕ) (w : W) (state : CircuitBreakerState)
      → (reached es threshold timeout w).breaker.state ≡ state
      → Sleeps state (reached es threshold timeout w).wakes_at
  unfolding new
  reached-Sleeps es threshold timeout w state e =
      subst (λ x. Sleeps x (reached es threshold timeout w).wakes_at) e
        (run-Inv es (new threshold timeout) w refl)

  call-failing :
      (f : W → W × Result R) (now : ℕ) (s : Running) (w : W) (x : RelayerError)
      → s.breaker.state ≡ closed
      → (f w).1 ≡ err x
      → call f now s w ≡ (handle_failure now s, ((f w).0, err x))
  unfolding call call_in regular
  call-failing f now s w x e failed =
      ap (λ y. call_in y f now s w) e ∙ (ap (λ r. regular now s ((f w).0, r)) failed)

  -- If the call of a closed breaker fails, whatever calls were made on it since it was new, one after another,
  -- the breaker refuses every call, without calling the operation, as long as the time is before that of the
  -- failure and the recovery timeout after it; and when the time comes to that or beyond, it is half open.
  call-recovers :
      (threshold timeout now time : ℕ) (before later : List Event) (f : W → W × Result R)
      (start w : W) (x : RelayerError)
      → (reached before threshold timeout start).breaker.state ≡ closed
      → (f w).1 ≡ err x
      → All (Before (now + (reached before threshold timeout start).breaker.recovery_timeout)) later
      → now + (reached before threshold timeout start).breaker.recovery_timeout ≤ time
      → (run later (call f now (reached before threshold timeout start) w).0 (f w).0
          ≡ ((call f now (reached before threshold timeout start) w).0, ((f w).0, refusals later)))
        × ((wake time (call f now (reached before threshold timeout start) w).0).breaker.state
            ≡ half_open)
  unfolding handle_failure wake any
  call-recovers threshold timeout now time before later f start w x e failed early late =
      let s = reached before threshold timeout start in
      let answer = call-failing f now s w x e failed in
      let none = reached-Sleeps before threshold timeout start closed e in
      let limit = now + s.breaker.recovery_timeout in
      let alone : s.wakes_at ++ limit ∷ [] ≡ limit ∷ [] = ap (λ ts. ts ++ limit ∷ []) none in
      let asleep =
        subst (λ ts. All (Asleep ts) later) (sym alone) (Before-Asleep later limit early) in
      rw answer
        (run-quiet later (handle_failure now s) (f w).0 refl asleep, rw alone (ground arith))
