-- ===== src/Hedging/Success.antt =====
-- How the main loop of executeHedged in retry.go ends, beside the results that it receives.
use resile.Errors.{circuit_open, Err, is_sentinel, as_retry_after, join}
use resile.Hedging.Loop.{
  Effects, Hedge, Event, context_done, result, timer, Phase, waiting, ended, initial, calls_off,
  may_start, start_or_stop, launch, turn, on_failure, receive,
}
use resile.Prelude.{
  ℕ, ◌+◌, ◌-◌, ◌<◌, ◌≡◌, refl, subst, sym, Bool, true, false, ◌&&◌, ◌==◌, none, some, List, [], ◌∷◌,
  ◌++◌, length, inl, inr, ltb, leb, Bool-cases, arith,
}

-- What stays so while the loop runs, and what an attempt that returned nil has left behind.
pub record IsKept {W : Type 0} (K S : W → Type 0) (eff : Effects W) : Type 0 where
  pub token : (w : W) → K w → K (eff.acquire_retry_token w).1
  pub success : (w : W) → K w → K (eff.add_success_token w)
  pub success_set : (w : W) → S w → S (eff.add_success_token w)

pub Failed-length : (errs : List Err) → 0 < length errs → (e : Err) × (join errs ≡ some e)
unfolding join
Failed-length [] h = absurd (omega arith)
Failed-length (x ∷ errs) h = (_, refl)

pub length-snoc : (errs : List Err) (e : Err) → 0 < length (errs ++ e ∷ [])
length-snoc [] e = omega arith
length-snoc (x ∷ errs) e = omega arith

module _ {W : Type 0} (K S : W → Type 0) (eff : Effects W) (limit : ℕ) where
  -- A start is in flight, or its error is recorded.
  abbrev pub Alive : Hedge W → Type 0
  Alive h = (0 < h.attempts_started → 0 < h.in_flight + length h.errs) × K h.world

  abbrev pub Fine : Phase W → Type 0
  Fine (waiting h) = Alive h
  Fine (ended none w) = K w × S w
  Fine (ended (some e) w) = K w

  module _ (p : IsKept K S eff) (some_attempt : 0 < limit) where
    stop : (errs : List Err) (w : W) → 0 < length errs → K w → Fine (ended (join errs) w)
    stop errs w h k = let (e, q) = Failed-length errs h in subst (λ o. Fine (ended o w)) (sym q) k

    start-Alive :
        (h : Hedge W) (q : Bool × W)
        → (q.0 ≡ false → 0 < h.attempts_started)
        → Alive h
        → K q.1
        → Alive (start_or_stop eff limit h q) × (0 < (start_or_stop eff limit h q).attempts_started)
    start-Alive h (true, w) r a k = ((λ s. omega arith, k), omega arith)
    start-Alive h (false, w) r a k = ((λ s. a.0 (r refl), k), some_attempt)

    may_start-kept :
        (h : Hedge W)
        → K h.world
        → ((may_start eff limit h).0 ≡ false → 0 < h.attempts_started) × K (may_start eff limit h).1
    may_start-kept h k = elim (Bool-cases (ltb 0 h.attempts_started)) [
      | inl later ↦ rw later (λ r. ground (arith, later), p.token h.world k)
      | inr first ↦ rw first (λ r. ground (arith, r), k)
    ]

    launch-Alive :
        (h : Hedge W)
        → Alive h
        → Alive (launch eff limit h) × (0 < (launch eff limit h).attempts_started)
    unfolding launch
    launch-Alive h a = elim (Bool-cases (ltb h.attempts_started limit)) [
      | inl more ↦
          rw more (let (r, k) = may_start-kept h a.1 in start-Alive h (may_start eff limit h) r a k)
      | inr no_more ↦ rw no_more (a, ground (arith, no_more, some_attempt))
    ]

    turn-Fine : (h : Hedge W) → Alive h → Fine (turn eff limit h)
    unfolding turn
    turn-Fine h a =
        let (b, some_start) = launch-Alive h a in
        elim (Bool-cases (
          leb limit (launch eff limit h).attempts_started && (launch eff limit h).in_flight == 0)) [
            | inl over ↦ rw over (
                stop (launch eff limit h).errs (launch eff limit h).world
                  (none_left (launch eff limit h) over (b.0 some_start)) b.1)
            | inr more ↦ rw more b
          ]
      where
        none_left :
            (g : Hedge W)
            → (leb limit g.attempts_started && g.in_flight == 0) ≡ true
            → 0 < g.in_flight + length g.errs
            → 0 < length g.errs
        none_left g over some_left = ground (arith, over, some_left)

    on_failure-Fine :
        (x : Err) (h : Hedge W) → 0 < length h.errs → K h.world → Fine (on_failure eff limit x h)
    unfolding on_failure
    on_failure-Fine x h some_error k = elim (Bool-cases (is_sentinel circuit_open x)) [
      | inl e ↦ rw e (stop h.errs h.world some_error k)
      | inr e ↦ elim (Bool-cases (calls_off (as_retry_after x))) [
        | inl l ↦ rw (e, l) (stop h.errs h.world some_error k)
        | inr l ↦ elim (Bool-cases (eff.should_retry x)) [
          | inl m ↦ rw (e, l, m) (turn-Fine h (λ s. omega arith, k))
          | inr m ↦ rw (e, l, m) (stop h.errs h.world some_error k)
        ]
      ]
    ]

    pub initial-Fine : (w : W) → K w → Fine (turn eff limit (initial w))
    initial-Fine w k = turn-Fine (initial w) (λ s. absurd (omega arith), k)

    -- Where an attempt that returned nil has left S behind, every case of the select leads on well.
    pub receive-Fine :
        (e : Event) (h : Hedge W)
        → (e ≡ result none → S h.world)
        → Alive h
        → Fine (receive eff limit e h)
    unfolding receive
    receive-Fine (context_done x) h s a = stop (h.errs ++ x ∷ []) h.world (length-snoc h.errs x) a.1
    receive-Fine (result none) h s a = (p.success h.world a.1, p.success_set h.world (s refl))
    receive-Fine (result (some x)) h s a =
        on_failure-Fine x (record h { in_flight = h.in_flight - 1; errs = h.errs ++ x ∷ [] })
          (length-snoc h.errs x) a.1
    receive-Fine timer h s a = turn-Fine h a
