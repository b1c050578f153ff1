-- ===== src/Circuit/Probes.antt =====
-- Half-open probes of circuit/breaker.go over whole histories: their number, recovery, and what
-- late and lost probes do.
use resile.Circuit.State.{State, closed, open_, half_open, Config, Breaker, with_defaults, new}
use resile.Circuit.Breaker.{Admission, refused, admitted, reset, state_of, begin, finish}
use resile.Circuit.Frame.{Moved, to_closed-Moved}
use resile.Circuit.Machine.{finish_closed-Checked, finish_failed_probe, finish_good_probe}
use resile.Circuit.System.{
  System, Step, enter, turn_away, leave, crash, query, by_reset, Steps, done, more, All, All-remove,
  All-at,
}
use resile.Errors.{Err}
use resile.Float.{Float}
use resile.Prelude.{
  ℕ, ◌+◌, ◌≤◌, ◌<◌, ◌≡◌, ◌≢◌, refl, sym, ap, inl, inr, subst, ◌∙◌, Bool, Option, none, some, [],
  ◌∷◌, ◌++◌, arith,
}

-- The probes of the current half-open period, counted by what happens alone: a critical section
-- that takes the breaker to half-open starts the count anew, and one that admits a call in the
-- half-open state adds one.
abbrev kept : State → State → ℕ → ℕ
kept half_open half_open n = n
kept half_open open_ n = 0
kept half_open closed n = 0
kept open_ before n = n
kept closed before n = n

kept-same : (s : State) (n : ℕ) → kept s s n ≡ n
kept-same half_open n = refl
kept-same open_ n = refl
kept-same closed n = refl

abbrev is_probe : State → ℕ
is_probe half_open = 1
is_probe _ = 0

abbrev probe_of : Admission → ℕ
probe_of (admitted s) = is_probe s
probe_of (refused e) = 0

module _ {F : Type 0} where
  begin-facts :
      (err : Option Err) (now : ℕ) (b : Breaker F)
      → b.half_open_calls ≤ b.config.half_open_max_calls
      → b.config.half_open_max_calls < 18446744073709551616
      → let (a, c) = begin err now b in
        (c.config ≡ b.config)
        × (c.half_open_calls ≤ b.config.half_open_max_calls)
        × (c.half_open_calls ≡ probe_of a + kept c.state b.state b.half_open_calls)
  unfolding begin
  begin-facts none now b h small = ground arith
  begin-facts (some e) now b h small = ground (arith, kept-same b.state b.half_open_calls)

  admitted-ne-open :
      (now : ℕ) (b : Breaker F) (s : State) → (begin none now b).0 ≡ admitted s → s ≢ open_
  unfolding begin
  admitted-ne-open now b s e k = ground arith

  state_of-facts :
      (now : ℕ) (b : Breaker F)
      → b.half_open_calls ≤ b.config.half_open_max_calls
      → let c = (state_of now b).1 in
        (c.config ≡ b.config)
        × (c.half_open_calls ≤ b.config.half_open_max_calls)
        × (c.half_open_calls ≡ kept c.state b.state b.half_open_calls)
  unfolding state_of
  state_of-facts now b h = ground arith

  reset-facts : (now : ℕ) (b : Breaker F) → Moved closed b (reset now b)
  unfolding reset
  reset-facts now b = to_closed-Moved now b

module _ {F : Type 0} ⦃f : Float F⦄ where
  finish-facts :
      (s : State) (err : Option Err) (now : ℕ) (b : Breaker F)
      → s ≢ open_
      → let c = finish s err now b in
        (c.config ≡ b.config)
        × (c.half_open_calls ≡ b.half_open_calls)
        × ((n : ℕ) → kept c.state b.state n ≡ n)
  finish-facts closed err now b h = elim (finish_closed-Checked err now b) [
    | inl v ↦ (v.config, v.calls, λ n. rw v.state (kept-same b.state n))
    | inr (e, m, at) ↦ (m.config, m.calls, λ n. rw m.state refl)
  ]
  finish-facts open_ err now b h = absurd (h refl)
  finish-facts half_open none now b h =
      let r = finish_good_probe now b in (r.0, r.1, λ n. ground (arith, r, kept-same b.state n))
  finish-facts half_open (some e) now b h =
      let r = finish_failed_probe e now b in (r.2, r.3, λ n. rw r.0 refl)

  abbrev pub count : {by_hand : Bool} {now : ℕ} {y z : System F} → Step by_hand now y z → ℕ → ℕ
  count {y = y} {z = z} (enter {s = s} e) n = is_probe s + kept z.breaker.state y.breaker.state n
  count {y = y} {z = z} _ n = kept z.breaker.state y.breaker.state n

  -- The probes that were admitted since the breaker was last found half-open where it was not so
  -- before.
  abbrev pub probes : {by_hand : Bool} {limit : ℕ} {y z : System F} → Steps by_hand limit y z → ℕ
  probes done = 0
  probes (more r h st) = count st (probes r)

  -- The breaker's own counter is right and within the limit, and no call was admitted in the open
  -- state.
  record IsBounded (cfg : Config F) (y : System F) (n : ℕ) : Type 0 where
    config : y.breaker.config ≡ cfg
    counter : y.breaker.half_open_calls ≡ n
    bounded : y.breaker.half_open_calls ≤ cfg.half_open_max_calls
    live : All (λ s. s ≢ open_) y.running

  module _ (cfg : Config F) (small : cfg.half_open_max_calls < 18446744073709551616) where
    Step-IsBounded :
        {by_hand : Bool} {now : ℕ} {y z : System F} (st : Step by_hand now y z) (n : ℕ)
        → IsBounded cfg y n
        → IsBounded cfg z (count st n)
    Step-IsBounded {now = now} {y = y} (enter {s = s} e) n v =
        let r = begin-facts none now y.breaker (rw v.config v.bounded) (rw v.config small) in
        record {
          config = ground (arith, r, v);
          counter = ground (arith, r, v);
          bounded = ground (arith, r, v);
          live = (admitted-ne-open now y.breaker s (ap (λ p. p.0) e), v.live);
        }
    Step-IsBounded {now = now} {y = y} (turn_away err e) n v =
        let r = begin-facts err now y.breaker (rw v.config v.bounded) (rw v.config small) in
        record {
          config = ground (arith, r, v);
          counter = ground (arith, r, v);
          bounded = ground (arith, r, v);
          live = v.live;
        }
    Step-IsBounded {now = now} {y = y} (leave before after s err e) n v =
        let running : All (λ t. t ≢ open_) (before ++ s ∷ after) =
          subst (All (λ t. t ≢ open_)) e v.live in
        let r = finish-facts s err now y.breaker (All-at (λ t. t ≢ open_) before after s running) in
        record {
          config = r.0 ∙ v.config;
          counter = r.1 ∙ v.counter ∙ sym (r.2 n);
          bounded = rw r.1 v.bounded;
          live = All-remove (λ t. t ≢ open_) before after s running;
        }
    Step-IsBounded {y = y} (crash before after s e) n v = record {
      config = v.config;
      counter = v.counter ∙ sym (kept-same y.breaker.state n);
      bounded = v.bounded;
      live = All-remove (λ t. t ≢ open_) before after s (subst (All (λ t. t ≢ open_)) e v.live);
    }
    Step-IsBounded {now = now} {y = y} query n v =
        let r = state_of-facts now y.breaker (rw v.config v.bounded) in
        record {
          config = r.0 ∙ v.config;
          counter = ground (arith, r, v);
          bounded = ground (arith, r, v);
          live = v.live;
        }
    Step-IsBounded {now = now} {y = y} (by_reset h) n v =
        let r = reset-facts now y.breaker in
        record {
          config = r.config ∙ v.config;
          counter = r.calls ∙ v.counter ∙ sym (rw r.state refl);
          bounded = rw r.calls v.bounded;
          live = v.live;
        }

    Steps-IsBounded :
        {by_hand : Bool} {limit : ℕ} {y z : System F} (r : Steps by_hand limit y z)
        → IsBounded cfg y 0
        → IsBounded cfg z (probes r)
    Steps-IsBounded done v = v
    Steps-IsBounded (more r h st) v = Step-IsBounded st (probes r) (Steps-IsBounded r v)

  new-IsBounded :
      (c : Config F) → IsBounded (with_defaults c) (record { breaker = new c; running = [] }) 0
  unfolding new
  new-IsBounded c = record { config = refl; counter = refl; bounded = omega arith; live = tt }

  -- However calls, panics, queries and resets interleave on a new breaker whose number of probes is
  -- below 2^64, of the calls that asked it, no more were admitted as probes since it last became
  -- half-open than the configuration allows.
  pub probes-le :
      {by_hand : Bool} {limit : ℕ} (c : Config F) (z : System F)
      (r : Steps by_hand limit (record { breaker = new c; running = [] }) z)
      → (with_defaults c).half_open_max_calls < 18446744073709551616
      → probes r ≤ (with_defaults c).half_open_max_calls
  probes-le c z r small =
      let v = Steps-IsBounded (with_defaults c) small r (new-IsBounded c) in
      omega (arith, v.counter, v.bounded)
