-- ===== src/Circuit/Timeout.antt =====
-- How long a breaker of circuit/breaker.go refuses every call: in the open state until the reset
-- time-out, and for ever in a half-open state whose probes are lost.
use resile.Circuit.State.{closed, open_, half_open, Breaker}
use resile.Circuit.Breaker.{refused, reset_elapsed, state_of, begin, finish}
use resile.Circuit.Frame.{Frame}
use resile.Circuit.Machine.{begin-open, finish_closed-Checked}
use resile.Circuit.Refusal.{IsShut, refuses-All}
use resile.Circuit.System.{System, Steps, All}
use resile.Errors.{circuit_open, Err, sentinel}
use resile.Float.{Float}
use resile.Prelude.{
  ℕ, ◌≤◌, ◌≡◌, ◌≢◌, refl, ◌∙◌, inl, inr, false, Option, none, some, length, arith, ltb_ℤ, sub_ℕ, ℤ,
}

-- If a time-out has not passed at one instant, it had not at an earlier one.
not_elapsed_before :
    (z : ℤ) (since early late : ℕ)
    → early ≤ late
    → ltb_ℤ z (sub_ℕ late since) ≡ false
    → ltb_ℤ z (sub_ℕ early since) ≡ false
not_elapsed_before z since early late h e = ground arith

module _ {F : Type 0} where
  state_of-open :
      (now : ℕ) (b : Breaker F)
      → b.state ≡ open_
      → reset_elapsed now b ≡ false
      → (state_of now b).1 ≡ b
  unfolding state_of
  state_of-open now b e h = ground arith

  begin-done : (e : Err) (now : ℕ) (b : Breaker F) → begin (some e) now b ≡ (refused e, b)
  unfolding begin
  begin-done e now b = refl

  state_of-half_open : (now : ℕ) (b : Breaker F) → b.state ≡ half_open → (state_of now b).1 ≡ b
  unfolding state_of
  state_of-half_open now b e = ground arith

  begin-half_open :
      (now : ℕ) (b : Breaker F)
      → b.state ≡ half_open
      → b.config.half_open_max_calls ≤ b.half_open_calls
      → begin none now b ≡ (refused (sentinel circuit_open), b)
  unfolding begin
  begin-half_open now b e h = ground arith

  -- Open since the instant at which another breaker is, with its configuration.
  pub record IsOpenAs (b c : Breaker F) : Type 0 where
    pub state : c.state ≡ open_
    pub config : c.config ≡ b.config
    pub opened_at : c.opened_at ≡ b.opened_at

  -- Half-open, with every probe taken.
  pub record IsUsedUp (c : Breaker F) : Type 0 where
    pub state : c.state ≡ half_open
    pub none_left : c.config.half_open_max_calls ≤ c.half_open_calls

module _ {F : Type 0} ⦃f : Float F⦄ where
  finish-Frame :
      (err : Option Err) (now : ℕ) (b : Breaker F)
      → b.state ≢ closed
      → Frame b (finish closed err now b)
  finish-Frame err now b h = elim (finish_closed-Checked err now b) [
    | inl v ↦ v
    | inr (c, m, at) ↦ absurd (h c)
  ]

  late_still :
      (now limit : ℕ) (b c : Breaker F)
      → now ≤ limit
      → reset_elapsed limit b ≡ false
      → IsOpenAs b c
      → reset_elapsed now c ≡ false
  late_still now limit b c h late v =
      rw (v.config, v.opened_at)
        (not_elapsed_before b.config.reset_timeout b.opened_at now limit h late)

  open-IsShut :
      (limit : ℕ) (b : Breaker F) → reset_elapsed limit b ≡ false → IsShut (IsOpenAs b) limit
  open-IsShut limit b late = record {
    refuses = λ err now c h v. refuse err now c h v;
    queried = λ now c h v. state_of-open now c v.state (late_still now limit b c h late v);
    kept = λ err now c v.
        let w = finish-Frame err now c (λ e. ground arith) in
        record {
          state = w.state ∙ v.state;
          config = w.config ∙ v.config;
          opened_at = w.opened_at ∙ v.opened_at;
        };
  }
    where
      refuse :
          (err : Option Err) (now : ℕ) (c : Breaker F)
          → now ≤ limit
          → IsOpenAs b c
          → (e : Err) × (begin err now c ≡ (refused e, c))
      refuse none now c h v =
          (sentinel circuit_open, begin-open now c v.state (late_still now limit b c h late v))
      refuse (some x) now c h v = (x, begin-done x now c)

  IsUsedUp-IsShut : (limit : ℕ) → IsShut {F = F} IsUsedUp limit
  IsUsedUp-IsShut limit = record {
    refuses = λ err now c h v. refuse err now c v;
    queried = λ now c h v. state_of-half_open now c v.state;
    kept = λ err now c v.
        let w = finish-Frame err now c (λ e. ground arith) in
        record { state = w.state ∙ v.state; none_left = rw (w.config, w.calls) v.none_left };
  }
    where
      refuse :
          (err : Option Err) (now : ℕ) (c : Breaker F)
          → IsUsedUp c
          → (e : Err) × (begin err now c ≡ (refused e, c))
      refuse none now c v = (sentinel circuit_open, begin-half_open now c v.state v.none_left)
      refuse (some x) now c v = (x, begin-done x now c)

  -- While the reset time-out of an open breaker has not passed, no probe of an earlier half-open
  -- period is under way and nobody calls Reset, the breaker stays open since the same instant and
  -- admits no call: however calls, panics and queries interleave, the calls that run only get fewer.
  pub open_until_timeout :
      {limit : ℕ} (y z : System F)
      → y.breaker.state ≡ open_
      → All (λ s. s ≡ closed) y.running
      → reset_elapsed limit y.breaker ≡ false
      → Steps false limit y z
      → (z.breaker.state ≡ open_)
        × (z.breaker.opened_at ≡ y.breaker.opened_at)
        × (length z.running ≤ length y.running)
  open_until_timeout {limit = limit} y z e calls late r =
      let (v, few) =
        refuses-All (IsOpenAs y.breaker) limit (open-IsShut limit y.breaker late) y z
          (record { state = e; config = refl; opened_at = refl }) calls r in
      (v.state, v.opened_at, few)

  -- A half-open breaker whose probes are all taken, and of which none is under way any more (their
  -- actions panicked), admits no call ever again, unless Reset is called: there is no time-out in
  -- the half-open state.
  pub half_open_for_ever :
      {limit : ℕ} (y z : System F)
      → y.breaker.state ≡ half_open
      → y.breaker.config.half_open_max_calls ≤ y.breaker.half_open_calls
      → All (λ s. s ≡ closed) y.running
      → Steps false limit y z
      → (z.breaker.state ≡ half_open) × (length z.running ≤ length y.running)
  half_open_for_ever {limit = limit} y z e h calls r =
      let (v, few) =
        refuses-All IsUsedUp limit (IsUsedUp-IsShut limit) y z (record { state = e; none_left = h })
          calls r in
      (v.state, few)
