-- ===== src/Limits/Occupancy.antt =====
-- How many actions run at once under the semaphore of bulkhead.go, whatever goroutines do.
use resile.Errors.{bulkhead_full, Err, sentinel}
use resile.Limits.Bulkhead.{Bulkhead, new_bulkhead, refused, entered, enter, leave}
use resile.Prelude.{
  ℕ, suc, ◌+◌, ◌≤◌, ◌<◌, ◌≡◌, ◌↔◌, ◌⊎◌, refl, ◌∙◌, Bool, Option, none, some, arith,
}

-- The semaphore, and the number of actions between `enter` and `leave`. The steps of goroutines
-- that use a PriorityBulkhead are these too: its tests come before, and do not write.
pub record Site : Type 0 where
  pub semaphore : Bulkhead
  pub running : ℕ

pub data Step : Site → Site → Type 0 where
  goes_in :
      {s : Site} (takes_slot : Bool) (done : Option Err) {b : Bulkhead}
      → enter takes_slot done s.semaphore ≡ (entered, b)
      → Step s (record { semaphore = b; running = s.running + 1 })
  stays_out :
      {s : Site} (takes_slot : Bool) (done : Option Err) {e : Err} {b : Bulkhead}
      → enter takes_slot done s.semaphore ≡ (refused e, b)
      → Step s (record s { semaphore = b })
  comes_out :
      {s : Site} (n : ℕ)
      → s.running ≡ suc n
      → Step s (record { semaphore = leave s.semaphore; running = n })

pub data Steps : Site → Site → Type 0 where
  done : {s : Site} → Steps s s
  more : {s t u : Site} → Steps s t → Step t u → Steps s u

record IsCounted (capacity : ℕ) (s : Site) : Type 0 where
  same : s.semaphore.capacity ≡ capacity
  held : s.semaphore.held ≡ s.running
  bounded : s.running ≤ capacity

pub enter-entered :
    (takes_slot : Bool) (err : Option Err) (b c : Bulkhead)
    → enter takes_slot err b ≡ (entered, c)
    → (b.held < b.capacity) × (c.capacity ≡ b.capacity) × (c.held ≡ b.held + 1)
unfolding enter
enter-entered takes_slot err b c e = ground arith

pub enter-refused :
    (takes_slot : Bool) (err : Option Err) (b c : Bulkhead) (x : Err)
    → enter takes_slot err b ≡ (refused x, c)
    → (c ≡ b) × ((err ≡ some x) ⊎ ((b.capacity ≤ b.held) × (x ≡ sentinel bulkhead_full)))
unfolding enter
enter-refused takes_slot err b c x e = ground arith

Step-IsCounted : (c : ℕ) {s t : Site} → Step s t → IsCounted c s → IsCounted c t
unfolding leave
Step-IsCounted c {s = s} (goes_in takes_slot err {b = b} e) v =
    let (free, cap_, one) = enter-entered takes_slot err s.semaphore b e in
    record {
      same = cap_ ∙ v.same;
      held = omega (arith, v.held);
      bounded = omega (arith, v.held, v.same);
    }
Step-IsCounted c {s = s} (stays_out takes_slot err {e = x} {b = b} e) v =
    let (k, why) = enter-refused takes_slot err s.semaphore b x e in
    record { same = rw k v.same; held = rw k v.held; bounded = v.bounded }
Step-IsCounted c {s = s} (comes_out n e) v = record {
  same = v.same;
  held = omega (arith, v.held);
  bounded = omega (arith, v.bounded);
}

Steps-IsCounted : (c : ℕ) {s t : Site} → Steps s t → IsCounted c s → IsCounted c t
Steps-IsCounted c done v = v
Steps-IsCounted c (more r st) v = Step-IsCounted c st (Steps-IsCounted c r v)

new-IsCounted : (c : ℕ) → IsCounted c (record { semaphore = new_bulkhead c; running = 0 })
unfolding new_bulkhead
new-IsCounted c = record { same = refl; held = refl; bounded = omega arith }

-- However goroutines enter, are refused and leave (by a panic too), a bulkhead of capacity c never
-- has more than c actions running, its semaphore holds exactly as many tokens as actions run, and
-- it refuses a call whose context is not done with ErrBulkheadFull, just if c actions run.
pub running-le-capacity :
    (c : ℕ) (s : Site) (takes_slot : Bool)
    → Steps (record { semaphore = new_bulkhead c; running = 0 }) s
    → (s.running ≤ c)
      × (s.semaphore.held ≡ s.running)
      × (((enter takes_slot none s.semaphore).0 ≡ refused (sentinel bulkhead_full))
          ↔ (s.running ≡ c))
unfolding enter
running-le-capacity c s takes_slot r =
    let v = Steps-IsCounted c r (new-IsCounted c) in
    (v.bounded, v.held, (λ e. ground (arith, v), λ e. ground (arith, v)))
