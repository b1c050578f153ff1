-- ===== src/Limits/Bulkhead.antt =====
-- bulkhead.go: a semaphore, and one that sheds load of low priority first. A slot is taken by
-- `enter` and given back by `leave`, which is deferred, so that a panic gives it back too.
use resile.Context.{Context, Priority, low, standard, critical, get_priority, ctx_err}
use resile.Errors.{bulkhead_full, shed_load, Err, sentinel}
use resile.Float.{Float, float_ℕ}
use resile.Prelude.{
  ℕ, ◌+◌, ◌-◌, Bool, true, false, Option, none, some, List, [], ◌∷◌, ltb, if◌then◌else◌,
}

-- The semaphore: a channel of the capacity, and the number of tokens in it.
pub record Bulkhead : Type 0 where
  pub capacity : ℕ
  pub held : ℕ

unfoldable pub new_bulkhead : ℕ → Bulkhead
new_bulkhead capacity = record { capacity = capacity; held = 0 }

pub data Entry : Type 0 where
  refused : Err → Entry
  entered : Entry

-- The select of `Execute`: `done` is ctx.Err(); where the slot and ctx.Done() are both ready,
-- `takes_slot` is the choice of Go's scheduler.
abbrev pub select_slot : Bool → Option Err → Bool → Bulkhead → Entry × Bulkhead
select_slot takes_slot none true b = (entered, record b { held = b.held + 1 })
select_slot takes_slot none false b = (refused (sentinel bulkhead_full), b)
select_slot true (some e) true b = (entered, record b { held = b.held + 1 })
select_slot false (some e) true b = (refused e, b)
select_slot takes_slot (some e) false b = (refused e, b)

unfoldable pub enter : Bool → Option Err → Bulkhead → Entry × Bulkhead
enter takes_slot done b = select_slot takes_slot done (ltb b.held b.capacity) b

unfoldable pub leave : Bulkhead → Bulkhead
leave b = record b { held = b.held - 1 }

abbrev pub same_priority : Priority → Priority → Bool
same_priority low low = true
same_priority standard standard = true
same_priority critical critical = true
same_priority _ _ = false

-- `thresholds` is the map as an association list.
pub record PriorityBulkhead (F : Type 0) : Type 0 where
  pub semaphore : Bulkhead
  pub thresholds : List (Priority × F)

abbrev pub threshold_of : {F : Type 0} → F → Priority → List (Priority × F) → F
threshold_of d p [] = d
threshold_of d p ((q, t) ∷ ts) = if same_priority q p then t else threshold_of d p ts

unfoldable pub new_priority_bulkhead : {F : Type 0} → ℕ → List (Priority × F) → PriorityBulkhead F
unfolding new_bulkhead
new_priority_bulkhead capacity thresholds = record {
  semaphore = new_bulkhead capacity;
  thresholds = thresholds;
}

unfoldable pub leave_priority : {F : Type 0} → PriorityBulkhead F → PriorityBulkhead F
unfolding leave
leave_priority b = record b { semaphore = leave b.semaphore }

module _ {F : Type 0} ⦃f : Float F⦄ where
  unfoldable pub utilization : PriorityBulkhead F → F
  utilization b = f.div (float_ℕ b.semaphore.held) (float_ℕ b.semaphore.capacity)

  -- The tests before the select, for a context's priority.
  unfoldable pub shed : Context → PriorityBulkhead F → Option Err
  unfolding utilization get_priority
  shed ctx b =
      let threshold = threshold_of (float_ℕ 1) (get_priority ctx) b.thresholds in
      if f.le (float_ℕ 1) (utilization b)
      then some (sentinel bulkhead_full)
      else if f.le threshold (utilization b)
      then some (sentinel shed_load)
      else none

  abbrev pub select_if :
      Option Err → Bool → Option Err → PriorityBulkhead F → Entry × PriorityBulkhead F
  select_if (some e) takes_slot err b = (refused e, b)
  select_if none takes_slot err b =
      let (r, s) = enter takes_slot err b.semaphore in (r, record b { semaphore = s })

  -- `Execute` up to the action where no other goroutine comes between the test and the select.
  unfoldable pub enter_priority :
      Bool → Context → ℕ → PriorityBulkhead F → Entry × PriorityBulkhead F
  unfolding shed enter
  enter_priority takes_slot ctx now b = select_if (shed ctx b) takes_slot (ctx_err ctx now) b
