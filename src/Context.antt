-- ===== src/Context.antt =====
-- Go's context.Context as the library uses it, priority.go, and `sleep` of retry.go.
use resile.Prelude.{
  ℕ, ◌+◌, ℤ, pos, pos_part, sub_ℕ, ◌+ℤ◌, Bool, true, false, Option, none, some, ltb, leb, leb_ℤ,
  if◌then◌else◌,
}
use resile.Errors.{Sentinel, context_canceled, deadline_exceeded, Err, sentinel}

pub data Priority : Type 0 where
  low standard critical : Priority

-- A context: its deadline, the instant at which its owner cancels it, and the two values that the
-- library stores in it.
pub record Context : Type 0 where
  pub deadline : Option ℕ
  pub canceled_at : Option ℕ
  pub priority : Option Priority
  pub bypass_delay : Option Bool

abbrev pub background : Context
background = record { deadline = none; canceled_at = none; priority = none; bypass_delay = none }

unfoldable pub with_priority : Context → Priority → Context
with_priority ctx p = record ctx { priority = some p }

unfoldable pub get_priority : Context → Priority
get_priority ctx = elim ctx.priority [ none ↦ standard | some p ↦ p ]

unfoldable pub with_testing_bypass : Context → Context
with_testing_bypass ctx = record ctx { bypass_delay = some true }

-- The first of the instants at which the context is done, and what Err() says from then on.
abbrev pub done_at_ : Option ℕ → Option ℕ → Option (ℕ × Sentinel)
done_at_ none none = none
done_at_ (some c) none = some (c, context_canceled)
done_at_ none (some d) = some (d, deadline_exceeded)
done_at_ (some c) (some d) =
    if ltb c d then some (c, context_canceled) else some (d, deadline_exceeded)

unfoldable pub done_at : Context → Option (ℕ × Sentinel)
done_at ctx = done_at_ ctx.canceled_at ctx.deadline

abbrev pub err_from : ℕ → Option (ℕ × Sentinel) → Option Err
err_from now none = none
err_from now (some (t, s)) = if leb t now then some (sentinel s) else none

-- ctx.Err() at the instant `now`; ctx.Done() is ready just if it is not nil.
unfoldable pub ctx_err : Context → ℕ → Option Err
unfolding done_at
ctx_err ctx now = err_from now (done_at ctx)

abbrev pub earlier : Option ℕ → ℕ → Option ℕ
earlier none t = some t
earlier (some d) t = if ltb d t then some d else some t

-- context.WithTimeout(ctx, timeout) at the instant `now`.
unfoldable pub with_timeout : Context → ℤ → ℕ → Context
unfolding ◌+ℤ◌
with_timeout ctx timeout now = record ctx {
  deadline = earlier ctx.deadline (pos_part (pos now +ℤ timeout));
}

-- time.Until(deadline) where the context has one.
unfoldable pub remaining : Context → ℕ → Option ℤ
remaining ctx now = elim ctx.deadline [ none ↦ none | some d ↦ some (sub_ℕ d now) ]

abbrev pub is_set : Option Bool → Bool
is_set none = false
is_set (some b) = b

-- The select of `sleep`, from `now` to the instant at which the timer fires. If both are ready at
-- one instant, the timer's case is the one taken.
abbrev pub wait_until : ℕ → ℕ → Option (ℕ × Sentinel) → Option Err × ℕ
wait_until now fires none = (none, fires)
wait_until now fires (some (t, s)) =
    if leb fires t then (none, fires) else (some (sentinel s), if ltb t now then now else t)

-- The error and the instant at which `sleep` returns.
unfoldable pub sleep : Context → ℤ → ℕ → Option Err × ℕ
unfolding done_at
sleep ctx delay now =
    if leb_ℤ delay (pos 0)
    then (none, now)
    else if is_set ctx.bypass_delay
    then (none, now)
    else wait_until now (now + pos_part delay) (done_at ctx)
