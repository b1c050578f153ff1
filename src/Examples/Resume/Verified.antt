-- ===== src/Examples/Resume/Verified.antt =====
-- What main of examples/http_resume_stream/main.go prints, and the file that its run leaves.
use resile.Context.{Context, background}
use resile.Errors.{Err}
use resile.Float.{Float}
use resile.Pipeline.World.{World}
use resile.Pipeline.Config.{default_config}
use resile.Pipeline.Options.{new, with_name, with_max_attempts, with_backoff}
use resile.Pipeline.Invariants.{Leaves, Keeps, do_err_state-Leaves}
use resile.Retry.Loop.{RetryState, Outcome, returned, panicked}
use resile.Examples.Resume.Server.{bytes_from, file_content}
use resile.Examples.Resume.Downloaded.{IsHttp, Consistent, Complete, Steps, download-Steps}
use resile.Examples.Resume.Client.{
  Client, Environment, download, action, resume_options, clean, run, equal, validate,
  integrity_verified,
}
use resile.Prelude.{
  ℕ, zero, suc, ◌+◌, ◌<◌, ◌^◌, ◌≡◌, refl, ap, sym, subst, ◌⊎◌, inl, inr, ◌∙◌, true, Option, some,
  none, List, [], ◌∷◌, length, take, ◌==◌, arith,
}

equal_refl : (xs : List ℕ) → equal xs xs ≡ true
equal_refl [] = refl
equal_refl (x ∷ xs) = rw (same x) (equal_refl xs)
  where
    same : (x : ℕ) → (x == x) ≡ true
    same x = ground arith

length-bytes_from : (i n : ℕ) → length (bytes_from i n) ≡ n
length-bytes_from i zero = refl
length-bytes_from i (suc n) = ap suc (length-bytes_from (i + 1) n)

validate-content : (size : ℕ) → validate size (some (file_content size)) ≡ integrity_verified
validate-content size =
    rw (length-bytes_from 0 size, same size, equal_refl (file_content size)) refl
  where
    same : (x : ℕ) → (x == x) ≡ true
    same x = ground arith

module _ {F V : Type 0} (content : List ℕ) (env : Environment) (http : IsHttp env)
    (small : length content < 2 ^ 63) where
  steps-Leaves :
      (x : Option Err × Client) (w : World F V Client) (t : ℕ)
      → Steps content x
      → Leaves
          (Consistent content)
          (Complete content)
          (returned x.0, record w { user = x.1; clock = t })
  steps-Leaves (none, c) w t h = h
  steps-Leaves (some e, c) w t h = h

  action-Keeps :
      (c : Context) (s : RetryState) (v : World F V Client)
      → Keeps (Consistent content) (Complete content) v (action env content c s v)
  action-Keeps c s v = (
    refl,
    refl,
    λ h.
        steps-Leaves (download env content v.user) v (v.clock + env.time v.user.requests)
          (download-Steps content env http v.user small h),
  )

-- The bytes that were counted are the first ones of the file.
abbrev pub Counted : ℕ → Client → Type 0
Counted size c =
    (c.bytes_received ≡ 0) ⊎ (c.file ≡ some (take c.bytes_received (file_content size)))

-- What the run of a download leaves, after a success and otherwise.
abbrev pub Delivered : {F V : Type 0} → ℕ → Outcome × World F V Client → Type 0
Delivered size (returned none, w) = validate size w.user.file ≡ integrity_verified
Delivered size (returned (some e), w) = Counted size w.user
Delivered size (panicked n, w) = Counted size w.user

counted :
    (size b : ℕ) (file : Option (List ℕ)) (requests : ℕ)
    → (0 < b → file ≡ some (take b (file_content size)))
    → Counted size (record { bytes_received = b; file = file; requests = requests })
counted size zero file requests h = inl refl
counted size (suc b) file requests h = inr (h (omega arith))

module _ {F V : Type 0} ⦃f : Float F⦄ where
  delivered :
      (size : ℕ) (x : Outcome × World F V Client)
      → Leaves (Consistent (file_content size)) (Complete (file_content size)) x
      → Delivered size x
  delivered size (returned none, w) h = ap (validate size) h.1 ∙ validate-content size
  delivered size (returned (some e), w) h =
      counted size w.user.bytes_received w.user.file w.user.requests h.1
  delivered size (panicked n, w) h =
      counted size w.user.bytes_received w.user.file w.user.requests h.1

  -- The download of a file of less than 2^63 bytes, whatever connections drop, writes, requests and
  -- opens fail and whatever the delays: if DoErr returns no error, main finds the file to be whole and
  -- right; otherwise the bytes that it counted are in the file and are the first ones of the content.
  pub run-Delivered :
      (env : Environment) (size : ℕ) (w : World F V Client)
      → IsHttp env
      → size < 2 ^ 63
      → Delivered size (run env size w)
  unfolding run new with_name with_max_attempts with_backoff default_config
  run-Delivered env size w http small = delivered size (run env size w) (
      do_err_state-Leaves (Consistent (file_content size)) (Complete (file_content size))
        resume_options background (action env (file_content size)) (record w { user = clean })
        (omega arith) refl
        (action-Keeps (file_content size) env http
          (subst (λ n. n < 2 ^ 63) (sym (length-bytes_from 0 size)) small))
        (omega arith, λ p. absurd (omega arith)))
