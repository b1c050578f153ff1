-- ===== src/Limits/Inside.antt =====
-- How many actions run at once under the Execute of adaptive_concurrency.go.
use resile.Float.{Float}
use resile.Limits.Adaptive.{
  AdaptiveLimiter, i32, leave, new_adaptive_limiter, update, adjust, measure, decay,
  check_and_emit_event, emit_state_event,
}
use resile.Prelude.{
  ℕ, suc, ◌+◌, ◌≤◌, ◌<◌, ℤ, pos, negsuc, ◌+ℤ◌, ◌≤ℤ◌, leb_ℤ, ltb_ℤ, ◌≡◌, refl, sym, ap, ◌∙◌, subst,
  true, false, List, [], ◌∷◌, ◌++◌, length, if◌then◌else◌, arith,
}
use resile.Limits.Crowd.{
  Crowd, Step, arrives, goes_in, is_shed, returns, panics, leaves, Steps, done, more, number,
  LimitedBy,
}

-- How many of the calls that arrive may go in under the limit m.
low : ℕ → List ℤ → ℕ
low m [] = 0
low m (c ∷ cs) = let rest = low m cs in if leb_ℤ c (pos m) then suc rest else rest

low-append : (m : ℕ) (xs : List ℤ) (c : ℤ) (ys : List ℤ) → low m (xs ++ ys) ≤ low m (xs ++ c ∷ ys)
unfolding low
low-append m [] c ys = ground arith
low-append m (x ∷ xs) c ys = ground (arith, low-append m xs c ys)

low-took :
    (m : ℕ) (xs : List ℤ) (c : ℤ) (ys : List ℤ)
    → leb_ℤ c (pos m) ≡ true
    → low m (xs ++ c ∷ ys) ≡ suc (low m (xs ++ ys))
unfolding low
low-took m [] c ys h = ground (arith, h)
low-took m (x ∷ xs) c ys h = ground (arith, low-took m xs c ys h)

length-took : (xs : List ℤ) (c : ℤ) (ys : List ℤ) → length (xs ++ c ∷ ys) ≡ suc (length (xs ++ ys))
length-took [] c ys = refl
length-took (x ∷ xs) c ys = ap suc (length-took xs c ys)

low-length : (m : ℕ) (xs : List ℤ) → low m xs ≤ length xs
unfolding low
low-length m [] = omega arith
low-length m (x ∷ xs) = ground (arith, low-length m xs)

one_up : (n : ℕ) → n < 2147483647 → i32 (pos n +ℤ pos 1) ≡ pos (n + 1)
unfolding i32
one_up n h = ground arith

one_down : (n : ℕ) → n < 2147483647 → i32 (pos (suc n) +ℤ negsuc 0) ≡ pos n
unfolding i32
one_down n h = ground arith

-- Whose value from the addition is m at most was counted with all that are inside.
arrived-fits :
    (m total : ℕ) (inside : ℕ) (cs : List ℤ)
    → inside + length cs ≤ total
    → inside + low m cs ≤ m
    → inside + low m (pos (total + 1) ∷ cs) ≤ m
unfolding low
arrived-fits m total inside cs h v = ground (arith, low-length m cs)

admissible : (m : ℕ) (limit c : ℤ) → limit ≤ℤ pos m → ltb_ℤ limit c ≡ false → leb_ℤ c (pos m) ≡ true
admissible m limit c h e = ground (arith, h, e)

module _ {F : Type 0} ⦃f : Float F⦄ where
  update-current :
      (rtt : ℤ) (now : ℕ) (al : AdaptiveLimiter F)
      → (update rtt now al).current_concurrency ≡ al.current_concurrency
  unfolding update adjust measure decay check_and_emit_event emit_state_event
  update-current rtt now al = ground arith

  record IsCounted (m k : ℕ) (s : Crowd F) : Type 0 where
    count : s.limiter.current_concurrency ≡ pos (length s.arriving + s.inside + s.leaving)
    few : length s.arriving + s.inside + s.leaving ≤ k
    fits : s.inside + low m s.arriving ≤ m

  Step-IsCounted :
      (m k : ℕ) {s t : Crowd F}
      → k < 2147483647
      → s.limiter.max_concurrency ≤ℤ pos m
      → Step s t
      → IsCounted m k s
      → IsCounted m (k + 1) t
  unfolding leave
  Step-IsCounted m k {s = s} small limited arrives v =
      let total = length s.arriving + s.inside + s.leaving in
      let now : i32 (s.limiter.current_concurrency +ℤ pos 1) ≡ pos (total + 1) =
        ap (λ z. i32 (z +ℤ pos 1)) v.count ∙ one_up total (omega (arith, v.few)) in
      record {
        count = now ∙ ap pos (omega arith);
        few = omega (arith, v.few);
        fits =
            subst (λ c. s.inside + low m (c ∷ s.arriving) ≤ m) (sym now)
              (arrived-fits m total s.inside s.arriving (omega arith) v.fits);
      }
  Step-IsCounted m k {s = s} small limited (goes_in before c behind e free) v =
      let l = ap length e ∙ length-took before c behind in
      let o =
        ap (low m) e
        ∙ low-took m before c behind (admissible m s.limiter.max_concurrency c limited free) in
      record {
        count = v.count ∙ ap pos (omega arith);
        few = omega (arith, v.few);
        fits = omega (arith, v.fits);
      }
  Step-IsCounted m k {s = s} small limited (is_shed before c behind e over) v =
      let l = ap length e ∙ length-took before c behind in
      let o = ap (low m) e in
      let p = low-append m before c behind in
      record {
        count = v.count ∙ ap pos (omega arith);
        few = omega (arith, v.few);
        fits = omega (arith, v.fits);
      }
  Step-IsCounted m k {s = s} small limited (returns n rtt now e) v = record {
    count = update-current rtt now s.limiter ∙ v.count ∙ ap pos (omega arith);
    few = omega (arith, v.few);
    fits = omega (arith, v.fits);
  }
  Step-IsCounted m k {s = s} small limited (panics n e) v = record {
    count = v.count ∙ ap pos (omega arith);
    few = omega (arith, v.few);
    fits = omega (arith, v.fits);
  }
  Step-IsCounted m k {s = s} small limited (leaves n e) v =
      let less = length s.arriving + s.inside + n in
      let all : length s.arriving + s.inside + s.leaving ≡ suc less = omega arith in
      record {
        count =
            ap (λ z. i32 (z +ℤ negsuc 0)) (v.count ∙ ap pos all)
            ∙ one_down less (omega (arith, v.few));
        few = omega (arith, v.few);
        fits = v.fits;
      }

  before_step :
      (m : ℕ) {s t : Crowd F} (r : Steps s t) → LimitedBy m r → t.limiter.max_concurrency ≤ℤ pos m
  before_step m done l = l
  before_step m (more r st) l = l.1

  Steps-IsCounted :
      (m : ℕ) {s t : Crowd F} (r : Steps s t)
      → number r < 2147483647
      → LimitedBy m r
      → IsCounted m 0 s
      → IsCounted m (number r) t
  Steps-IsCounted m done small l v = v
  Steps-IsCounted m (more {t = t} r st) small l v =
      let u =
        Step-IsCounted m (number r) (omega arith) (before_step m r l.0) st
          (Steps-IsCounted m r (omega arith) l.0 v) in
      record { count = u.count; few = omega (arith, u.few); fits = u.fits }

  abbrev pub empty : ℕ → Crowd F
  empty now = record { limiter = new_adaptive_limiter now; arriving = []; inside = 0; leaving = 0 }

  -- However calls arrive, are admitted or shed, return, panic and leave at a new adaptive limiter, in
  -- fewer than 2^31 - 1 steps: its counter is the number of calls between their two additions, and
  -- while the limit is m at most, at most m actions run at once, although a call compares what it
  -- added with a limit that others may change meanwhile.
  pub inside-le-limit :
      (now m : ℕ) {s : Crowd F} (r : Steps (empty now) s)
      → number r < 2147483647
      → LimitedBy m r
      → (s.limiter.current_concurrency ≡ pos (length s.arriving + s.inside + s.leaving))
        × (s.inside ≤ m)
  unfolding new_adaptive_limiter low
  inside-le-limit now m r small l =
      let v =
        Steps-IsCounted m r small l
          (record { count = refl; few = omega arith; fits = omega arith }) in
      (v.count, omega (arith, v.fits))
