-- ===== src/Examples/Resume/Served.antt =====
-- What the handler of examples/http_resume_stream/main.go writes.
use Prim.Native.Nat.{min}
use resile.Examples.Resume.Range.{range_header, parse_range}
use resile.Examples.Resume.Parsed.{parse-range_header}
use resile.Examples.Resume.Server.{
  Response, Luck, chunk_size, fail_after, is_reached, write_from, or_start, status_of, status_ok,
  status_partial_content, status_range_not_satisfiable, handle,
}
use mathlib.Core.Bool.{true≢false}
use resile.Prelude.{
  ◌⊎◌, inl, inr, leb, if_of, subst, ℕ, zero, suc, ◌+◌, ◌-◌, ◌≤◌, ◌<◌, ◌^◌, ◌≡◌, refl, ap, sym, ◌∙◌,
  Bool, true, false, List, ◌++◌, length, take, drop, ltb, arith, take-append_drop, drop-drop,
}

-- A part of the file from `start` on, and all of it unless the connection broke.
abbrev pub Served : List ℕ → ℕ → List ℕ × Bool → Type 0
Served content start (body, broken) =
    (m : ℕ) × (m ≤ length content - start)
    × (body ≡ take m (drop start content))
    × (broken ≡ false → m ≡ length content - start)

module _ (luck : Luck) (content : List ℕ) (start : ℕ) where
  longer :
      (written n : ℕ)
      → take written (drop start content) ++ take n (drop (start + written) content)
        ≡ take (written + n) (drop start content)
  longer written n =
      ap (λ l. take written (drop start content) ++ take n l)
        (ap (λ k. drop k content) {x = start + written} {y = written + start} (omega arith)
          ∙ sym (drop-drop written start content))
      ∙ sym (take-append_drop written n (drop start content))

  write_from-Served :
      (fuel written : ℕ)
      → luck.is_hijacker ≡ true
      → written ≤ length content - start
      → length content - start ≤ written + fuel
      → Served content start (
          write_from luck content start
            (length content - start)
            fuel
            written
            (take written (drop start content)))
  unfolding write_from
  write_from-Served zero written hj h k = (written, h, refl, λ e. omega arith)
  write_from-Served (suc fuel) written hj h k =
      let remaining = length content - start in
      let n = min chunk_size (remaining - written) in
      if_of (Served content start) (ltb written remaining) _ _
        (λ more.
          if_of (Served content start) (is_reached (fail_after luck remaining) written) _ _
            (λ reached. (written, h, refl, λ e. absurd (hijacked e)))
            (λ on.
              if_of (Served content start) (luck.write_fails written) _ _
                (λ failed. (written, h, refl, λ e. absurd (true≢false e)))
                (λ wrote.
                  subst
                    (λ body.
                      Served content start
                        (write_from luck content start remaining fuel (written + n) body))
                    (sym (longer written n))
                    (write_from-Served fuel (written + n) hj (ground arith) (ground arith)))))
        (λ done. (written, h, refl, λ e. ground arith))
    where
      hijacked : luck.is_hijacker ≡ false → ⊥
      hijacked e = true≢false (sym hj ∙ e)

-- What a client that has r bytes asks for, and what it is told.
abbrev pub status_for : ℕ → ℕ
status_for zero = status_ok
status_for (suc r) = status_partial_content

range_read :
    (r : ℕ)
    → r < 2 ^ 63
    → (or_start (parse_range (range_header r)) ≡ r)
      × (status_of (parse_range (range_header r)) ≡ status_for r)
unfolding parse_range range_header
range_read zero h = (refl, refl)
range_read (suc r) h = rw (parse-range_header (suc r) (omega arith) h) (refl, refl)

-- The rest of the file, or a refusal.
abbrev pub Answers : List ℕ → ℕ → Response → Type 0
Answers content r response =
    (response.status ≡ status_range_not_satisfiable)
    ⊎ ((response.status ≡ status_for r) × Served content r (response.body, response.broken))

pub handle-Answers :
    (luck : Luck) (content : List ℕ) (r : ℕ)
    → luck.is_hijacker ≡ true
    → r < 2 ^ 63
    → Answers content r (handle luck content (range_header r))
unfolding handle
handle-Answers luck content r hj h =
    let (start, status) = range_read r h in
    let size = length content in
    rw (start, status)
      (if_of (Answers content r) (leb size r) _ _ (λ past. inl refl)
        (λ inside.
          inr (refl, write_from-Served luck content r (size - r) 0 hj (omega arith) (omega arith))))
