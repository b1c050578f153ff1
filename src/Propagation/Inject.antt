-- ===== src/Propagation/Inject.antt =====
-- The header of InjectDeadlineHeader of propagation.go beside the deadline of the context.
use resile.Context.{Context, remaining}
use resile.Float.{Float}
use resile.Propagation.Format.{
  millisecond, second, minute, hour, decimal_onto, format_grpc_timeout, header_value,
  inject_remaining, inject_deadline_header,
}
use resile.Propagation.Reading.{parse_grpc_timeout, parse_ms, ms_read}
use resile.Propagation.RoundTrip.{Truncates, parse-format_grpc_timeout}
use text.Mathlib.Text
use resile.Prelude.{
  ℕ, ◌+◌, ◌-◌, ◌*◌, ◌/◌, ◌≤◌, ◌<◌, ◌≡◌, ◌⊎◌, inl, inr, ap, ◌∙◌, pos, leb_ℤ, leb, ℤ, sub_ℕ, Bool,
  true, false, Option, none, some, List, [], String, if◌then◌else◌, Bool-cases, arith,
}

-- What a server makes of the header: the time that is left, in nanoseconds.
abbrev pub read_header : String → List ℕ → Option ℕ
read_header key value =
    if Text.◌==◌ key "Grpc-Timeout" then parse_grpc_timeout value else parse_ms value

-- Never more than d, and what is lost is less than a half of d and a millisecond.
abbrev pub Within : ℕ → Option ℕ → Type 0
Within d o = (t : ℕ) × (o ≡ some t) × (t ≤ d) × (d < 2 * t + millisecond)

past : (deadline now : ℕ) → leb deadline now ≡ true → leb_ℤ (sub_ℕ deadline now) (pos 0) ≡ true
past deadline now late = ground (arith, late)

ahead : (deadline now : ℕ) → leb deadline now ≡ false → leb_ℤ (pos (deadline - now)) (pos 0) ≡ false
ahead deadline now early = ground (arith, early)

by_key :
    (d : ℕ) (b : Bool) (v w : List ℕ)
    → Within d (parse_grpc_timeout v)
    → Within d (parse_ms w)
    → Within d
        (if b then parse_grpc_timeout (if b then v else w) else parse_ms (if b then v else w))
by_key d true v w p q = p
by_key d false v w p q = q

module _ {F : Type 0} ⦃f : Float F⦄ where
  value-Within :
      (key : String) (d : ℕ)
      → 0 < d
      → d < 4096 * hour
      → Truncates F second
      → Truncates F minute
      → Truncates F hour
      → Within d (read_header key (header_value F key (pos d)))
  value-Within key d p h s m o =
      let (t, e, low, high) = parse-format_grpc_timeout d p h s m o in
      let ms = d / millisecond in
      by_key d (Text.◌==◌ key "Grpc-Timeout") (format_grpc_timeout F (pos d)) (decimal_onto ms [])
        (t, e, low, omega arith) (ms * millisecond, ms_read ms, omega arith, omega arith)

  module _ {H : Type 0} (set : String → List ℕ → H → H) where
    -- A context whose deadline has passed sets no header. One that has time left, but less than 4096
    -- hours, sets the header once, to a value from which a server that reads it at the same instant
    -- gets a time-out that ends no later than the deadline.
    pub inject_deadline_header-Within :
        (ctx : Context) (now deadline : ℕ) (key : String) (h : H)
        → ctx.deadline ≡ some deadline
        → deadline < now + 4096 * hour
        → Truncates F second
        → Truncates F minute
        → Truncates F hour
        → ((deadline ≤ now) × (inject_deadline_header F set ctx now key h ≡ h))
          ⊎ ((value : List ℕ) × (inject_deadline_header F set ctx now key h ≡ set key value h)
              × (now < deadline)
              × Within (deadline - now) (read_header key value))
    unfolding inject_deadline_header remaining
    inject_deadline_header-Within ctx now deadline key h e fits s m o =
        let left =
          ap
            (λ o.
              inject_remaining F set key (elim (o) [ none ↦ none | some d ↦ some (sub_ℕ d now) ]) h)
            e in
        let skip : ℤ → Bool → H = λ z b. if b then h else set key (header_value F key z) h in
        elim (Bool-cases (leb deadline now)) [
          | inl late ↦
              inl (
                ground (arith, late),
                left ∙ ap (skip (sub_ℕ deadline now)) (past deadline now late),
              )
          | inr early ↦
              let d = deadline - now in
              let time : sub_ℕ deadline now ≡ pos d = ground (arith, early) in
              inr (
                header_value F key (pos d),
                left
                    ∙ ap (λ z. inject_remaining F set key (some z) h) time
                    ∙ ap (skip (pos d)) (ahead deadline now early),
                ground (arith, early),
                value-Within key d (ground (arith, early)) (ground (arith, early)) s m o,
              )
        ]
