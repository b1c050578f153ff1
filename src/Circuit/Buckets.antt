-- ===== src/Circuit/Buckets.antt =====
-- The loop by which the time-based window of circuit/breaker.go forgets the buckets it has passed.
use native.Mathlib.Decide.{ℕ_discrete}
use resile.Circuit.State.{Bucket, empty_bucket, num_buckets}
use resile.Circuit.Window.{clear_range}
use resile.Prelude.{
  ℕ, zero, suc, ◌+◌, ◌-◌, ◌%◌, ◌<◌, ◌≡◌, ◌≢◌, refl, ap, ◌∙◌, some, List, [], ◌∷◌, arith, length,
  get_or, set, length-set, leb, if◌then◌else◌,
}

-- How many steps forward round the ring lead from bucket i to bucket j.
abbrev pub steps_from : ℕ → ℕ → ℕ
steps_from i j = (j + num_buckets - i) % num_buckets

-- Bucket j of a list, after the buckets from i to last have been emptied going round the ring.
abbrev pub forgotten : ℕ → ℕ → List Bucket → ℕ → Bucket
forgotten i last bs j =
    if leb (steps_from i j) (steps_from i last) then empty_bucket else get_or bs j empty_bucket

get_or-set_self :
    (bs : List Bucket) (i : ℕ) → get_or (set bs i empty_bucket) i empty_bucket ≡ empty_bucket
get_or-set_self [] i = refl
get_or-set_self (b ∷ bs) zero = refl
get_or-set_self (b ∷ bs) (suc i) = get_or-set_self bs i

get_or-set_ne :
    (bs : List Bucket) (i j : ℕ) (v : Bucket)
    → i ≢ j
    → get_or (set bs i v) j empty_bucket ≡ get_or bs j empty_bucket
get_or-set_ne [] i j v h = refl
get_or-set_ne (b ∷ bs) zero zero v h = absurd (h refl)
get_or-set_ne (b ∷ bs) zero (suc j) v h = refl
get_or-set_ne (b ∷ bs) (suc i) zero v h = refl
get_or-set_ne (b ∷ bs) (suc i) (suc j) v h = get_or-set_ne bs i j v (λ e. h (ap suc e))

steps_self : (i : ℕ) → steps_from i i ≡ 0
steps_self i = omega arith

steps_ne : (i j : ℕ) → i < 10 → j < 10 → i ≢ j → steps_from i j ≡ suc (steps_from ((i + 1) % 10) j)
steps_ne i j hi hj h = omega arith

leb-suc : (a b : ℕ) → leb a b ≡ leb (suc a) (suc b)
leb-suc a b = ground arith

forgotten_last :
    (i : ℕ) (bs : List Bucket) (j : ℕ)
    → i < 10
    → j < 10
    → get_or (set bs i empty_bucket) j empty_bucket ≡ forgotten i i bs j
forgotten_last i bs j hi hj = elim (ℕ_discrete i j) [
  | yes e ↦ rw (← e, get_or-set_self bs i, steps_self i)
  | no ne ↦
      rw (get_or-set_ne bs i j empty_bucket ne, steps_self i, steps_ne i j hi hj ne) (ground arith)
]

forgotten_next :
    (i last : ℕ) (bs : List Bucket) (j : ℕ)
    → i < 10
    → last < 10
    → j < 10
    → i ≢ last
    → forgotten ((i + 1) % 10) last (set bs i empty_bucket) j ≡ forgotten i last bs j
forgotten_next i last bs j hi hl hj h = elim (ℕ_discrete i j) [
  | yes e ↦ rw (← e, get_or-set_self bs i, steps_self i) (ground arith)
  | no ne ↦ rw (
    get_or-set_ne bs i j empty_bucket ne,
    leb-suc (steps_from ((i + 1) % 10) j) (steps_from ((i + 1) % 10) last),
    ← steps_ne i j hi hj ne,
    ← steps_ne i last hi hl h,
  )
]

steps_fewer :
    (i last n : ℕ)
    → i < 10
    → last < 10
    → i ≢ last
    → steps_from i last < suc n
    → steps_from ((i + 1) % 10) last < n
steps_fewer i last n hi hl h k = omega arith

-- The loop that empties the buckets of a ring of ten from bucket i to bucket last ends, on any fuel
-- above the number of steps between them (so on ten always); the result has as many buckets, those
-- from i to last, going round the ring, are empty, and the others are unchanged.
pub clear_range_lem :
    (fuel i last : ℕ) (bs : List Bucket)
    → i < 10
    → last < 10
    → steps_from i last < fuel
    → (r : List Bucket) × (clear_range fuel i last bs ≡ some r)
      × (length r ≡ length bs)
      × ((j : ℕ) → j < 10 → get_or r j empty_bucket ≡ forgotten i last bs j)
unfolding clear_range
clear_range_lem zero i last bs hi hl h = absurd (omega arith)
clear_range_lem (suc fuel) i last bs hi hl h = elim (ℕ_discrete i last) [
  | yes e ↦ (
    set bs i empty_bucket,
    ground arith,
    length-set bs i empty_bucket,
    λ j hj. rw (← e) (forgotten_last i bs j hi hj),
  )
  | no ne ↦
      let (r, found, same, all) =
        clear_range_lem fuel ((i + 1) % 10) last (set bs i empty_bucket) (omega arith) hl
          (steps_fewer i last fuel hi hl ne h) in
      (
        r,
        ground arith,
        same ∙ length-set bs i empty_bucket,
        λ j hj. all j hj ∙ forgotten_next i last bs j hi hl hj ne,
      )
]
