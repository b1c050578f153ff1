-- ===== src/Circuit/Ring.antt =====
-- A ring of outcomes with a position and a flag, as the count-based window of circuit/breaker.go
-- keeps it, and the list of outcomes that it stands for.
use resile.Circuit.Window.{u32}
use Prim.Native.Nat.{min}
use mathlib.Core.Path.{◌≡⟨◌⟩◌, ◌∎}
use mathlib.Core.List.{append-nil, append_assoc}
use native.Mathlib.Nat.{mod-eq_of_lt, mod-lt}
use native.Mathlib.Numerals.{add-one}
use native.Mathlib.Decide.{ℕ_discrete}
use resile.Prelude.{
  ℕ, suc, ◌+◌, ◌-◌, ◌%◌, ◌≤◌, ◌<◌, ◌≡◌, sym, ap, ◌∙◌, Bool, true, false, List, [], ◌∷◌, ◌++◌, arith,
  length, get_or, set, take, drop, length-append, length-set, length-take, length-drop, drop-cons,
  drop-set, take-set, take_all, drop_all, drop-append, drop-drop, ◌==◌, if◌then◌else◌,
}

-- The outcomes in the ring, oldest first: all of it once it is full, its first part before.
abbrev pub view_of : Bool → ℕ → List Bool → List Bool
view_of true i ring = drop i ring ++ take i ring
view_of false i ring = take i ring

abbrev pub count_false : List Bool → ℕ
count_false [] = 0
count_false (true ∷ xs) = count_false xs
count_false (false ∷ xs) = suc (count_false xs)

-- The last n entries of a list.
abbrev pub last_of : ℕ → List Bool → List Bool
last_of n xs = drop (length xs - n) xs

pub count_false-append :
    (xs ys : List Bool) → count_false (xs ++ ys) ≡ count_false xs + count_false ys
count_false-append [] ys = omega arith
count_false-append (true ∷ xs) ys = omega (arith, count_false-append xs ys)
count_false-append (false ∷ xs) ys = omega (arith, count_false-append xs ys)

pub count_false-le : (xs : List Bool) → count_false xs ≤ length xs
count_false-le [] = omega arith
count_false-le (true ∷ xs) = omega (arith, count_false-le xs)
count_false-le (false ∷ xs) = omega (arith, count_false-le xs)

-- What recording does to the position and to the flag, over a ring of n slots.
abbrev pub next_idx : ℕ → ℕ → ℕ
next_idx n i = u32 (i + 1) % n

abbrev pub next_full : ℕ → ℕ → Bool → Bool
next_full n i full = if next_idx n i == 0 then true else full

abbrev pub slide : Bool → List Bool → List Bool
slide true xs = drop 1 xs
slide false xs = xs

next_idx_last : (n i : ℕ) → n < 4294967296 → i + 1 ≡ n → next_idx n i ≡ 0
next_idx_last n i small h = grind arith

next_idx_inner : (n i : ℕ) → n < 4294967296 → i + 1 < n → next_idx n i ≡ i + 1
next_idx_inner n i small h = grind (arith, mod-eq_of_lt)

whole_set :
    (i : ℕ) (ring : List Bool) (s : Bool)
    → i + 1 ≡ length ring
    → set ring i s ≡ take i ring ++ s ∷ []
whole_set i ring s h =
    sym (take_all (suc i) (set ring i s) (omega (arith, length-set ring i s)))
    ∙ take-set i ring s (omega arith)

drop_one :
    (i : ℕ) (ring rest : List Bool)
    → i < length ring
    → drop 1 (drop i ring ++ rest) ≡ drop (suc i) ring ++ rest
drop_one i ring rest h = rw (drop-cons i ring false h)

view-last :
    (full : Bool) (i : ℕ) (ring : List Bool) (s : Bool)
    → i + 1 ≡ length ring
    → set ring i s ++ [] ≡ slide full (view_of full i ring) ++ s ∷ []
view-last true i ring s h = rw (
  append-nil,
  whole_set i ring s h,
  drop_one i ring (take i ring) (omega arith),
  drop_all (suc i) ring (omega arith),
)
view-last false i ring s h = rw (append-nil, whole_set i ring s h)

view-inner :
    (full : Bool) (i : ℕ) (ring : List Bool) (s : Bool)
    → i < length ring
    → view_of full (suc i) (set ring i s) ≡ slide full (view_of full i ring) ++ s ∷ []
view-inner true i ring s h =
    rw (drop-set i ring s, take-set i ring s h, drop_one i ring (take i ring) h, append_assoc)
view-inner false i ring s h = take-set i ring s h

suc_not_zero : (i : ℕ) → (suc i == 0) ≡ false
suc_not_zero i = ground arith

-- Recording slides the window by one outcome.
pub view_of-next :
    (full : Bool) (i : ℕ) (ring : List Bool) (s : Bool)
    → length ring < 4294967296
    → i < length ring
    → let n = length ring in
      view_of (next_full n i full) (next_idx n i) (set ring i s)
      ≡ slide full (view_of full i ring) ++ s ∷ []
view_of-next full i ring s small h = elim (ℕ_discrete (i + 1) (length ring)) [
  | yes e ↦ rw (next_idx_last (length ring) i small e) (view-last full i ring s e)
  | no ne ↦
      rw (next_idx_inner (length ring) i small (omega arith), add-one, suc_not_zero i)
        (view-inner full i ring s h)
]

pub length-view :
    (full : Bool) (i : ℕ) (ring : List Bool)
    → i < length ring
    → length (view_of full i ring) ≡ (if full then length ring else i)
length-view true i ring h =
    omega (arith, length-append (drop i ring) (take i ring), length-drop i ring, length-take i ring)
length-view false i ring h = omega (arith, length-take i ring)

pub count_false-slide :
    (i : ℕ) (ring : List Bool)
    → i < length ring
    → count_false (view_of true i ring)
      ≡ (if get_or ring i false then 0 else 1) + count_false (slide true (view_of true i ring))
count_false-slide i ring h = rw (drop-cons i ring false h) (ground arith)

pub length-slide :
    (i : ℕ) (ring : List Bool)
    → i < length ring
    → length (slide true (view_of true i ring)) + 1 ≡ length ring
length-slide i ring h = rw (drop-cons i ring false h) (
    omega (
      arith,
      length-append (drop (suc i) ring) (take i ring),
      length-drop (suc i) ring,
      length-take i ring,
    ))

pub count_false-snoc :
    (xs : List Bool) (s : Bool) → count_false (xs ++ s ∷ []) ≡ count_false xs + (if s then 0 else 1)
count_false-snoc xs true = omega (arith, count_false-append xs (true ∷ []))
count_false-snoc xs false = omega (arith, count_false-append xs (false ∷ []))

length-last_of : (n : ℕ) (xs : List Bool) → length (last_of n xs) ≡ min n (length xs)
length-last_of n xs = omega (arith, length-drop (length xs - n) xs)

-- Sliding what is seen of a history is seeing one outcome more of it.
pub last_of-snoc :
    (n : ℕ) (h : List Bool) (s : Bool) → last_of n (last_of n h ++ s ∷ []) ≡ last_of n (h ++ s ∷ [])
last_of-snoc n h s =
    drop (length (last_of n h ++ s ∷ []) - n) (drop (length h - n) h ++ s ∷ [])
    ≡⟨ ap (drop (length (last_of n h ++ s ∷ []) - n))
        (sym (drop-append (length h - n) h (s ∷ []) (omega arith))) ⟩
      drop (length (last_of n h ++ s ∷ []) - n) (drop (length h - n) (h ++ s ∷ []))
    ≡⟨ drop-drop (length (last_of n h ++ s ∷ []) - n) (length h - n) (h ++ s ∷ []) ⟩
      drop (length (last_of n h ++ s ∷ []) - n + (length h - n)) (h ++ s ∷ [])
    ≡⟨ ap (λ k. drop k (h ++ s ∷ []))
        (omega (
          arith,
          length-append (last_of n h) (s ∷ []),
          length-last_of n h,
          length-append h (s ∷ []),
        )) ⟩
      last_of n (h ++ s ∷ []) ∎

pub slide-last_of :
    (full : Bool) (i : ℕ) (ring : List Bool) (s : Bool)
    → i < length ring
    → slide full (view_of full i ring) ++ s ∷ []
      ≡ last_of (length ring) (view_of full i ring ++ s ∷ [])
slide-last_of true i ring s h =
    let xs = view_of true i ring in
    let whole : length xs ≡ length ring = length-view true i ring h in
    sym (drop-append 1 xs (s ∷ []) (omega arith))
    ∙ ap (λ k. drop k (xs ++ s ∷ [])) {x = 1} (omega (arith, length-append xs (s ∷ [])))
slide-last_of false i ring s h =
    let xs = view_of false i ring in
    let part : length xs ≡ i = length-view false i ring h in
    ap (λ k. drop k (xs ++ s ∷ [])) {x = 0} (omega (arith, length-append xs (s ∷ [])))

pub next_idx-lt : (n i : ℕ) → i < n → next_idx n i < n
next_idx-lt n i h = mod-lt (u32 (i + 1)) (omega arith)
