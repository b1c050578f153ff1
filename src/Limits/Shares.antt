-- ===== src/Limits/Shares.antt =====
-- How much of a PriorityBulkhead of bulkhead.go the actions of each priority take.
use resile.Context.{Context, Priority, low, standard, critical, get_priority}
use resile.Errors.{Err}
use resile.Float.{Milli, milli_float, Float, float_ℕ, ◌≼◌, FloatLaws}
use resile.Limits.Bulkhead.{
  PriorityBulkhead, refused, entered, same_priority, threshold_of, new_priority_bulkhead,
  leave_priority, utilization, enter_priority, new_bulkhead, leave,
}
use resile.Prelude.{
  ◌*◌, leb, ◌/◌, ℕ, zero, suc, ◌+◌, ◌≤◌, ◌<◌, ◌≡◌, refl, sym, ap, ◌∙◌, inl, inr, Bool, true, false,
  List, [], ◌∷◌, ◌++◌, length, arith, Bool-cases, if◌then◌else◌,
}

-- The bulkhead, and the priorities of the actions that run. Each call's tests and select are one
-- step: no other goroutine comes between them.
pub record Shared (F : Type 0) : Type 0 where
  pub bulkhead : PriorityBulkhead F
  pub running : List Priority

abbrev pub number : Priority → List Priority → ℕ
number p [] = 0
number p (q ∷ qs) = if same_priority q p then suc (number p qs) else number p qs

number-le : (p : Priority) (qs : List Priority) → number p qs ≤ length qs
number-le p [] = omega arith
number-le p (q ∷ qs) = ground (arith, number-le p qs)

number-remove :
    (p q : Priority) (xs ys : List Priority) → number p (xs ++ ys) ≤ number p (xs ++ q ∷ ys)
number-remove p q [] ys = ground arith
number-remove p q (x ∷ xs) ys = ground (arith, number-remove p q xs ys)

length-one : (xs ys : List Priority) (q : Priority) → length (xs ++ ys) + 1 ≡ length (xs ++ q ∷ ys)
length-one [] ys q = omega arith
length-one (x ∷ xs) ys q = omega (arith, length-one xs ys q)

-- Of numbers that a channel's length can be, the part of a capacity grows with the number.
pub record ShareLaws (F : Type 0) ⦃f : Float F⦄ : Type 0 where
  pub share_mono :
      (m n c : ℕ)
      → m ≤ n
      → n < 9223372036854775808
      → 0 < c
      → c < 9223372036854775808
      → ◌≼◌ {F = F} (f.div (float_ℕ m) (float_ℕ c)) (f.div (float_ℕ n) (float_ℕ c))

module _ {F : Type 0} ⦃f : Float F⦄ where
  pub data Step : Shared F → Shared F → Type 0 where
    goes_in :
        {y : Shared F} (takes_slot : Bool) (ctx : Context) (now : ℕ) {b : PriorityBulkhead F}
        → enter_priority takes_slot ctx now y.bulkhead ≡ (entered, b)
        → Step y (record { bulkhead = b; running = get_priority ctx ∷ y.running })
    stays_out :
        {y : Shared F} (takes_slot : Bool) (ctx : Context) (now : ℕ) {e : Err}
        {b : PriorityBulkhead F}
        → enter_priority takes_slot ctx now y.bulkhead ≡ (refused e, b)
        → Step y (record y { bulkhead = b })
    comes_out :
        {y : Shared F} (before after : List Priority) (p : Priority)
        → y.running ≡ before ++ p ∷ after
        → Step y (record { bulkhead = leave_priority y.bulkhead; running = before ++ after })

  pub data Steps : Shared F → Shared F → Type 0 where
    done : {y : Shared F} → Steps y y
    more : {x y z : Shared F} → Steps x y → Step y z → Steps x z

  -- A call goes in only below its priority's threshold, and takes one slot.
  enter_priority-entered :
      (takes_slot : Bool) (ctx : Context) (now : ℕ) (b c : PriorityBulkhead F)
      → enter_priority takes_slot ctx now b ≡ (entered, c)
      → let t = threshold_of (float_ℕ 1) (get_priority ctx) b.thresholds in
        (f.le t (utilization b) ≡ false)
        × (b.semaphore.held < b.semaphore.capacity)
        × (c.thresholds ≡ b.thresholds)
        × (c.semaphore.capacity ≡ b.semaphore.capacity)
        × (c.semaphore.held ≡ b.semaphore.held + 1)
  unfolding enter_priority
  enter_priority-entered takes_slot ctx now b c e = ground arith

  enter_priority-refused :
      (takes_slot : Bool) (ctx : Context) (now : ℕ) (b c : PriorityBulkhead F) (x : Err)
      → enter_priority takes_slot ctx now b ≡ (refused x, c)
      → c ≡ b
  unfolding enter_priority
  enter_priority-refused takes_slot ctx now b c x e = ground arith

  -- Of so many running actions of a priority, all but the last are a part of the capacity below the
  -- threshold; nothing is said of none.
  abbrev pub Below : ℕ → F → ℕ → Type 0
  Below c t zero = Unit {0}
  Below c t (suc n) = f.le t (f.div (float_ℕ n) (float_ℕ c)) ≡ false

  abbrev limit_of : List (Priority × F) → Priority → F
  limit_of ts p = threshold_of (float_ℕ 1) p ts

  record IsShared (c : ℕ) (ts : List (Priority × F)) (y : Shared F) : Type 0 where
    capacity : y.bulkhead.semaphore.capacity ≡ c
    thresholds : y.bulkhead.thresholds ≡ ts
    held : y.bulkhead.semaphore.held ≡ length y.running
    bounded : length y.running ≤ c
    below : (p : Priority) → Below c (limit_of ts p) (number p y.running)

  module _ (laws : FloatLaws F) (shares : ShareLaws F) (c : ℕ)
      (small : c < 9223372036854775808) where
    Below-le :
        (t : F) (m n : ℕ)
        → m ≤ n
        → n < c
        → f.le t (f.div (float_ℕ n) (float_ℕ c)) ≡ false
        → f.le t (f.div (float_ℕ m) (float_ℕ c)) ≡ false
    Below-le t m n h inside e = elim (Bool-cases (f.le t (f.div (float_ℕ m) (float_ℕ c)))) [
      | inr fine ↦ fine
      | inl high ↦
          let over =
            laws.le_trans t (f.div (float_ℕ m) (float_ℕ c)) (f.div (float_ℕ n) (float_ℕ c)) high
              (shares.share_mono m n c h (omega arith) (omega arith) small) in
          absurd (true-ne-false (sym over ∙ e))
    ]
      where
        true-ne-false : true ≡ false → ⊥
        true-ne-false k = ground (arith, k)

    fewer-Below : (t : F) (m n : ℕ) → m ≤ n → n ≤ c → Below c t n → Below c t m
    fewer-Below t zero n h inside b = tt
    fewer-Below t (suc m) zero h inside b = absurd (omega arith)
    fewer-Below t (suc m) (suc n) h inside b = Below-le t m n (omega arith) (omega arith) b

    one_more-Below :
        (ts : List (Priority × F)) (p q : Priority) (qs : List Priority)
        → length qs < c
        → f.le (limit_of ts q) (f.div (float_ℕ (length qs)) (float_ℕ c)) ≡ false
        → Below c (limit_of ts p) (number p qs)
        → Below c (limit_of ts p) (number p (q ∷ qs))
    one_more-Below ts low low qs h e b =
        Below-le (limit_of ts low) (number low qs) (length qs) (number-le low qs) h e
    one_more-Below ts standard standard qs h e b =
        Below-le (limit_of ts standard) (number standard qs) (length qs) (number-le standard qs) h e
    one_more-Below ts critical critical qs h e b =
        Below-le (limit_of ts critical) (number critical qs) (length qs) (number-le critical qs) h e
    one_more-Below ts low standard qs h e b = b
    one_more-Below ts low critical qs h e b = b
    one_more-Below ts standard low qs h e b = b
    one_more-Below ts standard critical qs h e b = b
    one_more-Below ts critical low qs h e b = b
    one_more-Below ts critical standard qs h e b = b

    Step-IsShared :
        (ts : List (Priority × F)) {y z : Shared F} → Step y z → IsShared c ts y → IsShared c ts z
    unfolding leave_priority leave utilization
    Step-IsShared ts {y = y} (goes_in takes_slot ctx now {b = b} e) v =
        let (low_enough, free, same, cap_, one) =
          enter_priority-entered takes_slot ctx now y.bulkhead b e in
        record {
          capacity = cap_ ∙ v.capacity;
          thresholds = same ∙ v.thresholds;
          held = omega (arith, one, v.held);
          bounded = omega (arith, free, v.held, v.capacity);
          below = λ p.
              one_more-Below ts p (get_priority ctx) y.running
                (omega (arith, free, v.held, v.capacity))
                (rw (v.thresholds, v.held, v.capacity) at low_enough) (v.below p);
        }
    Step-IsShared ts {y = y} (stays_out takes_slot ctx now {e = x} {b = b} e) v =
        let k = enter_priority-refused takes_slot ctx now y.bulkhead b x e in
        record {
          capacity = rw k v.capacity;
          thresholds = rw k v.thresholds;
          held = rw k v.held;
          bounded = v.bounded;
          below = v.below;
        }
    Step-IsShared ts {y = y} (comes_out before after q e) v =
        let fewer = length-one before after q in
        record {
          capacity = v.capacity;
          thresholds = v.thresholds;
          held = omega (arith, v.held, ap length e, fewer);
          bounded = omega (arith, v.bounded, ap length e, fewer);
          below = λ p.
              fewer-Below (limit_of ts p) (number p (before ++ after)) (number p y.running)
                (omega (arith, number-remove p q before after, ap (number p) e))
                (omega (arith, number-le p y.running, v.bounded)) (v.below p);
        }

    Steps-IsShared :
        (ts : List (Priority × F)) {y z : Shared F} → Steps y z → IsShared c ts y → IsShared c ts z
    Steps-IsShared ts done v = v
    Steps-IsShared ts (more r st) v = Step-IsShared ts st (Steps-IsShared ts r v)

    new-IsShared :
        (ts : List (Priority × F))
        → IsShared c ts (record { bulkhead = new_priority_bulkhead c ts; running = [] })
    unfolding new_priority_bulkhead new_bulkhead
    new-IsShared ts = record {
      capacity = refl;
      thresholds = refl;
      held = refl;
      bounded = omega arith;
      below = λ p. tt;
    }

    -- However calls of any priorities enter, are refused and leave (by a panic too), each of them
    -- with no other between its tests and its select: a PriorityBulkhead of less than 2^63 slots never
    -- has more actions running than slots, its semaphore holds as many tokens as actions run, and
    -- where n + 1 of the running actions have one priority, n divided by the slots is below that
    -- priority's threshold (1, if the map has none).
    pub number-Below :
        (ts : List (Priority × F)) (y : Shared F)
        → Steps (record { bulkhead = new_priority_bulkhead c ts; running = [] }) y
        → (length y.running ≤ c)
          × (y.bulkhead.semaphore.held ≡ length y.running)
          × ((p : Priority) → Below c (threshold_of (float_ℕ 1) p ts) (number p y.running))
    number-Below ts y r =
        let v = Steps-IsShared ts r (new-IsShared ts) in (v.bounded, v.held, v.below)

quotient_mono : (a b c : ℕ) → a ≤ b → 0 < c → a / c ≤ b / c
quotient_mono a b c h pos_ = grind arith

pub Milli-ShareLaws : ShareLaws Milli
Milli-ShareLaws = record {
  share_mono = λ m n c h small c0 cs.
      share_mono_lem m n c
        (quotient_mono (m * 1000 * 1000) (n * 1000 * 1000) (c * 1000) (omega arith) (omega arith));
}
  where
    share_mono_lem :
        (m n c : ℕ)
        → m * 1000 * 1000 / (c * 1000) ≤ n * 1000 * 1000 / (c * 1000)
        → leb (m * 1000 * 1000 / (c * 1000)) (n * 1000 * 1000 / (c * 1000)) ≡ true
    share_mono_lem m n c h = ground arith
