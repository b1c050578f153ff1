-- ===== src/Circuit/System.antt =====
-- The breaker of circuit/breaker.go under calls that overlap: each call is two critical sections,
-- and the calls of other goroutines come between them in any order.
use resile.Circuit.State.{State, Breaker}
use resile.Circuit.Breaker.{refused, admitted, reset, state_of, begin, finish}
use resile.Errors.{Err}
use resile.Float.{Float}
use resile.Prelude.{ℕ, ◌+◌, ◌≤◌, ◌≡◌, Bool, true, Option, none, List, [], ◌∷◌, ◌++◌, length, arith}

-- The breaker, and the states in which the calls that now run were admitted.
pub record System (F : Type 0) : Type 0 where
  pub breaker : Breaker F
  pub running : List State

-- One critical section, at the instant `now`; `by_hand` says whether `Reset` may be called. A call
-- whose action panics ends without the second section.
module _ {F : Type 0} ⦃f : Float F⦄ where
  pub data Step (by_hand : Bool) (now : ℕ) : System F → System F → Type 0 where
    enter :
        {y : System F} {s : State} {b : Breaker F}
        → begin none now y.breaker ≡ (admitted s, b)
        → Step by_hand now y (record { breaker = b; running = s ∷ y.running })
    turn_away :
        {y : System F} (done : Option Err) {e : Err} {b : Breaker F}
        → begin done now y.breaker ≡ (refused e, b)
        → Step by_hand now y (record y { breaker = b })
    leave :
        {y : System F} (before after : List State) (s : State) (err : Option Err)
        → y.running ≡ before ++ s ∷ after
        → Step by_hand now y
            (record { breaker = finish s err now y.breaker; running = before ++ after })
    crash :
        {y : System F} (before after : List State) (s : State)
        → y.running ≡ before ++ s ∷ after
        → Step by_hand now y (record y { running = before ++ after })
    query : {y : System F} → Step by_hand now y (record y { breaker = (state_of now y.breaker).1 })
    by_reset :
        {y : System F}
        → by_hand ≡ true
        → Step by_hand now y (record y { breaker = reset now y.breaker })

  -- Any number of steps, none of them later than `limit`.
  pub data Steps (by_hand : Bool) (limit : ℕ) : System F → System F → Type 0 where
    done : {y : System F} → Steps by_hand limit y y
    more :
        {x y z : System F} {now : ℕ}
        → Steps by_hand limit x y
        → now ≤ limit
        → Step by_hand now y z
        → Steps by_hand limit x z

abbrev pub All : (State → Type 0) → List State → Type 0
All P [] = Unit {0}
All P (s ∷ ss) = P s × All P ss

pub All-remove :
    (P : State → Type 0) (xs ys : List State) (s : State) → All P (xs ++ s ∷ ys) → All P (xs ++ ys)
All-remove P [] ys s h = h.1
All-remove P (x ∷ xs) ys s h = (h.0, All-remove P xs ys s h.1)

pub All-at : (P : State → Type 0) (xs ys : List State) (s : State) → All P (xs ++ s ∷ ys) → P s
All-at P [] ys s h = h.0
All-at P (x ∷ xs) ys s h = All-at P xs ys s h.1

pub length-remove : (xs ys : List State) (s : State) → length (xs ++ ys) + 1 ≡ length (xs ++ s ∷ ys)
length-remove [] ys s = omega arith
length-remove (x ∷ xs) ys s = omega (arith, length-remove xs ys s)
