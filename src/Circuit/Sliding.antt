-- ===== src/Circuit/Sliding.antt =====
-- The count-based window of circuit/breaker.go against its specification, the last N outcomes.
use resile.Circuit.State.{count_based, Breaker}
use resile.Circuit.Window.{
  u64, record_count_based, record_outcome, clear_window, get_stats, clear_as, stats_as,
}
use mathlib.Core.List.{append-nil, append_assoc}
use resile.Circuit.Ring.{
  view_of, count_false, last_of, next_idx, next_full, slide, view_of-next, length-view,
  count_false-slide, length-slide, count_false-snoc, count_false-le, last_of-snoc, slide-last_of,
  next_idx-lt,
}
use resile.Prelude.{
  ℕ, map, length-map, ◌+◌, ◌-◌, ◌<◌, ◌≡◌, refl, sym, ap, ◌∙◌, Bool, true, false, List, [], ◌∷◌,
  ◌++◌, arith, length, set, length-append, length-set, drop_all, if◌then◌else◌,
}

abbrev pub view : {F : Type 0} → Breaker F → List Bool
view b = view_of b.ring_full b.ring_idx b.ring

pub record IsCounting {F : Type 0} (b : Breaker F) : Type 0 where
  pub small : length b.ring < 4294967296
  pub in_ring : b.ring_idx < length b.ring
  pub total_counts : b.total ≡ length (view b)
  pub failures_count : b.failures ≡ count_false (view b)

length-blank : (xs : List Bool) → length (map (λ (_ : Bool). false) xs) ≡ length xs
length-blank xs = length-map xs _

module _ {F : Type 0} where
  ring-record : (s : Bool) (b : Breaker F) → (record_count_based s b).ring ≡ set b.ring b.ring_idx s
  unfolding record_count_based
  ring-record s b = ground arith

  idx-record :
      (s : Bool) (b : Breaker F)
      → (record_count_based s b).ring_idx ≡ next_idx (length b.ring) b.ring_idx
  unfolding record_count_based
  idx-record s b = ground (arith, length-set b.ring b.ring_idx s)

  full-record :
      (s : Bool) (b : Breaker F)
      → (record_count_based s b).ring_full ≡ next_full (length b.ring) b.ring_idx b.ring_full
  unfolding record_count_based
  full-record s b = ground (arith, length-set b.ring b.ring_idx s)

  total-record :
      (s : Bool) (b : Breaker F)
      → (record_count_based s b).total ≡ (if b.ring_full then b.total else u64 (b.total + 1))
  unfolding record_count_based
  total-record s b = ground arith

  view-record :
      (s : Bool) (b : Breaker F)
      → IsCounting b
      → view (record_count_based s b) ≡ slide b.ring_full (view b) ++ s ∷ []
  view-record s b v =
      rw (ring-record s b, idx-record s b, full-record s b)
        (view_of-next b.ring_full b.ring_idx b.ring s v.small v.in_ring)

  failures-record_of :
      (s full : Bool) (b : Breaker F)
      → b.ring_full ≡ full
      → IsCounting b
      → (record_count_based s b).failures ≡ count_false (slide full (view b)) + (if s then 0 else 1)
  unfolding record_count_based
  failures-record_of s true b e v = ground (
    arith,
    count_false-le (view_of true b.ring_idx b.ring),
    length-view true b.ring_idx b.ring v.in_ring,
    count_false-slide b.ring_idx b.ring v.in_ring,
  )
  failures-record_of s false b e v = ground (
    arith,
    count_false-le (view_of false b.ring_idx b.ring),
    length-view false b.ring_idx b.ring v.in_ring,
  )

  total-record_of :
      (s full : Bool) (b : Breaker F)
      → b.ring_full ≡ full
      → IsCounting b
      → (record_count_based s b).total ≡ length (slide full (view b) ++ s ∷ [])
  total-record_of s true b e v = ground (
    arith,
    total-record s b,
    length-append (slide true (view b)) (s ∷ []),
    length-slide b.ring_idx b.ring v.in_ring,
    length-view true b.ring_idx b.ring v.in_ring,
  )
  total-record_of s false b e v = ground (
    arith,
    total-record s b,
    length-append (view b) (s ∷ []),
    length-view false b.ring_idx b.ring v.in_ring,
  )

  pub record-IsCounting :
      (s : Bool) (b : Breaker F) → IsCounting b → IsCounting (record_count_based s b)
  record-IsCounting s b v = record {
    small = rw (ring-record s b, length-set b.ring b.ring_idx s) v.small;
    in_ring =
        rw (ring-record s b, idx-record s b, length-set b.ring b.ring_idx s)
          (next_idx-lt (length b.ring) b.ring_idx v.in_ring);
    total_counts = rw (view-record s b v) (total-record_of s b.ring_full b refl v);
    failures_count =
        rw (view-record s b v, count_false-snoc (slide b.ring_full (view b)) s)
          (failures-record_of s b.ring_full b refl v);
  }

  -- The outcomes of a list recorded one after the other, the first first.
  abbrev pub record_all : ℕ → List Bool → Breaker F → Breaker F
  record_all now [] b = b
  record_all now (s ∷ hs) b = record_all now hs (record_outcome s now b)

  record_outcome-count :
      (s : Bool) (now : ℕ) (b : Breaker F)
      → b.config.window_type ≡ count_based
      → record_outcome s now b ≡ record_count_based s b
  unfolding record_outcome
  record_outcome-count s now b e = rw e

  config-record : (s : Bool) (b : Breaker F) → (record_count_based s b).config ≡ b.config
  unfolding record_count_based
  config-record s b = ground arith

  -- What the window of a breaker shows of a history, once the outcomes of a list are recorded.
  pub record Shows (b : Breaker F) (h : List Bool) (n : ℕ) : Type 0 where
    pub counting : IsCounting b
    pub slots : length b.ring ≡ n
    pub by_count : b.config.window_type ≡ count_based
    pub shown : view b ≡ last_of n h

  pub record-Shows :
      (s : Bool) (now : ℕ) (b : Breaker F) (h : List Bool) (n : ℕ)
      → Shows b h n
      → Shows (record_outcome s now b) (h ++ s ∷ []) n
  record-Shows s now b h n v = rw (record_outcome-count s now b v.by_count) (record {
    counting = record-IsCounting s b v.counting;
    slots = rw (ring-record s b, length-set b.ring b.ring_idx s) v.slots;
    by_count = rw (config-record s b) v.by_count;
    shown =
        view-record s b v.counting
        ∙ slide-last_of b.ring_full b.ring_idx b.ring s v.counting.in_ring
        ∙ rw (v.slots, v.shown) (last_of-snoc n h s);
  })

  record_all-Shows :
      (hs : List Bool) (now : ℕ) (b : Breaker F) (h : List Bool) (n : ℕ)
      → Shows b h n
      → Shows (record_all now hs b) (h ++ hs) n
  record_all-Shows [] now b h n v = rw append-nil v
  record_all-Shows (s ∷ hs) now b h n v = rw (append_assoc h (s ∷ []) hs) at (
      record_all-Shows hs now (record_outcome s now b) (h ++ s ∷ []) n (record-Shows s now b h n v))

  clear-Shows :
      (b : Breaker F)
      → b.config.window_type ≡ count_based
      → 0 < length b.ring
      → length b.ring < 4294967296
      → Shows (clear_window b) [] (length b.ring)
  unfolding clear_window
  clear-Shows b e some_slot small = rw (ap (λ t. clear_as t b) e) (record {
    counting = record {
      small = rw (length-blank b.ring) small;
      in_ring = rw (length-blank b.ring) some_slot;
      total_counts = refl;
      failures_count = refl;
    };
    slots = length-blank b.ring;
    by_count = e;
    shown = sym (drop_all (0 - length b.ring) [] (omega arith));
  })

  -- A count-based window with n slots (1 <= n < 2^32) that is cleared and then records a list of
  -- outcomes counts exactly the last n of them: the total is how many these are, and the failures
  -- are how many of these failed.
  pub get_stats-record_all :
      (b : Breaker F) (hs : List Bool) (now later : ℕ)
      → b.config.window_type ≡ count_based
      → 0 < length b.ring
      → length b.ring < 4294967296
      → let seen = last_of (length b.ring) hs in
        let stats = get_stats later (record_all now hs (clear_window b)) in
        (stats.0 ≡ length seen) × (stats.1 ≡ count_false seen)
  unfolding get_stats
  get_stats-record_all b hs now later e some_slot small =
      let v =
        record_all-Shows hs now (clear_window b) [] (length b.ring)
          (clear-Shows b e some_slot small) in
      rw (ap (λ t. stats_as t later (record_all now hs (clear_window b))) v.by_count) (
        v.counting.total_counts ∙ ap length v.shown,
        v.counting.failures_count ∙ ap count_false v.shown,
      )
