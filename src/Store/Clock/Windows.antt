-- ===== src/Store/Clock/Windows.antt =====
-- Which times a window holds whose bounds are whole seconds, as those of a month are.
use phlox_gw.Common.{
  ◌<◌, ◌≡◌, ◌≢◌, ◌↔◌, ◌⊎◌, inl, inr, true, false, not, ◌&&◌, ◌||◌, arith, ltb, ◌==◌, Bool-cases,
}
use phlox_gw.Store.Types.{Time}
use phlox_gw.Store.Clock.{format_time, text_ltb, time_text_ltb, recorded_since, recorded_in}

-- The time is in a later second than the bound, or it is the bound.
abbrev pub ReachesText : Time → Time → Type 0
ReachesText bound t = (bound.sec < t.sec) ⊎ ((bound.sec ≡ t.sec) × (t.nano ≡ 0))

before_whole :
    (bound t : Time)
    → bound.nano ≡ 0
    → time_text_ltb (format_time t) (format_time bound)
      ≡ (ltb t.sec bound.sec || t.sec == bound.sec && not (t.nano == 0))
unfolding format_time time_text_ltb text_ltb
before_whole bound t whole = elim (Bool-cases (t.nano == 0)) [
  | inl e ↦ ground arith
  | inr e ↦ ground arith
]

-- A window whose bounds are whole seconds holds a time exactly if the time reaches the start and does
-- not reach the end, where a time within the second of a bound reaches it only if it is that bound.
pub recorded_in_iff :
    (start end t : Time)
    → start.nano ≡ 0
    → end.nano ≡ 0
    → (recorded_in start end t ≡ true) ↔ (ReachesText start t × ¬ (ReachesText end t))
unfolding recorded_in recorded_since
recorded_in_iff start end t s e =
    rw (before_whole start t s, before_whole end t e) (window start end t)
  where
    window :
        (start end t : Time)
        → (not (ltb t.sec start.sec || t.sec == start.sec && not (t.nano == 0))
              && (ltb t.sec end.sec || t.sec == end.sec && not (t.nano == 0)))
            ≡ true
          ↔ (ReachesText start t × ¬ (ReachesText end t))
    window start end t = ground arith

-- A time in the first second of a window, but after its start, is not in the window; it is in the
-- window that ends there.
pub recorded_in_first_second :
    (before start end t : Time)
    → before.nano ≡ 0
    → start.nano ≡ 0
    → end.nano ≡ 0
    → before.sec < start.sec
    → start.sec < end.sec
    → t.sec ≡ start.sec
    → t.nano ≢ 0
    → (recorded_in start end t ≡ false) × (recorded_in before start t ≡ true)
recorded_in_first_second before start end t b s e bs se same later = (
  missing (recorded_in_iff start end t s e),
  (recorded_in_iff before start t b s).1 (inl (omega arith), λ r. ground arith),
)
  where
    missing :
        (recorded_in start end t ≡ true) ↔ (ReachesText start t × ¬ (ReachesText end t))
        → recorded_in start end t ≡ false
    missing (to, _) = elim (Bool-cases (recorded_in start end t)) [
      | inl h ↦ absurd (not_reached (to h).0)
      | inr h ↦ h
    ]
      where
        not_reached : ReachesText start t → ⊥
        not_reached r = ground arith
