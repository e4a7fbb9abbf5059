-- ===== src/Budgets/Window/Holds.antt =====
-- An instant lies in its window.
use portico_gateway.Base.{
  ℕ, zero, suc, ◌+◌, ◌-◌, ◌*◌, ◌/◌, ◌≤◌, ◌<◌, some, List, [], ◌∷◌, ◌≡◌, refl, inl, inr, subst, sym,
  arith, ltb, ltb→lt, GoString, Bool-cases, Option-cases,
}
use portico_gateway.Budgets.Window.{
  Window, day, rolling_duration, bucket_window, rolling_window, year_length, year_from,
  month_lengths, month_from, year_of, month_of, monday, spanning, calendar_window, window_for,
}

-- The instant is not before the start and before the reset.
abbrev pub Within : ℕ → Window → Type 0
Within now w = (w.start ≤ now) × (now < w.resets_at)

rolling_window-Within :
    (now : ℕ) (period : GoString) (w : Window) → rolling_window now period ≡ some w → Within now w
unfolding rolling_window rolling_duration bucket_window
rolling_window-Within now period w h = (ground arith, ground arith)

year_length-pos : (y : ℕ) → 365 ≤ year_length y
unfolding year_length
year_length-pos y = ground arith

year_from-lt :
    (f y d : ℕ) → d < 365 * f → let (y', d') = year_from f y d in (d' ≤ d) × (d' < year_length y')
unfolding year_from
year_from-lt zero y d h = absurd (omega (arith, h))
year_from-lt (suc f) y d h = elim (Bool-cases (ltb d (year_length y))) [
  | inl e ↦ rw e (omega arith, ltb→lt d (year_length y) e)
  | inr e ↦
      let le : year_length y ≤ d = ground arith in
      let (a, b) =
        year_from-lt f (y + 1) (d - year_length y) (omega (arith, year_length-pos y, h, le)) in
      rw e (omega (arith, a), b)
]

year_of-lt : (days : ℕ) → let (y, d) = year_of days in (d ≤ days) × (d < year_length y)
unfolding year_of
year_of-lt days = year_from-lt (suc (days / 365)) 1970 days (omega arith)

month_from-lt :
    (m : ℕ) (ns : List ℕ) (d : ℕ)
    → let r = month_from m ns d in (r.day_in ≤ d) × (r.day_in < r.length)
unfolding month_from
month_from-lt m [] d = (omega arith, omega arith)
month_from-lt m (n ∷ ns) d = elim (Bool-cases (ltb d n)) [
  | inl e ↦ rw e (omega arith, ltb→lt d n e)
  | inr e ↦ let (a, b) = month_from-lt (m + 1) ns (d - n) in rw e (omega (arith, a), b)
]

month_of-lt : (days : ℕ) → let r = month_of days in (r.day_in ≤ days) × (r.day_in < r.length)
unfolding month_of
month_of-lt days =
    let (y, d) = year_of days in
    let (a, b) = month_from-lt 1 (month_lengths y) d in (omega (arith, a, (year_of-lt days).0), b)

calendar_window-Within :
    (now : ℕ) (period : GoString) (w : Window) → calendar_window now period ≡ some w → Within now w
unfolding calendar_window spanning monday
calendar_window-Within now period w h =
    let m = month_of-lt (now / day) in
    let y = year_of-lt (now / day) in
    (ground (arith, m.0, m.1, y.0, y.1), ground (arith, m.0, m.1, y.0, y.1))

-- Whatever the period and the alignment, an instant lies in the window that it is given: not before
-- its start, and before its reset.
pub window_for-Within :
    (now : ℕ) (period alignment : GoString) (w : Window)
    → window_for now period alignment ≡ some w
    → Within now w
unfolding window_for
window_for-Within now period alignment w h =
    ground (arith, calendar_window-Within now period w, rolling_window-Within now period w)

same_bucket :
    (now other secs : ℕ) (period : GoString)
    → rolling_duration period ≡ some secs
    → now / secs * secs ≤ other
    → other < now / secs * secs + secs
    → other / secs ≡ now / secs
unfolding rolling_duration
same_bucket now other secs period e lo hi = ground arith

same_window :
    (now other secs : ℕ) (period : GoString)
    → other / secs ≡ now / secs
    → bucket_window period other secs ≡ bucket_window period now secs
unfolding bucket_window
same_window now other secs period e = rw e refl

-- Every instant of a rolling window has that window: the windows of a period tile the time.
pub rolling_window_tiles :
    (now other : ℕ) (period : GoString) (w : Window)
    → rolling_window now period ≡ some w
    → Within other w
    → rolling_window other period ≡ some w
unfolding rolling_window
rolling_window_tiles now other period w h i = elim (Option-cases (rolling_duration period)) [
  | inl e ↦ absurd (ground arith)
  | inr (secs, e) ↦
      let v : bucket_window period now secs ≡ w = ground arith in
      let j : Within other (bucket_window period now secs) = subst (Within other) (sym v) i in
      let b =
        same_bucket now other secs period e (unfold bucket_window in j.0)
          (unfold bucket_window in j.1) in
      ground (arith, e, v, same_window now other secs period b)
]
