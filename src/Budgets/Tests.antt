-- ===== src/Budgets/Tests.antt =====
-- Windows of 2026, and a budget of two requests a day.

use portico_gateway.Base.{
  ℕ, ◌+◌, some, [], ◌∷◌, ◌≡◌, ◌↔◌, refl, codes, str_eq, Memᴰ, ltb, leb, decimal,
}
use portico_gateway.Budgets.Window.{
  Window, rolling_duration, bucket_window, rolling_window, is_leap, year_length, year_from,
  month_lengths, month_from, year_of, month_of, format_year, format_month, format_day, format_hour,
  format_minute, spanning, monday, calendar_window, window_for,
}
use portico_gateway.Budgets.Window.Holds.{Within, window_for-Within}
use portico_gateway.Budgets.Enforcer.{
  Scope, Float, Usage, metric, Budget, Violation, Store, headroom, violates, used_for, compare_used,
  check_window, check_budget, and_then, check_budgets, check_scope, pre_check,
}
use portico_gateway.Budgets.Enforcer.Room.{ScopeHasRoom, pre_check_iff}

-- 26 November 2026, a Thursday, at 05:12:30.
abbrev now : ℕ
now = 1795669950

month :
    window_for now (codes "1M") (codes "calendar")
    ≡ some (record { key = codes "cal:1M:2026-11"; start = 1793491200; resets_at = 1796083200 })
unfolding window_for calendar_window month_of year_of year_from month_from month_lengths year_length
    is_leap format_month format_year spanning str_eq
month = refl

week :
    window_for now (codes "1w") (codes "calendar")
    ≡ some (record { key = codes "cal:1w:2026-11-23"; start = 1795392000; resets_at = 1795996800 })
unfolding window_for calendar_window monday month_of year_of year_from month_from month_lengths
    year_length is_leap format_day format_month format_year spanning str_eq
week = refl

minute :
    window_for now (codes "1m") (codes "calendar")
    ≡ some (record {
      key = codes "cal:1m:2026-11-26T05:12";
      start = 1795669920;
      resets_at = 1795669980;
    })
unfolding window_for calendar_window month_of year_of year_from month_from month_lengths year_length
    is_leap format_minute format_hour format_day format_month format_year spanning str_eq
minute = refl

abbrev today : Window
today = record { key = codes "roll:1d:20783"; start = 1795651200; resets_at = 1795737600 }

rolls : rolling_window now (codes "1d") ≡ some today
unfolding rolling_window rolling_duration bucket_window decimal str_eq
rolls = refl

rolls_for : window_for now (codes "1d") (codes "rolling") ≡ some today
unfolding window_for str_eq
rolls_for = rolls

window_for-Within_example : Within now today
window_for-Within_example = window_for-Within now (codes "1d") (codes "rolling") today rolls_for

abbrev counts : Float
counts = record {
  Carrier = ℕ;
  zero = 0;
  add = λ a b. a + b;
  greater = λ a b. ltb b a;
  at_most = λ a b. leb a b;
}

abbrev two_a_day : Budget counts
two_a_day = record {
  id = codes "b1";
  metric = codes "requests";
  period = codes "1d";
  alignment = codes "rolling";
  limit_val = 2;
}

abbrev books : Store counts
books = record {
  list_budgets_by_scope = λ t k i. some (two_a_day ∷ []);
  get_ledger = λ t b w. some (some 2);
}

abbrev one : Usage counts
one = record { requests = 1; tokens = 0; cost_usd = 0 }

abbrev team : Scope
team = record { kind = codes "team"; id = codes "t1" }

abbrev over : Violation counts
over = record {
  level = codes "team";
  metric = codes "requests";
  budget_id = codes "b1";
  limit = 2;
  used = 2;
  would = 3;
}

refuses : pre_check counts books (codes "acme") now one (team ∷ []) ≡ violates over
unfolding pre_check check_scope check_budgets and_then check_budget check_window compare_used
    used_for metric window_for rolling_window rolling_duration bucket_window decimal str_eq
refuses = refl

pre_check_iff_example :
    (pre_check counts books (codes "acme") now one (team ∷ []) ≡ headroom)
    ↔ ((sc : Scope) → Memᴰ sc (team ∷ []) → ScopeHasRoom counts books (codes "acme") now one sc)
pre_check_iff_example = pre_check_iff counts books (codes "acme") now one (team ∷ [])
