-- ===== src/Store/Calendar.antt =====
-- The civil calendar of the package time, in UTC, for the times from 1970 on: the months by which
-- usage.go and policy.go delimit a spend, and the text of a time in a message.
use phlox_gw.Common.{
  ℕ, zero, suc, ◌+◌, ◌-◌, ◌*◌, ◌/◌, ◌%◌, ◌^◌, ◌&&◌, ◌||◌, Bool, not, [], ◌∷◌, ◌++◌, leb, ◌==◌,
  if◌then◌else◌,
}
use phlox_gw.Common.Text.{Text}
use phlox_gw.Store.Types.{Time}

pub record Date : Type 0 where
  pub year : ℕ
  pub month : ℕ
  pub day : ℕ

-- The date of a day, counted from 1 January 1970. Years are counted from 1 March in eras of 400.
unfoldable pub date_of : ℕ → Date
date_of days =
    let era = (days + 719468) / 146097 in
    let doe = (days + 719468) % 146097 in
    let yoe = (doe + doe / 36524 - doe / 1460 - doe / 146096) / 365 in
    let doy = doe + yoe / 100 - 365 * yoe - yoe / 4 in
    let mp = (5 * doy + 2) / 153 in
    let late = leb 10 mp in
    record {
      year = if late then era * 400 + yoe + 1 else era * 400 + yoe;
      month = if late then mp - 9 else mp + 3;
      day = doy + 1 - (153 * mp + 2) / 5;
    }

abbrev pub is_leap : ℕ → Bool
is_leap y = y % 4 == 0 && (not (y % 100 == 0) || y % 400 == 0)

unfoldable pub days_in_month : ℕ → ℕ → ℕ
days_in_month y m =
    if m == 2
    then (if is_leap y then 29 else 28)
    else if m == 4 || m == 6 || m == 9 || m == 11
    then 30
    else 31

-- The start of the month of a time, and that of the month after it.
unfoldable pub month_bounds : Time → Time × Time
unfolding date_of days_in_month
month_bounds t =
    let days = t.sec / 86400 in
    let date = date_of days in
    let first = days + 1 - date.day in
    (
      record { sec = first * 86400; nano = 0 },
      record { sec = (first + days_in_month date.year date.month) * 86400; nano = 0 },
    )

-- `n` in `k` decimal digits.
unfoldable pub padded : ℕ → ℕ → Text
padded zero n = []
padded (suc k) n = (b'0' + n / 10 ^ k % 10) ∷ padded k n

-- t.UTC().Format(time.RFC3339)
unfoldable pub format_rfc3339 : Time → Text
unfolding date_of padded
format_rfc3339 t =
    let date = date_of (t.sec / 86400) in
    let s = t.sec % 86400 in
    padded 4 date.year
    ++ b'-'
      ∷ (padded 2 date.month
          ++ b'-'
            ∷ (padded 2 date.day
                ++ b'T'
                  ∷ (padded 2 (s / 3600)
                      ++ b':'
                        ∷ (padded 2 (s / 60 % 60) ++ b':' ∷ (padded 2 (s % 60) ++ b'Z' ∷ [])))))
