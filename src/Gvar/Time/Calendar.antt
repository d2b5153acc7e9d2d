-- ===== src/Gvar/Time/Calendar.antt =====
-- The month and its day in src/libgvar/cdaTime.cpp.
use qjhart_geostreams.Prelude.{
  ℕ, zero, suc, ◌+◌, ◌-◌, ◌%◌, ◌<◌, ◌≤◌, ◌≡◌, refl, sym, ap, subst, ◌∙◌, arith, ltb, leb, ◌||◌,
  ◌&&◌, ◌==◌, Option, none, some, Bool, true, false, List, [], ◌∷◌, get_or, if◌then◌else◌,
}

-- What the loop over the months comes to: a number, -1, or `exit`.
pub data Found : Type 0 where
  is : ℕ → Found
  minus_one exits : Found

-- `getNumOfDaysInMonth`; any other month ends the program.
unfoldable pub num_of_days_in_month : ℕ → ℕ → Option ℕ
num_of_days_in_month month year =
    if month == 2
    then (if year % 4 == 0 then some 29 else some 28)
    else if month == 4 || (month == 6 || (month == 9 || month == 11))
    then some 30
    else if leb 1 month && leb month 12
    then some 31
    else none

-- A round of the loops: past the days of the month, or the answer.
abbrev round : Option ℕ → ℕ → Found → (ℕ → Found) → Found
round none numofdays answer next = exits
round (some days) numofdays answer next =
    if ltb numofdays days then answer else next (numofdays - days)

-- The loop of `month`, from the month `m`, where `numofdays` is not negative yet.
unfoldable pub month_from : ℕ → ℕ → ℕ → ℕ → Found
month_from zero m year numofdays = minus_one
month_from (suc rounds) m year numofdays =
    round (num_of_days_in_month m year) numofdays (is m) (month_from rounds (m + 1) year)

unfoldable pub month : ℕ → ℕ → Found
month year day = month_from 12 1 year day

-- The loop of `dayofmonth`.
unfoldable pub dayofmonth_from : ℕ → ℕ → ℕ → ℕ → Found
dayofmonth_from zero m year numofdays = minus_one
dayofmonth_from (suc rounds) m year numofdays =
    round (num_of_days_in_month m year) numofdays (is numofdays)
      (dayofmonth_from rounds (m + 1) year)

unfoldable pub dayofmonth : ℕ → ℕ → Found
dayofmonth year day = dayofmonth_from 12 1 year day

-- The calendar, from January on: every fourth year has a February of 29 days.
abbrev pub month_lengths : ℕ → List ℕ
month_lengths year =
    31 ∷ (if year % 4 == 0 then 29 else 28) ∷ 31 ∷ 30 ∷ 31 ∷ 30 ∷ 31 ∷ 31 ∷ 30 ∷ 31 ∷ 30 ∷ 31 ∷ []

-- The length of the month `m`, and of `count` months from `m` on, in that calendar.
abbrev pub days_of : ℕ → ℕ → ℕ
days_of m year = get_or (month_lengths year) (m - 1) 0

abbrev pub days_between : ℕ → ℕ → ℕ → ℕ
days_between m zero year = 0
days_between m (suc count) year = days_of m year + days_between (m + 1) count year

some_if : (b : Bool) (x y : ℕ) → (if b then some x else some y) ≡ some (if b then x else y)
some_if true x y = refl
some_if false x y = refl

real_month : (m year : ℕ) → 1 ≤ m → m ≤ 12 → num_of_days_in_month m year ≡ some (days_of m year)
unfolding num_of_days_in_month
real_month zero year lo hi = absurd (omega arith)
real_month (suc zero) year lo hi = refl
real_month (suc (suc zero)) year lo hi = some_if (year % 4 == 0) 29 28
real_month (suc (suc (suc zero))) year lo hi = refl
real_month (suc (suc (suc (suc zero)))) year lo hi = refl
real_month (suc (suc (suc (suc (suc zero))))) year lo hi = refl
real_month (suc (suc (suc (suc (suc (suc zero)))))) year lo hi = refl
real_month (suc (suc (suc (suc (suc (suc (suc zero))))))) year lo hi = refl
real_month (suc (suc (suc (suc (suc (suc (suc (suc zero)))))))) year lo hi = refl
real_month (suc (suc (suc (suc (suc (suc (suc (suc (suc zero))))))))) year lo hi = refl
real_month (suc (suc (suc (suc (suc (suc (suc (suc (suc (suc zero)))))))))) year lo hi = refl
real_month (suc (suc (suc (suc (suc (suc (suc (suc (suc (suc (suc zero))))))))))) year lo hi = refl
real_month (suc (suc (suc (suc (suc (suc (suc (suc (suc (suc (suc (suc zero)))))))))))) year lo hi =
    refl
real_month (suc (suc (suc (suc (suc (suc (suc (suc (suc (suc (suc (suc (suc m))))))))))))) year lo
      hi =
    absurd (omega arith)

stops :
    (o : Option ℕ) (d n : ℕ) (answer : Found) (next : ℕ → Found)
    → o ≡ some d
    → n < d
    → round o n answer next ≡ answer
stops o d n answer next e h = rw e (ground arith)

goes_on :
    (o : Option ℕ) (d n : ℕ) (answer : Found) (next : ℕ → Found)
    → o ≡ some d
    → d ≤ n
    → round o n answer next ≡ next (n - d)
goes_on o d n answer next e h = rw e (ground arith)

month_from-is :
    (rounds m count year k : ℕ)
    → count < rounds
    → 1 ≤ m
    → m + count ≤ 12
    → k < days_of (m + count) year
    → (month_from rounds m year (days_between m count year + k) ≡ is (m + count))
      × (dayofmonth_from rounds m year (days_between m count year + k) ≡ is k)
unfolding month_from dayofmonth_from
month_from-is zero m count year k lt lo hi h = absurd (omega arith)
month_from-is (suc rounds) m zero year k lt lo hi h =
    let o = num_of_days_in_month m year in
    let e = real_month m year lo (omega arith) in
    let z : m + 0 ≡ m = omega arith in
    let w : 0 + k ≡ k = omega arith in
    let h' : k < days_of m year = subst (λ a. k < days_of a year) z h in
    rw (z, w)
      (
        stops o (days_of m year) k (is m) (month_from rounds (m + 1) year) e h',
        stops o (days_of m year) k (is k) (dayofmonth_from rounds (m + 1) year) e h',
      )
month_from-is (suc rounds) m (suc count) year k lt lo hi h =
    let o = num_of_days_in_month m year in
    let d = days_of m year in
    let n = d + days_between (m + 1) count year + k in
    let z : m + suc count ≡ m + 1 + count = omega arith in
    let e = real_month m year lo (omega arith) in
    let left : n - d ≡ days_between (m + 1) count year + k = omega arith in
    let month_next = month_from rounds (m + 1) year in
    let day_next = dayofmonth_from rounds (m + 1) year in
    let (a, b) =
      month_from-is rounds (m + 1) count year k (omega arith) (omega arith) (omega arith)
        (subst (λ a. k < days_of a year) z h) in
    (
      goes_on o d n (is m) month_next e (omega arith) ∙ ap month_next left ∙ a ∙ ap is (sym z),
      goes_on o d n (is n) day_next e (omega arith) ∙ ap day_next left ∙ b,
    )

month_from-minus_one :
    (rounds m year n : ℕ)
    → 1 ≤ m
    → m + rounds ≡ 13
    → days_between m rounds year ≤ n
    → (month_from rounds m year n ≡ minus_one) × (dayofmonth_from rounds m year n ≡ minus_one)
unfolding month_from dayofmonth_from
month_from-minus_one zero m year n lo e h = (refl, refl)
month_from-minus_one (suc rounds) m year n lo e h =
    let o = num_of_days_in_month m year in
    let d = days_of m year in
    let i = real_month m year lo (omega arith) in
    let (a, b) =
      month_from-minus_one rounds (m + 1) year (n - d) (omega arith) (omega arith) (omega arith) in
    (
      goes_on o d n (is m) (month_from rounds (m + 1) year) i (omega arith) ∙ a,
      goes_on o d n (is n) (dayofmonth_from rounds (m + 1) year) i (omega arith) ∙ b,
    )

-- `month` and `dayofmonth` take a day apart as the calendar does, whose months have 31, 28, 31, 30,
-- 31, 30, 31, 31, 30, 31, 30 and 31 days, with 29 in the second one of every fourth year: a day
-- that lies `k` days into a month, counted from 0, gives that month and `k`. So the first day of every month comes out as day 0, and a day of
-- the year that is counted from 1 is one off.
pub month-days :
    (count year k : ℕ)
    → count < 12
    → k < days_of (1 + count) year
    → (month year (days_between 1 count year + k) ≡ is (1 + count))
      × (dayofmonth year (days_between 1 count year + k) ≡ is k)
unfolding month dayofmonth
month-days count year k lt h = month_from-is 12 1 count year k lt (omega arith) (omega arith) h

-- Past the days of the twelve months both are -1.
pub month_beyond :
    (year n : ℕ)
    → days_between 1 12 year ≤ n
    → (month year n ≡ minus_one) × (dayofmonth year n ≡ minus_one)
unfolding month dayofmonth
month_beyond year n h = month_from-minus_one 12 1 year n (omega arith) refl h
