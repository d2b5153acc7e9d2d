-- ===== src/Gvar/Time.antt =====
-- src/libgvar/cdaTime.cpp and cdaTime.h: the time tags, in decimal digits of four bits.
pub mod Calendar
use qjhart_geostreams.Prelude.{
  ℕ, zero, suc, ◌+◌, ◌-◌, ◌*◌, ◌/◌, ◌%◌, ◌<◌, ◌≡◌, refl, arith, ltb, Bool, true, false, Option,
  none, some, List, [], ◌∷◌, ◌==◌, if◌then◌else◌,
}

-- The bit fields of `class CdaTime`.
pub record CdaTime : Type 0 where
  pub yr1000 : ℕ
  pub yr100 : ℕ
  pub yr10 : ℕ
  pub yr1 : ℕ
  pub flywheel : ℕ
  pub doy100 : ℕ
  pub doy10 : ℕ
  pub doy1 : ℕ
  pub hr10 : ℕ
  pub hr1 : ℕ
  pub min10 : ℕ
  pub min1 : ℕ
  pub sec10 : ℕ
  pub sec1 : ℕ
  pub msec100 : ℕ
  pub msec10 : ℕ
  pub msec1 : ℕ

-- The eight bytes that a tag is.
pub record Tag : Type 0 where
  pub b0 : ℕ
  pub b1 : ℕ
  pub b2 : ℕ
  pub b3 : ℕ
  pub b4 : ℕ
  pub b5 : ℕ
  pub b6 : ℕ
  pub b7 : ℕ

-- `>> 4` is `/ 16`, and `& 0x0f` is `% 16`.
unfoldable pub set_time : Tag → CdaTime
set_time t = record {
  yr1000 = t.b0 / 16;
  yr100 = t.b0 % 16;
  yr10 = t.b1 / 16;
  yr1 = t.b1 % 16;
  flywheel = t.b2 / 128;
  doy100 = t.b2 / 16 % 8;
  doy10 = t.b2 % 16;
  doy1 = t.b3 / 16;
  hr10 = t.b3 % 16;
  hr1 = t.b4 / 16;
  min10 = t.b4 % 16;
  min1 = t.b5 / 16;
  sec10 = t.b5 % 16;
  sec1 = t.b6 / 16;
  msec100 = t.b6 % 16;
  msec10 = t.b7 / 16;
  msec1 = t.b7 % 16;
}

unfoldable pub msec : CdaTime → ℕ
msec c = 100 * c.msec100 + 10 * c.msec10 + c.msec1

unfoldable pub sec : CdaTime → ℕ
sec c = 10 * c.sec10 + c.sec1

unfoldable pub min : CdaTime → ℕ
min c = 10 * c.min10 + c.min1

unfoldable pub hrs : CdaTime → ℕ
hrs c = 10 * c.hr10 + c.hr1

unfoldable pub day : CdaTime → ℕ
day c = 100 * c.doy100 + 10 * c.doy10 + c.doy1

unfoldable pub year : CdaTime → ℕ
year c = 1000 * c.yr1000 + 100 * c.yr100 + 10 * c.yr10 + c.yr1

unfoldable pub time_code_generator_state : CdaTime → ℕ
time_code_generator_state c = c.flywheel

-- The two numbers that `toIEEE` writes.
unfoldable pub to_ieee : CdaTime → ℕ × ℕ
to_ieee c = (
  (c.yr1000 * 1000 + c.yr100 * 100 + c.yr10 * 10 + c.yr1) * 10000
      + (c.doy100 * 100 + c.doy10 * 10 + c.doy1) * 10
      + c.hr10,
  c.hr1 * 10000000
      + (c.min10 * 10 + c.min1) * 100000
      + (c.sec10 * 10 + c.sec1) * 1000
      + c.msec100 * 100
      + c.msec10 * 10
      + c.msec1,
)

-- The tag of a time, one decimal digit in four bits.
unfoldable pub tag : (flywheel y d h m s ms : ℕ) → Tag
tag flywheel y d h m s ms = record {
  b0 = y / 1000 * 16 + y / 100 % 10;
  b1 = y / 10 % 10 * 16 + y % 10;
  b2 = flywheel * 128 + d / 100 * 16 + d / 10 % 10;
  b3 = d % 10 * 16 + h / 10;
  b4 = h % 10 * 16 + m / 10;
  b5 = m % 10 * 16 + s / 10;
  b6 = s % 10 * 16 + ms / 100;
  b7 = ms / 10 % 10 * 16 + ms % 10;
}

-- The numbers of a time fit their digits: three bits for the hundreds of the day.
pub record Fits (flywheel y d h m s ms : ℕ) : Type 0 where
  pub one_bit : flywheel < 2
  pub years : y < 10000
  pub days : d < 800
  pub hours : h < 100
  pub minutes : m < 100
  pub seconds : s < 100
  pub milliseconds : ms < 1000

-- setTime reads every time back from its tag, whatever the flywheel bit is.
pub set_time-tag :
    (flywheel y d h m s ms : ℕ)
    → Fits flywheel y d h m s ms
    → (let c = set_time (tag flywheel y d h m s ms) in
        (time_code_generator_state c ≡ flywheel)
        × (year c ≡ y)
        × (day c ≡ d)
        × (hrs c ≡ h)
        × (min c ≡ m)
        × (sec c ≡ s)
        × (msec c ≡ ms))
unfolding set_time tag time_code_generator_state year day hrs min sec msec
set_time-tag flywheel y d h m s ms f = (
  omega (arith, f.one_bit, f.days),
  omega (arith, f.years),
  omega (arith, f.one_bit, f.days),
  omega (arith, f.hours),
  omega (arith, f.minutes),
  omega (arith, f.seconds),
  omega (arith, f.milliseconds),
)

-- The two numbers in terms of the time.
to_ieee_values :
    (flywheel y d h m s ms : ℕ)
    → Fits flywheel y d h m s ms
    → (let i = to_ieee (set_time (tag flywheel y d h m s ms)) in
        (i.0 ≡ y * 10000 + d * 10 + h / 10)
        × (i.1 ≡ h % 10 * 10000000 + m * 100000 + s * 1000 + ms))
unfolding set_time tag to_ieee
to_ieee_values flywheel y d h m s ms f = (
  omega (arith, f.one_bit, f.years, f.days, f.hours),
  omega (arith, f.hours, f.minutes, f.seconds, f.milliseconds),
)

-- toIEEE loses nothing of a time whose fields are decimal digits, as a tag makes them: the first
-- number holds the year, the day and the tens of the hours, the second one the rest.
pub to_ieee-tag :
    (flywheel y d h m s ms : ℕ)
    → Fits flywheel y d h m s ms
    → (let i = to_ieee (set_time (tag flywheel y d h m s ms)) in
        (i.0 / 10000 ≡ y)
        × (i.0 / 10 % 1000 ≡ d)
        × (i.0 % 10 * 10 + i.1 / 10000000 ≡ h)
        × (i.1 / 100000 % 100 ≡ m)
        × (i.1 / 1000 % 100 ≡ s)
        × (i.1 % 1000 ≡ ms))
to_ieee-tag flywheel y d h m s ms f =
    let (e, e') = to_ieee_values flywheel y d h m s ms f in
    (
      omega (arith, e, f.days, f.hours),
      omega (arith, e, f.days, f.hours),
      omega (arith, e, e', f.hours, f.minutes, f.seconds, f.milliseconds),
      omega (arith, e', f.minutes, f.seconds, f.milliseconds),
      omega (arith, e', f.seconds, f.milliseconds),
      omega (arith, e', f.milliseconds),
    )
