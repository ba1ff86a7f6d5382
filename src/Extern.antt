-- ===== src/Extern.antt =====
-- What the server calls and does not implement: the crates `sha2`, `hex`, `base64`, `regex`,
-- `semver` and `chrono`, SQLite's date functions, and the Unicode and address tables of Rust's
-- standard library. They are parameters of the model.
pub mod Dates
use naleystogramm_server.Base.{◌*◌, ◌-◌, ◌≤◌, some}
use naleystogramm_server.Base.{
  ℕ, ◌/◌, ◌%◌, ◌<◌, ◌≡◌, ◌⊎◌, Bool, true, Option, List, ◌∷◌, ◌++◌, Text, text_ltb,
}

-- How points of time are written. A point of time is a number of seconds since 1970, UTC.
pub record Calendar : Type 0 where
  -- `2026-05-26`, of a number of days since 1970
  pub date : ℕ → Text
  -- `12:34:56`, of a second of the day
  pub time : ℕ → Text
  -- what chrono's `to_rfc3339` writes behind the `T`, as `12:34:56.123456789+00:00`
  pub rfc3339_time : ℕ → Text
  -- SQLite's `datetime('now', '-m minutes')` at a given `now`, or NULL if that is out of range
  pub minutes_ago : ℕ → ℕ → Option Text
  -- the number of days up to which years have four digits
  pub four_digit_days : ℕ
  -- the last second that chrono represents
  pub max_utc : ℕ
  -- Dates are of one width and ordered as the days.
  pub date_lt :
      (d e : ℕ) (s t : Text)
      → d < e
      → e < four_digit_days
      → text_ltb (date d ++ s) (date e ++ t) ≡ true
  -- So are the times of a day.
  pub time_lt : (s t : ℕ) → s < t → t < 86400 → text_ltb (time s) (time t) ≡ true
  -- SQLite goes back by minutes of 60 seconds.
  pub minutes_ago_lem :
      (now m : ℕ)
      → 60 * m ≤ now
      → now / 86400 < four_digit_days
      → minutes_ago now m
        ≡ some (date ((now - 60 * m) / 86400) ++ b' ' ∷ time ((now - 60 * m) % 86400))

-- The crate `semver`: `Version::parse` and the order `>=`.
pub record Semver : Type 1 where
  pub Version : Type 0
  pub parse : Text → Option Version
  pub ge : Version → Version → Bool

pub record Extern : Type 1 where
  pub calendar : Calendar
  pub semver : Semver
  -- SHA-256 of a text's bytes
  pub sha256 : Text → List ℕ
  -- `hex::encode`
  pub hex_encode : List ℕ → Text
  -- base64, standard alphabet
  pub b64_decode : Text → Option (List ℕ)
  pub b64_encode : List ℕ → Text
  -- `Regex::new`, with the message of a failure, and `is_match`
  pub regex : Text → Text ⊎ (Text → Bool)
  -- `str::to_lowercase`
  pub to_lowercase : Text → Text
  -- whether `parse::<IpAddr>()` succeeds
  pub is_ip_addr : Text → Bool

module _ (c : Calendar) where
  open c use {date, time, rfc3339_time}

  -- SQLite's `datetime`: the date, a space and the time.
  unfoldable pub datetime : ℕ → Text
  datetime t = date (t / 86400) ++ b' ' ∷ time (t % 86400)

  -- chrono's `to_rfc3339`: the date, a `T` and the rest.
  unfoldable pub rfc3339 : ℕ → Text
  rfc3339 t = date (t / 86400) ++ b'T' ∷ rfc3339_time (t % 86400)
