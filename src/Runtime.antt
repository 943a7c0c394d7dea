-- ===== src/Runtime.antt =====
-- What the services take from the JavaScript runtime and the database: the clock, the conversions of
-- dates and numbers to and from text, which depend on the server's time zone and locale, and the
-- comparison of texts.
use tms_api.Prelude.{ℕ, String, Bool, Option}
use tms_api.Dates.{Date}

pub record Runtime : Type 0 where
  -- `new Date()`
  pub now : Date
  -- `new Date(text)`; `none` is an Invalid Date
  pub parse_date : String → Option Date
  -- `date.toISOString().split('T')[0]`
  pub iso_date : Date → String
  -- equality of texts in the database, by its collation utf8mb4_unicode_ci
  pub same_text : String → String → Bool
  -- `String(n)`, of an hour value and of an id
  pub show_hours : ℕ → String
  pub show_id : ℕ → String
