-- ===== src/Extern/Dates.antt =====
-- How SQLite's and chrono's written times compare as texts, which is how the server compares them.
use naleystogramm_server.Base.{
  ℕ, ◌/◌, ◌%◌, ◌<◌, ◌≡◌, refl, ◌⊎◌, inl, inr, true, false, text_ltb, text_ltb_common, text_ltb_asym,
  text_ltb_irrefl, arith, ltb, leb,
}
use naleystogramm_server.Extern.{Calendar, datetime, rfc3339}

-- Any two numbers, compared.
Order : ℕ → ℕ → Type 0
Order a b = (a < b) ⊎ ((a ≡ b) ⊎ (b < a))

order : (a b : ℕ) → Order a b
unfolding Order
order a b = ground arith

module _ (c : Calendar) (now t : ℕ) (now_written : now / 86400 < c.four_digit_days)
    (t_written : t / 86400 < c.four_digit_days) where
  same_day : now / 86400 ≡ t / 86400 → text_ltb (datetime c now) (rfc3339 c t) ≡ true
  unfolding datetime rfc3339 text_ltb
  same_day e = rw (e, text_ltb_common) refl

  earlier_day : now / 86400 < t / 86400 → text_ltb (datetime c now) (rfc3339 c t) ≡ true
  unfolding datetime rfc3339
  earlier_day h = c.date_lt (now / 86400) (t / 86400) _ _ h t_written

  later_day : t / 86400 < now / 86400 → text_ltb (datetime c now) (rfc3339 c t) ≡ false
  unfolding datetime rfc3339
  later_day h = text_ltb_asym _ _ (c.date_lt (t / 86400) (now / 86400) _ _ h now_written)

  -- A space sorts before a `T`, so only the dates count.
  pub datetime-lt-rfc3339 : text_ltb (datetime c now) (rfc3339 c t) ≡ leb (now / 86400) (t / 86400)
  unfolding Order
  datetime-lt-rfc3339 = elim (order (now / 86400) (t / 86400)) [
    | inl earlier ↦ ground (arith, earlier_day earlier)
    | inr (inl e) ↦ ground (arith, same_day e)
    | inr (inr later) ↦ ground (arith, later_day later)
  ]

-- SQLite's own times compare as the points of time do.
module _ (c : Calendar) where
  day_lt :
      (a b : ℕ)
      → b / 86400 < c.four_digit_days
      → a / 86400 < b / 86400
      → text_ltb (datetime c a) (datetime c b) ≡ true
  unfolding datetime
  day_lt a b written h = c.date_lt (a / 86400) (b / 86400) _ _ h written

  second_lt :
      (a b : ℕ)
      → a / 86400 ≡ b / 86400
      → a % 86400 < b % 86400
      → text_ltb (datetime c a) (datetime c b) ≡ true
  unfolding datetime text_ltb
  second_lt a b e h =
      rw (e, text_ltb_common) (ground (arith, c.time_lt (a % 86400) (b % 86400) h (omega arith)))

  earlier :
      (a b : ℕ)
      → b / 86400 < c.four_digit_days
      → a < b
      → text_ltb (datetime c a) (datetime c b) ≡ true
  unfolding Order
  earlier a b written h = elim (order (a / 86400) (b / 86400)) [
    | inl day ↦ day_lt a b written day
    | inr (inl e) ↦ second_lt a b e (omega arith)
    | inr (inr later) ↦ absurd (omega arith)
  ]

  pub datetime-lt-datetime :
      (a b : ℕ)
      → a / 86400 < c.four_digit_days
      → b / 86400 < c.four_digit_days
      → text_ltb (datetime c a) (datetime c b) ≡ ltb a b
  unfolding Order
  datetime-lt-datetime a b a_written b_written = elim (order a b) [
    | inl h ↦ ground (arith, earlier a b b_written h)
    | inr (inl e) ↦ rw e (ground (arith, text_ltb_irrefl (datetime c b)))
    | inr (inr h) ↦ ground (arith, text_ltb_asym _ _ (earlier b a a_written h))
  ]
