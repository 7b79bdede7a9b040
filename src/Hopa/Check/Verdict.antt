-- ===== src/Hopa/Check/Verdict.antt =====
-- When one_path_check asks for another path.
use repath.Base.{
  ℕ, ◌+◌, ◌-◌, ◌*◌, ◌/◌, ◌%◌, ◌^◌, ◌≤◌, ◌<◌, ◌≡◌, ◌↔◌, Bool, true, ok, fault, leb, arith, ltb,
  mul64, sub64, max, min, if◌then◌else◌, ◌∙◌, ap, div_of_lt, ◌&&◌, ◌||◌,
}
use repath.Hopa.Check.{CurPathInfo, Weigh, IsWeigh, measure, verdict, one_path_check}

-- Delays far from the top of the 64-bit range, and a clock that has moved by less than half of it.
pub record IsSane (c : CurPathInfo) : Type 0 where
  pub max_small : c.max_dt < 2 ^ 53
  pub cur_small : c.cur_dt < 2 ^ 53
  pub last_small : c.last_1_dt < 2 ^ 53
  pub ordered : c.min_dt ≤ c.max_dt
  pub earlier : c.last_ts < c.cur_ts
  pub in_range : c.cur_ts < 2 ^ 63

-- The verdict of unbounded arithmetic: twice the oldest delay fills the threshold's share of the
-- window and the last three gradients are positive, or the gradient reaches the slope, or the
-- threshold is reached.
abbrev pub plain_verdict : CurPathInfo → ℕ → ℕ → Bool
plain_verdict g step rise =
    (leb (g.thres_dt - g.min_dt) (2 * g.last_3_dt)
      && (ltb 0 g.last_1_dt_grad && (ltb 0 g.last_2_dt_grad && ltb 0 g.last_3_dt_grad)))
    || leb ((g.thres_dt - g.min_dt) / (2 * step)) (rise / step)
    || leb g.thres_dt g.cur_dt

module _ (w : Weigh) (isw : IsWeigh w) (c : CurPathInfo) (s : IsSane c) where
  abbrev measured : CurPathInfo
  measured = record (measure w c) {
    cur_dt_grad = sub64 c.cur_dt c.last_1_dt / (c.cur_ts - c.last_ts);
  }

  delta_t-measure : (measure w c).delta_t ≡ c.cur_ts - c.last_ts
  unfolding measure
  delta_t-measure = omega (arith, s.earlier, s.in_range)

  -- The window holds the current delay, and the threshold lies in the window.
  window :
      ((measure w c).min_dt ≤ c.cur_dt)
      × (c.cur_dt ≤ (measure w c).max_dt)
      × ((measure w c).min_dt ≤ (measure w c).thres_dt)
      × ((measure w c).thres_dt ≤ (measure w c).max_dt)
      × ((measure w c).max_dt < 2 ^ 53)
      × ((measure w c).max_dt ≡ max c.max_dt c.cur_dt)
      × ((measure w c).min_dt ≡ min c.min_dt c.cur_dt)
  unfolding measure
  window =
      let low = if ltb c.cur_dt c.min_dt then c.cur_dt else c.min_dt in
      let high = if ltb c.max_dt c.cur_dt then c.cur_dt else c.max_dt in
      ground (arith, isw.weigh_bounds low (sub64 high low))

  one_path_check-ok : one_path_check w c ≡ ok (verdict w measured, measured)
  unfolding one_path_check measure
  one_path_check-ok = ground (arith, delta_t-measure)

  steep :
      sub64 (measure w c).thres_dt (measure w c).min_dt / mul64 2 (measure w c).delta_t
        ≤ measured.cur_dt_grad
      → verdict w measured ≡ true
  unfolding verdict measure
  steep h = ground arith

  -- Every delay asks for another path while the window is narrower than two time steps: the integer
  -- quotient that the gradient is held against is then 0.
  pub one_path_check-narrow :
      max c.max_dt c.cur_dt < min c.min_dt c.cur_dt + 2 * (c.cur_ts - c.last_ts)
      → (g : CurPathInfo) × (one_path_check w c ≡ ok (true, g))
  one_path_check-narrow h =
      (measured, one_path_check-ok ∙ ap (λ (b : Bool). ok (b, measured)) (steep flat))
    where
      flat :
          sub64 (measure w c).thres_dt (measure w c).min_dt / mul64 2 (measure w c).delta_t
          ≤ sub64 c.cur_dt c.last_1_dt / (c.cur_ts - c.last_ts)
      flat =
          rw
            (div_of_lt (sub64 (measure w c).thres_dt (measure w c).min_dt)
              (mul64 2 (measure w c).delta_t) (omega (arith, window, delta_t-measure, s.in_range)))
            (omega arith)

-- The check is undefined exactly where a divisor is 0: when the clock shows the time of the last
-- sample, or one that is half the 64-bit range away.
pub one_path_check-fault :
    (w : Weigh) (c : CurPathInfo)
    → (one_path_check w c ≡ fault) ↔ (sub64 c.cur_ts c.last_ts % 2 ^ 63 ≡ 0)
unfolding one_path_check measure
one_path_check-fault w c = (ground arith, ground arith)
