-- ===== src/Hopa/Check.antt =====
-- one_path_check of hopa_cp.c: is it time to change the path? The threshold is computed in double
-- arithmetic, which is a parameter; all else wraps at 64 bits.
pub mod Verdict
use repath.Base.{
  ℕ, ◌+◌, ◌/◌, ◌^◌, ◌≤◌, ◌<◌, Bool, ◌&&◌, ◌||◌, Result, ok, ◌>>=◌, ◌>>◌, defined, ltb, leb,
  if◌then◌else◌, sub64, mul64,
}

-- struct cur_path_info
pub record CurPathInfo : Type 0 where
  pub path_id : ℕ
  pub max_dt : ℕ
  pub min_dt : ℕ
  pub last_3_dt_grad : ℕ
  pub last_2_dt_grad : ℕ
  pub last_1_dt_grad : ℕ
  pub cur_dt_grad : ℕ
  pub last_3_dt : ℕ
  pub last_2_dt : ℕ
  pub last_1_dt : ℕ
  pub cur_dt : ℕ
  pub cur_ts : ℕ
  pub last_ts : ℕ
  pub thres_dt : ℕ
  pub delta_t : ℕ

-- (uint64_t)(base + 0.7 * span) in IEEE double arithmetic.
pub record Weigh : Type 0 where
  pub weigh : ℕ → ℕ → ℕ

-- While doubles are exact on the integers in play, the result lies between the two ends.
pub record IsWeigh (w : Weigh) : Type 0 where
  pub weigh_bounds :
      (base span : ℕ)
      → base + span < 2 ^ 53
      → (base ≤ w.weigh base span) × (w.weigh base span ≤ base + span)

module _ (w : Weigh) where
  -- The updates of the window, the threshold and the time step, before the first division.
  unfoldable pub measure : CurPathInfo → CurPathInfo
  measure c =
      let max_dt = if ltb c.max_dt c.cur_dt then c.cur_dt else c.max_dt in
      let min_dt = if ltb c.cur_dt c.min_dt then c.cur_dt else c.min_dt in
      record c {
        delta_t = sub64 c.cur_ts c.last_ts;
        max_dt = max_dt;
        min_dt = min_dt;
        thres_dt = w.weigh min_dt (sub64 max_dt min_dt);
      }

  -- The verdict over the measured window, with the gradient in place.
  unfoldable pub verdict : CurPathInfo → Bool
  verdict c =
      let b2 = leb (sub64 c.thres_dt c.min_dt) (mul64 2 c.last_3_dt) in
      let b3 = ltb 0 c.last_1_dt_grad && (ltb 0 c.last_2_dt_grad && ltb 0 c.last_3_dt_grad) in
      let b4 = leb (sub64 c.thres_dt c.min_dt / mul64 2 c.delta_t) c.cur_dt_grad in
      let is_try_repath = (b2 && b3) || b4 in
      let is_force_repath = leb c.thres_dt c.cur_dt in is_try_repath || is_force_repath

  -- Both divisors are tested here, since a division by zero is undefined.
  unfoldable pub one_path_check : CurPathInfo → Result (Bool × CurPathInfo)
  one_path_check c = do
    let m = measure c
    defined (ltb 0 m.delta_t)
    let g = record m { cur_dt_grad = sub64 m.cur_dt m.last_1_dt / m.delta_t }
    defined (ltb 0 (mul64 2 g.delta_t))
    ok (verdict g, g)
