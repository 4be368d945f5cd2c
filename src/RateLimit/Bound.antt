-- ===== src/RateLimit/Bound.antt =====
-- How many requests of a key the specification of the limiter allows in one bucket.
use gateway_login.Base.{
  ℕ, suc, ◌+◌, ◌-◌, ◌/◌, ◌≤◌, ◌≡◌, refl, Bool, true, false, ◌&&◌, List, [], ◌∷◌, Text, text_eq,
  text_eq_iff, inl, inr, arith, Bool-cases, if◌then◌else◌, ◌==◌, ==_iff, ℤ, pos, negsuc, pos_part,
}
use gateway_login.RateLimit.{Verdict, allowed, exceeds}
use gateway_login.RateLimit.Tracking.{Request, count_in}
use gateway_login.RateLimit.Window.{decide}

abbrev pub is_denied : Verdict → Bool
is_denied (allowed false) = true
is_denied _ = false

-- The requests of a key and a bucket that are not denied.
unfoldable pub passed : ℕ → Text → ℕ → List Request → List Verdict → ℕ
passed w key bucket [] vs = 0
passed w key bucket (r ∷ rs) [] = 0
passed w key bucket ((k, t) ∷ rs) (v ∷ vs) =
    (if text_eq k key && t / w == bucket then (if is_denied v then 0 else 1) else 0)
    + passed w key bucket rs vs

module _ (w : ℕ) (max : ℤ) (key : Text) (bucket : ℕ) where
  exceeds-pos : (n : ℕ) (m : ℤ) → exceeds (suc n) m ≡ false → suc n ≤ pos_part m
  exceeds-pos n (pos m) h = ground arith
  exceeds-pos n (negsuc m) h = ground arith

  passed-step :
      (over : Bool) (c rest : ℕ)
      → (over ≡ false → suc c ≤ pos_part max)
      → rest ≤ pos_part max - suc c
      → (if is_denied (allowed (if over then false else true)) then 0 else 1) + rest
        ≤ pos_part max - c
  passed-step true c rest within h = omega arith
  passed-step false c rest within h = omega (arith, within refl)

  pub passed-decide :
      (past rs : List Request)
      → passed w key bucket rs (decide w max past rs) ≤ pos_part max - count_in w key bucket past
  unfolding passed decide count_in
  passed-decide past [] = omega arith
  passed-decide past ((k, t) ∷ rs) = elim (Bool-cases (text_eq k key && t / w == bucket)) [
    | inl same ↦
        let own : k ≡ key = (text_eq_iff k key).0 (ground (arith, same)) in
        let here : t / w ≡ bucket = (==_iff (t / w) bucket).0 (ground (arith, same)) in
        let later = passed-decide ((k, t) ∷ past) rs in
        let counted : count_in w k (t / w) past ≡ count_in w key bucket past = rw (own, here) in
        let after : passed w key bucket rs (decide w max ((k, t) ∷ past) rs)
            ≤ pos_part max - suc (count_in w key bucket past) =
          omega (arith, rw same at later) in
        rw (same, counted)
          (passed-step (exceeds (suc (count_in w key bucket past)) max) (count_in w key bucket past)
            _ (λ h. exceeds-pos (count_in w key bucket past) max h) after)
    | inr other ↦
        let later = passed-decide ((k, t) ∷ past) rs in
        let after : passed w key bucket rs (decide w max ((k, t) ∷ past) rs)
            ≤ pos_part max - count_in w key bucket past =
          omega (arith, rw other at later) in
        rw other (omega (arith, after))
  ]
