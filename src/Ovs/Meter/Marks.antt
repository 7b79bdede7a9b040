-- ===== src/Ovs/Meter/Marks.antt =====
-- Which packets a batch loses at a band, and that the bands after it do not spare them.
use repath.Base.{
  ℕ, zero, suc, ◌+◌, ◌≤◌, ◌<◌, ◌≡◌, ◌≢◌, refl, ap, Bool, true, false, none, some, List, [], ◌∷◌,
  get_elem?, arith, inl, inr, Option-cases, replicate,
}
use repath.Ovs.Meter.{
  Band, Exceeded, drain_band, raise, fire, run_bands, drop_exceeded, not_exceeded,
}

-- The sum of the costs of packets.
abbrev pub weight : {P : Type 0} → (P → ℕ) → List P → ℕ
weight cost [] = 0
weight cost (p ∷ ps) = cost p + weight cost ps

-- The packets without a mark.
abbrev pub unmarked : {P : Type 0} → List P → List Bool → List P
unmarked [] marks = []
unmarked (p ∷ ps) [] = p ∷ ps
unmarked (p ∷ ps) (true ∷ marks) = unmarked ps marks
unmarked (p ∷ ps) (false ∷ marks) = p ∷ unmarked ps marks

unmarked-nil : {P : Type 0} (ps : List P) → unmarked ps [] ≡ ps
unmarked-nil [] = refl
unmarked-nil (p ∷ ps) = refl

-- Every marked packet exceeds some band.
pub Covers : List Bool → List Exceeded → Type 0
Covers (true ∷ marks) (e ∷ es) = (e.band ≢ none) × Covers marks es
Covers (false ∷ marks) (e ∷ es) = Covers marks es
Covers [] es = Unit
Covers (b ∷ marks) [] = Unit

-- A packet that exceeds no band has the rate 0.
pub Plain : List Exceeded → Type 0
Plain [] = Unit
Plain (e ∷ es) = (e.band ≡ none → e.rate ≡ 0) × Plain es

raise-Plain :
    (m rate : ℕ) (marks : List Bool) (es : List Exceeded) → Plain es → Plain (raise m rate marks es)
unfolding raise Plain
raise-Plain m rate [] es h = h
raise-Plain m rate (b ∷ marks) [] h = tt
raise-Plain m rate (true ∷ marks) (e ∷ es) h =
    (λ absent. ground (arith, h.0), raise-Plain m rate marks es h.1)
raise-Plain m rate (false ∷ marks) (e ∷ es) h = (h.0, raise-Plain m rate marks es h.1)

raise-Covers :
    (m rate : ℕ) (marks : List Bool) (es : List Exceeded)
    → 0 < rate
    → Plain es
    → Covers marks (raise m rate marks es)
unfolding raise Plain Covers
raise-Covers m rate [] es p h = tt
raise-Covers m rate (b ∷ marks) [] p h = tt
raise-Covers m rate (true ∷ marks) (e ∷ es) p h =
    (λ absent. ground (arith, h.0), raise-Covers m rate marks es p h.1)
raise-Covers m rate (false ∷ marks) (e ∷ es) p h = raise-Covers m rate marks es p h.1

-- What one band covers stays covered.
raise-keeps :
    (m rate : ℕ) (marks old : List Bool) (es : List Exceeded)
    → Covers old es
    → Covers old (raise m rate marks es)
unfolding raise Covers
raise-keeps m rate [] old es h = h
raise-keeps m rate (b ∷ marks) old [] h = h
raise-keeps m rate (true ∷ marks) [] (e ∷ es) h = tt
raise-keeps m rate (false ∷ marks) [] (e ∷ es) h = tt
raise-keeps m rate (true ∷ marks) (true ∷ old) (e ∷ es) h =
    (λ absent. ground (arith, h.0), raise-keeps m rate marks old es h.1)
raise-keeps m rate (true ∷ marks) (false ∷ old) (e ∷ es) h = raise-keeps m rate marks old es h
raise-keeps m rate (false ∷ marks) (true ∷ old) (e ∷ es) h =
    (h.0, raise-keeps m rate marks old es h.1)
raise-keeps m rate (false ∷ marks) (false ∷ old) (e ∷ es) h = raise-keeps m rate marks old es h

module _ {P : Type 0} (size : P → ℕ) (pktps : Bool) (delta_t volume : ℕ) (packets : List P) where
  -- The marks of a band.
  abbrev pub marks_of : Band → List Bool
  marks_of b = (drain_band size pktps delta_t volume packets b).1

  run_bands-keeps :
      (m : ℕ) (bands : List Band) (es : List Exceeded) (old : List Bool)
      → Covers old es
      → Covers old (run_bands size pktps delta_t volume packets m bands es).1
  unfolding run_bands
  run_bands-keeps m [] es old h = h
  run_bands-keeps m (b ∷ bands) es old h =
      run_bands-keeps (m + 1) bands (raise m b.rate (marks_of b) es) old
        (raise-keeps m b.rate (marks_of b) old es h)

  -- After the loop over the bands, every packet that a band of a rate above 0 marks exceeds some
  -- band.
  pub run_bands-Covers :
      (m k : ℕ) (bands : List Band) (es : List Exceeded) (b : Band)
      → Plain es
      → get_elem? bands k ≡ some b
      → 0 < b.rate
      → Covers (marks_of b) (run_bands size pktps delta_t volume packets m bands es).1
  unfolding run_bands
  run_bands-Covers m k [] es b plain e p = absurd (ground arith)
  run_bands-Covers m zero (c ∷ bands) es b plain e p =
      let same : c ≡ b = ground arith in
      rw (← same) (
        run_bands-keeps (m + 1) bands (raise m c.rate (marks_of c) es) (marks_of c)
          (raise-Covers m c.rate (marks_of c) es (rw same p) plain))
  run_bands-Covers m (suc k) (c ∷ bands) es b plain e p =
      run_bands-Covers (m + 1) k bands (raise m c.rate (marks_of c) es) b
        (raise-Plain m c.rate (marks_of c) es plain) e p

  -- The accepted packets are unmarked at every band that is covered.
  pub accepted-le-unmarked :
      (cost : P → ℕ) (bands : List Band) (ps : List P) (marks : List Bool) (es : List Exceeded)
      → Covers marks es
      → weight cost (drop_exceeded size bands ps es).1 ≤ weight cost (unmarked ps marks)
  unfolding drop_exceeded Covers
  accepted-le-unmarked cost bands [] marks es h = omega arith
  accepted-le-unmarked cost bands (p ∷ ps) marks [] h = omega arith
  accepted-le-unmarked cost bands (p ∷ ps) [] (e ∷ es) h = elim (Option-cases e.band) [
    | inl n ↦ rw n (
        omega
          (arith, accepted-le-unmarked cost bands ps [] es tt, ap (weight cost) (unmarked-nil ps)))
    | inr (m, s) ↦ rw s (
        omega (
          arith,
          accepted-le-unmarked cost (fire bands m (size p)) ps [] es tt,
          ap (weight cost) (unmarked-nil ps),
        ))
  ]
  accepted-le-unmarked cost bands (p ∷ ps) (true ∷ marks) (e ∷ es) h = elim (Option-cases e.band) [
    | inl n ↦ absurd (h.0 n)
    | inr (m, s) ↦
        rw s (omega (arith, accepted-le-unmarked cost (fire bands m (size p)) ps marks es h.1))
  ]
  accepted-le-unmarked cost bands (p ∷ ps) (false ∷ marks) (e ∷ es) h = elim (Option-cases e.band) [
    | inl n ↦ rw n (omega (arith, accepted-le-unmarked cost bands ps marks es h))
    | inr (m, s) ↦
        rw s (omega (arith, accepted-le-unmarked cost (fire bands m (size p)) ps marks es h))
  ]

pub replicate-Plain : (n : ℕ) → Plain (replicate n not_exceeded)
unfolding Plain
replicate-Plain zero = tt
replicate-Plain (suc n) = (λ absent. refl, replicate-Plain n)
