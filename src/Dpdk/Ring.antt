-- ===== src/Dpdk/Ring.antt =====
-- rte_ring: a bounded queue of pointers. The model takes the operations as a parameter; its
-- contents, oldest first, are what the documented laws speak of.
use repath.Base.{ℕ, ◌-◌, ◌≤◌, ◌≡◌, refl, List, ◌++◌, length, take, drop, min, arith}

pub record RingOps (Q A : Type 0) : Type 0 where
  -- rte_ring_mp_enqueue_burst and rte_ring_sp_enqueue_burst: how many were taken
  pub enqueue_burst : Q → List A → ℕ × Q
  -- rte_ring_mc_dequeue_burst and rte_ring_sc_dequeue_burst: at most so many
  pub dequeue_burst : Q → ℕ → List A × Q
  -- what rte_ring_count counts
  pub contents : Q → List A

pub record IsRing {Q A : Type 0} (r : RingOps Q A) : Type 0 where
  pub enqueue-le : (q : Q) (xs : List A) → (r.enqueue_burst q xs).0 ≤ length xs
  -- the first of the objects go in, in order
  pub contents-enqueue :
      (q : Q) (xs : List A)
      → r.contents (r.enqueue_burst q xs).1 ≡ r.contents q ++ take (r.enqueue_burst q xs).0 xs
  -- the oldest objects come out
  pub dequeue_lem : (q : Q) (n : ℕ) → (r.dequeue_burst q n).0 ≡ take n (r.contents q)
  pub contents-dequeue :
      (q : Q) (n : ℕ) → r.contents (r.dequeue_burst q n).1 ≡ drop n (r.contents q)

-- A ring of a given capacity as a list, which shows that the laws can be met.
abbrev pub list_ring : {A : Type 0} → ℕ → RingOps (List A) A
list_ring capacity = record {
  enqueue_burst = λ q xs.
      (min (length xs) (capacity - length q), q ++ take (min (length xs) (capacity - length q)) xs);
  dequeue_burst = λ q n. (take n q, drop n q);
  contents = λ q. q;
}

pub list_ring-IsRing : {A : Type 0} (capacity : ℕ) → IsRing (list_ring {A = A} capacity)
list_ring-IsRing capacity = record {
  enqueue-le = λ q xs. omega arith;
  contents-enqueue = λ q xs. refl;
  dequeue_lem = λ q n. refl;
  contents-dequeue = λ q n. refl;
}
