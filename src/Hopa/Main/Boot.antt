-- ===== src/Hopa/Main/Boot.antt =====
-- main of hopa_cp.c up to its loop, and get_ring_instance.
use repath.Base.{
  ℕ, ◌≡◌, ◌≢◌, ◌⊎◌, Bool, true, false, Option, none, some, Result, ok, exited, fault, ◌>>=◌, ◌>>◌,
  defined, deref, is_nonzero, if◌then◌else◌, ◌==◌, not, arith,
}
use repath.Port.{EthDev, port_init, hopa_cp_conf}
use repath.Hopa.Progress.{Cp}

-- What the outer world answers to main, in the order of the calls.
pub record Start (Q : Type 0) : Type 0 where
  -- rte_eal_init succeeds
  pub eal : Bool
  -- rte_pktmbuf_pool_create returns a pool
  pub pool : Bool
  pub dev : EthDev
  -- rte_malloc returns memory for the pair of rings
  pub malloc : Bool
  -- what the two calls of rte_ring_create return
  pub in_ring : Option Q
  pub out_ring : Option Q

-- Which function rte_eal_remote_launch starts on lcore 1.
pub data Role : Type 0 where
  lcore_probe : Role
  lcore_stats : Role

-- An action whose failure ends the process.
abbrev need : Bool → Result (Unit {0})
need true = ok tt
need false = exited

-- The pair of rings is allocated once; memset follows the new pointer, null or not.
unfoldable pub get_ring_instance : {Q : Type 0} → Bool → Cp Q → Result (Cp Q)
get_ring_instance malloc s = elim s.hopa_in_out_ring_ins [
  | none ↦
      (defined malloc
        >> ok (record s {
          hopa_in_out_ring_ins = some (record { hopa_in_ring = none; hopa_out_ring = none });
        }))
  | some rings ↦ ok s
]

-- main, after parse_args has returned `is_sender`. The rings that rte_ring_create returns are not
-- tested.
unfoldable pub boot : {Q : Type 0} → Start Q → ℕ → Cp Q → Result (Cp Q × Role)
unfolding get_ring_instance
boot o is_sender s = do
  need o.eal
  need o.pool
  let pooled = record s { mbuf_pool = true }
  need (not (is_nonzero (port_init o.dev hopa_cp_conf).0))
  t ← get_ring_instance o.malloc pooled
  rings ← deref t.hopa_in_out_ring_ins
  let ready = record t {
    hopa_in_out_ring_ins =
        some (record rings { hopa_in_ring = o.in_ring; hopa_out_ring = o.out_ring });
  }
  ok (ready, if is_sender == 0 then lcore_stats else lcore_probe)

-- When main reaches its loop: the environment, the pool, the port and the memory were all to be
-- had. The two rings are then what rte_ring_create returned, null or not; the role is the sender's
-- exactly for an option that is not 0.
pub boot-ok :
    {Q : Type 0} (o : Start Q) (is_sender : ℕ) (s : Cp Q) {t : Cp Q} {role : Role}
    → boot o is_sender s ≡ ok (t, role)
    → (o.eal ≡ true)
      × (o.pool ≡ true)
      × (is_nonzero (port_init o.dev hopa_cp_conf).0 ≡ false)
      × ((o.malloc ≡ true) ⊎ (s.hopa_in_out_ring_ins ≢ none))
      × (t.mbuf_pool ≡ true)
      × (t.hopa_in_out_ring_ins
          ≡ some (record { hopa_in_ring = o.in_ring; hopa_out_ring = o.out_ring }))
      × (((is_sender ≡ 0) × (role ≡ lcore_stats)) ⊎ ((is_sender ≢ 0) × (role ≡ lcore_probe)))
unfolding boot
boot-ok o is_sender s e = ground arith

-- Without memory for the rings main does not exit with its message: it writes through the null
-- pointer before the test for it.
pub boot-no_memory :
    {Q : Type 0} (o : Start Q) (is_sender : ℕ) (s : Cp Q)
    → o.eal ≡ true
    → o.pool ≡ true
    → is_nonzero (port_init o.dev hopa_cp_conf).0 ≡ false
    → o.malloc ≡ false
    → s.hopa_in_out_ring_ins ≡ none
    → boot o is_sender s ≡ fault
unfolding boot
boot-no_memory o is_sender s a b c d e = ground arith
