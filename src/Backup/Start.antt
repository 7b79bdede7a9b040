-- ===== src/Backup/Start.antt =====
-- main of backup/Hopa.c and of backup/main.c, up to their loops, and the port_init of each.
use repath.Base.{
  ◌%◌, ◌≤◌, ◌≡◌, ◌↔◌, refl, Bool, true, false, ◌||◌, not, List, [], ◌∷◌, Result, ok, exited, ◌>>◌,
  ltb, ◌==◌, is_nonzero, length, arith,
}
use repath.Port.{EthDev, Init, port_init, backup_hopa_conf, backup_main_conf}

-- port_init of backup/Hopa.c and of backup/main.c.
pub hopa_port_init : EthDev → Init
hopa_port_init dev = port_init dev backup_hopa_conf

pub main_port_init : EthDev → Init
main_port_init dev = port_init dev backup_main_conf

-- What the outer world answers to main: rte_eal_init, the devices that there are, the pool.
pub record Start : Type 0 where
  pub eal : Bool
  pub devs : List EthDev
  pub pool : Bool

-- A test without which the process exits.
need : Bool → Result (Unit {0})
need true = ok tt
need false = exited

-- RTE_ETH_FOREACH_DEV(portid) if (port_init(portid, mbuf_pool) != 0) exit.
pub init_ports : (EthDev → Init) → List EthDev → Result (Unit {0})
unfolding need
init_ports init [] = ok tt
init_ports init (dev ∷ devs) = do need (not (is_nonzero (init dev).0)); init_ports init devs

-- main of backup/Hopa.c: it launches lcore_probe and lcore_main.
pub hopa_main : Start → Result (Unit {0})
unfolding need init_ports hopa_port_init
hopa_main o = do
  need o.eal
  need (not (ltb (length o.devs) 2 || (length o.devs % 2 == 1)))
  need o.pool
  init_ports hopa_port_init o.devs

-- main of backup/main.c: it launches lcore_main.
pub main_main : Start → Result (Unit {0})
unfolding need init_ports main_port_init
main_main o = do need o.eal; need o.pool; init_ports main_port_init o.devs

-- All ports can be brought up.
pub AllUp : (EthDev → Init) → List EthDev → Type 0
AllUp init [] = Unit {0}
AllUp init (dev ∷ devs) = (is_nonzero (init dev).0 ≡ false) × AllUp init devs

init_ports_iff :
    (init : EthDev → Init) (devs : List EthDev) → (init_ports init devs ≡ ok tt) ↔ AllUp init devs
unfolding init_ports AllUp need
init_ports_iff init [] = (λ e. tt, λ u. refl)
init_ports_iff init (dev ∷ devs) =
    let rest = init_ports_iff init devs in
    (λ e. (ground arith, rest.0 (ground arith)), λ u. ground (arith, u.0, rest.1 u.1))

-- Each of the two programs starts its lcores exactly if the environment comes up, the pool is
-- there, and every port can be initialised; backup/Hopa.c also wants an even number of ports, two
-- at least.
pub backup_starts :
    (o : Start)
    → ((hopa_main o ≡ ok tt) ↔ (
        (o.eal ≡ true)
        × (2 ≤ length o.devs)
        × (length o.devs % 2 ≡ 0)
        × (o.pool ≡ true)
        × AllUp hopa_port_init o.devs))
      × ((main_main o ≡ ok tt) ↔ ((o.eal ≡ true) × (o.pool ≡ true) × AllUp main_port_init o.devs))
unfolding hopa_main main_main need
backup_starts o =
    let hopa = init_ports_iff hopa_port_init o.devs in
    let main = init_ports_iff main_port_init o.devs in
    (
      (
        λ e. (ground arith, ground arith, ground arith, ground arith, hopa.0 (ground arith)),
        λ h. ground (arith, h.0, h.1, h.2, h.3, hopa.1 h.4),
      ),
      (
        λ e. (ground arith, ground arith, main.0 (ground arith)),
        λ h. ground (arith, h.0, h.1, main.1 h.2),
      ),
    )
