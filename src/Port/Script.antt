-- ===== src/Port/Script.antt =====
-- port_init against a script: the calls to make, with which return codes stop it.
use repath.Base.{
  ℕ, zero, suc, ◌+◌, ◌≡◌, refl, ap, ◌∙◌, Bool, true, false, List, [], ◌∷◌, ◌++◌, ℤ, pos, is_neg,
  is_nonzero, if◌then◌else◌, negsuc, Bool-cases, inl, inr, ◌⊎◌, if-not, if_true, if_false, sym,
}
use mathlib.Core.Path.{subst}
use repath.Port.{
  Call, info_get, configure, adjust_nb_rx_tx_desc, rx_queue_setup, tx_queue_setup, start,
  macaddr_get, promiscuous_enable, EthDev, PortConf, Init, call_or, rx_queues, tx_queues, port_init,
  rx_ring_size, tx_ring_size,
}

-- Does the code that a call returned stop the sequence? The set-up of a queue and the start of the
-- port may return a positive code; every other call must return 0.
pub stops : Call → ℤ → Bool
stops (rx_queue_setup q n) r = is_neg r
stops (tx_queue_setup q n f) r = is_neg r
stops start r = is_neg r
stops c r = is_nonzero r

-- The calls for queues `q`, `q + 1`, …
pub rx_script : EthDev → ℕ → ℕ → List Call
rx_script dev q zero = []
rx_script dev q (suc n) = rx_queue_setup q dev.adjusted_rxd ∷ rx_script dev (q + 1) n

pub tx_script : EthDev → ℕ → ℕ → List Call
tx_script dev q zero = []
tx_script dev q (suc n) =
    tx_queue_setup q dev.adjusted_txd dev.can_fast_free ∷ tx_script dev (q + 1) n

-- All calls that bring a port up, in order.
pub script : EthDev → PortConf → List Call
script dev conf =
    info_get
    ∷ configure conf.rx_rings conf.tx_rings conf.max_rx_pkt_len dev.can_fast_free
    ∷ adjust_nb_rx_tx_desc rx_ring_size tx_ring_size
    ∷ (rx_script dev 0 conf.rx_rings
        ++ (tx_script dev 0 conf.tx_rings ++ (start ∷ macaddr_get ∷ promiscuous_enable ∷ [])))

-- Making the calls of a list until one stops it: its code, or 0, and the calls made.
pub perform : EthDev → List Call → Init
perform dev [] = (pos 0, [])
perform dev (c ∷ cs) =
    let rest = perform dev cs in
    if stops c (dev.answer c) then (dev.answer c, c ∷ []) else (rest.0, c ∷ rest.1)

module _ (dev : EthDev) where
  rx_queues-perform :
      (q n : ℕ) (cs : List Call)
      → rx_queues dev q n (perform dev cs) ≡ perform dev (rx_script dev q n ++ cs)
  unfolding rx_queues rx_script perform stops
  rx_queues-perform q zero cs = refl
  rx_queues-perform q (suc n) cs = rw (rx_queues-perform (q + 1) n cs)

  tx_queues-perform :
      (q n : ℕ) (cs : List Call)
      → tx_queues dev q n (perform dev cs) ≡ perform dev (tx_script dev q n ++ cs)
  unfolding tx_queues tx_script perform stops
  tx_queues-perform q zero cs = refl
  tx_queues-perform q (suc n) cs = rw (tx_queues-perform (q + 1) n cs)

  -- port_init makes the calls of the script until one stops it, and none for a port that is not
  -- valid.
  port_init-perform :
      (conf : PortConf)
      → port_init dev conf
        ≡ (if dev.is_valid_port then perform dev (script dev conf) else (negsuc 0, []))
  unfolding port_init call_or perform stops script
  port_init-perform conf =
      if-not dev.is_valid_port _ _
      ∙ ap (λ r. if dev.is_valid_port then r else (negsuc 0, []))
          (ap whole (
            ap (rx_queues dev 0 conf.rx_rings) (tx_queues-perform 0 conf.tx_rings tail)
            ∙ rx_queues-perform 0 conf.rx_rings (tx_script dev 0 conf.tx_rings ++ tail)))
    where
      tail : List Call
      tail = start ∷ macaddr_get ∷ promiscuous_enable ∷ []

      whole : Init → Init
      whole rest = call_or dev is_nonzero info_get (
          call_or dev is_nonzero
            (configure conf.rx_rings conf.tx_rings conf.max_rx_pkt_len dev.can_fast_free)
            (call_or dev is_nonzero (adjust_nb_rx_tx_desc rx_ring_size tx_ring_size) rest))

  -- The calls of a list all pass.
  pub AllPass : List Call → Type 0
  AllPass [] = Unit
  AllPass (c ∷ cs) = (stops c (dev.answer c) ≡ false) × AllPass cs

  -- The two ways in which a list of calls can end.
  pub data Ended (cs : List Call) (r : Init) : Type 0 where
    finished : AllPass cs → r ≡ (pos 0, cs) → Ended cs r
    stopped :
        (before : List Call) (c : Call) (after : List Call)
        → cs ≡ before ++ (c ∷ after)
        → AllPass before
        → stops c (dev.answer c) ≡ true
        → r ≡ (dev.answer c, before ++ (c ∷ []))
        → Ended cs r

  perform-Ended : (cs : List Call) → Ended cs (perform dev cs)
  unfolding perform AllPass
  perform-Ended [] = finished tt refl
  perform-Ended (c ∷ cs) = elim (Bool-cases (stops c (dev.answer c))) [
    | inl e ↦ stopped [] c cs refl tt e (rw e)
    | inr e ↦ elim (perform-Ended cs) [
      | finished pass r ↦ finished (e, pass) (rw (e, r))
      | stopped before d after split pass s r ↦
          stopped (c ∷ before) d after (ap (◌∷◌ c) split) (e, pass) s (rw (e, r))
    ]
  ]

  -- port_init answers -1 and makes no call for a port that is not valid; else it makes the calls of
  -- the script in order and answers 0 if all pass, or stops at the first that does not pass and
  -- answers its code.
  pub port_init-Ended :
      (conf : PortConf)
      → ((dev.is_valid_port ≡ false) × (port_init dev conf ≡ (negsuc 0, [])))
        ⊎ ((dev.is_valid_port ≡ true) × Ended (script dev conf) (port_init dev conf))
  port_init-Ended conf = elim (Bool-cases dev.is_valid_port) [
    | inl e ↦ inr (
      e,
      subst (Ended (script dev conf))
          (sym (port_init-perform conf ∙ if_true dev.is_valid_port _ _ e))
          (perform-Ended (script dev conf)),
    )
    | inr e ↦ inl (e, port_init-perform conf ∙ if_false dev.is_valid_port _ _ e)
  ]
