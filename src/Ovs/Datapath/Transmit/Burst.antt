-- ===== src/Ovs/Datapath/Transmit/Burst.antt =====
-- What becomes of the packets of a batch that is sent.
use repath.Base.{
  ℕ, zero, suc, ◌+◌, ◌-◌, ◌≤◌, ◌≡◌, refl, sym, ap, some, List, [], ◌∷◌, ◌++◌, length, take, drop,
  arith, ◌==◌, ◌∙◌, Bool-cases, inl, inr, take-append-drop, ◌⊎◌, length-take, length-drop,
}
use mathlib.Core.List.{append_assoc}
use repath.Ovs.Datapath.Transmit.{
  Transmitted, TxDevice, tx_rounds, nb_tx_prep, netdev_dpdk_eth_tx_burst,
}

drop-append {ℓ} : {B : Type ℓ} (xs ys : List B) → drop (length xs) (xs ++ ys) ≡ ys
drop-append [] ys = refl
drop-append (x ∷ xs) ys = drop-append xs ys

module _ {ℓ} {B : Type ℓ} (dev : TxDevice B) where
  -- The documented bound of rte_eth_tx_burst.
  abbrev pub IsTxDevice : Type ℓ
  IsTxDevice = (n : ℕ) (pkts : List B) → dev.tx_burst n pkts ≤ length pkts

  -- Nothing is left, or a call of rte_eth_tx_burst has taken nothing of what is left.
  abbrev pub IsStopped : List B → Type 0
  IsStopped left = (length left ≡ 0) ⊎ ((call : ℕ) × (dev.tx_burst call left ≡ 0))

  tx_rounds-IsStopped :
      IsTxDevice
      → (fuel n : ℕ) (pkts : List B) → length pkts ≤ fuel
      → (sent left : List B) × (tx_rounds dev fuel n pkts ≡ some sent)
        × (sent ++ left ≡ pkts)
        × IsStopped left
  unfolding tx_rounds
  tx_rounds-IsStopped bound zero n pkts h =
      ([], pkts, ground (arith, h), refl, inl (omega (arith, h)))
  tx_rounds-IsStopped bound (suc fuel) n pkts h = elim (Bool-cases (length pkts == 0)) [
    | inl e ↦ ([], pkts, ground (arith, e), refl, inl (ground (arith, e)))
    | inr m ↦ elim (Bool-cases (dev.tx_burst n pkts == 0)) [
      | inl z ↦ ([], pkts, ground (arith, m, z), refl, inr (n, ground (arith, z)))
      | inr k ↦
          let ret = dev.tx_burst n pkts in
          let shorter : length (drop ret pkts) ≤ fuel =
            ground (arith, h, k, length-drop ret pkts) in
          let (sent, left, ran, whole, stopped) =
            tx_rounds-IsStopped bound fuel (n + 1) (drop ret pkts) shorter in
          (
            take ret pkts ++ sent,
            left,
            ground (arith, m, k, ran),
            append_assoc (take ret pkts) sent left
                ∙ ap (λ xs. take ret pkts ++ xs) whole
                ∙ take-append-drop ret pkts,
            stopped,
          )
    ]
  ]

  -- Whatever the device takes of a batch, sending returns after as many calls as there are packets
  -- at most, provided that a call takes no more than it is offered. The packets that are sent and
  -- those that are freed are the batch, in order, and the freed ones are counted. The freed ones are
  -- those that are not prepared, behind what a call of rte_eth_tx_burst that took nothing left.
  pub netdev_dpdk_eth_tx_burst_lem :
      IsTxDevice
      → (pkts : List B)
      → (result : Transmitted B) × (netdev_dpdk_eth_tx_burst dev (length pkts) pkts ≡ some result)
        × (result.sent ++ result.freed ≡ pkts)
        × (result.failed ≡ length result.freed)
        × (left : List B) × (result.freed ≡ left ++ drop (nb_tx_prep dev pkts) pkts)
        × IsStopped left
  unfolding netdev_dpdk_eth_tx_burst
  netdev_dpdk_eth_tx_burst_lem bound pkts =
      let prepared = take (nb_tx_prep dev pkts) pkts in
      let rest = drop (nb_tx_prep dev pkts) pkts in
      let fits : length prepared ≤ length pkts =
        omega (arith, length-take (nb_tx_prep dev pkts) pkts) in
      let (sent, left, ran, whole, stopped) =
        tx_rounds-IsStopped bound (length pkts) 0 prepared fits in
      let all : sent ++ (left ++ rest) ≡ pkts =
        sym (append_assoc sent left rest)
        ∙ ap (λ xs. xs ++ rest) whole
        ∙ take-append-drop (nb_tx_prep dev pkts) pkts in
      let freed : drop (length sent) pkts ≡ left ++ rest =
        ap (drop (length sent)) (sym all) ∙ drop-append sent (left ++ rest) in
      (
        record { sent = sent; freed = drop (length sent) pkts; failed = length pkts - length sent },
        ground (arith, ran),
        ap (λ xs. sent ++ xs) freed ∙ all,
        sym (length-drop (length sent) pkts),
        left,
        freed,
        stopped,
      )
