-- ===== src/Cabinet/Consensus/QuorumExamples.antt =====
-- The quorums of the servers of `Examples`, and instances of the theorems on them.
use cabinet_kv_store.Base.{
  ℕ, zero, suc, ◌<◌, ◌≡◌, refl, true, false, [], ◌∷◌, All, IsDistinct, contains, total, arith,
}
use cabinet_kv_store.Float64.Fraction.{fractions, fraction_units, IsMultiple}
use cabinet_kv_store.Cabinet.Consensus.{weight_of, wait_loop}
use cabinet_kv_store.Cabinet.Consensus.Quorum.{quorum_intersection, quorum_reached}
use cabinet_kv_store.Cabinet.Consensus.Examples.{whole, seven_halves, weights}

-- The weights in halves.
abbrev in_halves : ℕ → ℕ
in_halves zero = 8
in_halves (suc zero) = 4
in_halves (suc (suc zero)) = 2
in_halves _ = 0

measured : (id : ℕ) → id < 3 → IsMultiple 2 (weight_of fractions weights id) (in_halves id)
measured zero h = record { proper = omega arith; exact = refl }
measured (suc zero) h = record { proper = omega arith; exact = refl }
measured (suc (suc zero)) h = record { proper = omega arith; exact = refl }
measured (suc (suc (suc id))) h = absurd (omega arith)

measured_in_all : total 3 in_halves ≡ 14
unfolding total
measured_in_all = refl

three_nodes : All (λ s. s < 3) (2 ∷ 1 ∷ 0 ∷ []) × All (λ s. s < 3) (1 ∷ 0 ∷ 2 ∷ [])
three_nodes = (
  (omega arith, (omega arith, (omega arith, tt))),
  (omega arith, (omega arith, (omega arith, tt))),
)

three-IsDistinct : IsDistinct {A = ℕ} (2 ∷ 1 ∷ 0 ∷ []) × IsDistinct {A = ℕ} (1 ∷ 0 ∷ 2 ∷ [])
three-IsDistinct = (
  ((λ e. cc, (λ e. cc, tt)), ((λ e. cc, tt), (tt, tt))),
  ((λ e. cc, (λ e. cc, tt)), ((λ e. cc, tt), (tt, tt))),
)

both_counted :
    ((wait_loop fractions weights seven_halves (1 ∷ 0 ∷ []) (whole 1) []).timed_out ≡ false)
    × ((wait_loop fractions weights seven_halves (0 ∷ 2 ∷ []) (whole 2) []).timed_out ≡ false)
unfolding wait_loop
both_counted = (refl, refl)

quorum_intersection_example :
    (s : ℕ) × (contains
        (2 ∷ (wait_loop fractions weights seven_halves (1 ∷ 0 ∷ []) (whole 1) []).queue)
        s
      ≡ true)
    × (contains (1 ∷ (wait_loop fractions weights seven_halves (0 ∷ 2 ∷ []) (whole 2) []).queue) s
        ≡ true)
quorum_intersection_example =
    quorum_intersection fractions (fraction_units 2 100 (omega arith)) 3 weights in_halves measured
      seven_halves 7 (record { proper = omega arith; exact = refl })
      (omega (arith, measured_in_all)) 2 1 (1 ∷ 0 ∷ []) (0 ∷ 2 ∷ [])
      (omega (arith, measured_in_all)) three_nodes.0 three-IsDistinct.0 three_nodes.1
      three-IsDistinct.1 both_counted.0 both_counted.1

quorum_reached_example :
    (wait_loop fractions weights seven_halves (1 ∷ 0 ∷ []) (whole 1) []).timed_out ≡ false
quorum_reached_example =
    quorum_reached fractions (fraction_units 2 100 (omega arith)) 3 weights in_halves measured
      seven_halves 7 (record { proper = omega arith; exact = refl })
      (omega (arith, measured_in_all)) 2 (1 ∷ 0 ∷ []) (λ e. cc) three_nodes.0 three-IsDistinct.0
      (omega arith)
