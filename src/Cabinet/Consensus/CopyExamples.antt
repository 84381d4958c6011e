-- ===== src/Cabinet/Consensus/CopyExamples.antt =====
-- Two rounds of three servers whose followers carry all commands out.
use cabinet_kv_store.Base.{arith, refl, [], ◌∷◌}
use cabinet_kv_store.Float64.Fraction.{fractions}
use cabinet_kv_store.Cabinet.Election.{reply_lost}
use cabinet_kv_store.Cabinet.Consensus.{ClusterInput, cluster_loop}
use cabinet_kv_store.Cabinet.Consensus.Copies.{Reaches, Replicated, replicated}
use cabinet_kv_store.Cabinet.Consensus.Examples.{
  count, leader, all_answer, followers, input-Answers,
}

-- A round in which every reply is lost.
abbrev lost : ClusterInput
lost = record all_answer { contact = λ _. reply_lost }

answer-Reaches : Reaches fractions count 3 1 all_answer
answer-Reaches = record { calls = input-Answers; there = refl; reached = λ e. cc }

lost-Reaches : Reaches fractions count 3 1 lost
lost-Reaches = record { calls = input-Answers; there = refl; reached = λ e. cc }

replicated_example :
    Replicated fractions count
      (lost ∷ all_answer ∷ [])
      1
      leader
      (followers 0)
      (cluster_loop fractions count (lost ∷ all_answer ∷ []) leader (followers 0))
replicated_example =
    replicated fractions count (lost ∷ all_answer ∷ []) 1 leader (followers 0)
      (λ op key value db e. cc) (lost-Reaches, (answer-Reaches, tt)) (omega arith)
