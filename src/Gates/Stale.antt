-- ===== src/Gates/Stale.antt =====
-- Gates 3 and 4 of ar724/promotion_gate.py, as `run_all_gates` calls them.
use mathlib.Core.Option
use ztrade_ares_7x.Base.{
  Option-cases, ℕ, String, ◌≡◌, ◌≢◌, ◌↔◌, inl, inr, Option, none, some, arith, eq_iff,
}
use ztrade_ares_7x.Db.{Db}
use ztrade_ares_7x.Gates.{
  gate_candidate_hash, latest_evaluation, gate_stale_artifact, hash_mismatch, stale_other,
}
use ztrade_ares_7x.Gates.Each.{latest_evaluation-some}

abbrev evaluated_hash : Db → String → Option String
evaluated_hash db hash = Option.map (λ e. e.candidate_hash) (latest_evaluation db hash)

-- Gate 4 looks for a stale evaluation in the rows that were selected by the candidate's own hash,
-- and does not look at the iteration: for a hash that is not empty it passes, for any iteration,
-- exactly if gate 3 does, and neither ever reports a mismatch.
gate_stale-redundant :
    (db : Db) (hash : String) (iteration_id : ℕ)
    → hash ≢ ""
    → ((gate_stale_artifact hash iteration_id db ≡ none)
        ↔ (gate_candidate_hash hash (evaluated_hash db hash) ≡ none))
      × (gate_stale_artifact hash iteration_id db ≢ some stale_other)
      × (gate_candidate_hash hash (evaluated_hash db hash) ≢ some hash_mismatch)
unfolding gate_stale_artifact gate_candidate_hash
gate_stale-redundant db hash iteration_id named = elim (Option-cases (latest_evaluation db hash)) [
  | inl e ↦ rw e ((λ h. cc, λ h. cc), λ h. cc, λ h. cc)
  | inr (row, e) ↦
      let (_, same) = latest_evaluation-some db hash {e = row} e in
      let own = eq_iff row.candidate_hash hash in
      let other = eq_iff hash row.candidate_hash in
      let empty = eq_iff row.candidate_hash "" in
      rw e (
        (λ h. ground (arith, own, other, empty), λ h. ground (arith, own, other, empty)),
        λ h. ground (arith, own, other, empty),
        λ h. ground (arith, own, other, empty),
      )
]
