-- ===== src/Tests/Identities.antt =====
-- Run identities, and a ticket whose key holds the marker.
use relay_flow.Prelude.{ℕ, List, ◌≡◌, ◌≢◌, inl, refl, arith}
use relay_flow.Workflow.Name.{codes}
use relay_flow.Identity.{
  digits, decimal, new_run_id, new_attempt_run_id, before_last, logical_run_id,
}
use relay_flow.Identity.RoundTrip.{logical_run_id-new_attempt_run_id, new_attempt_run_id-differs}

abbrev identity_of : List ℕ
identity_of = codes "app/demo/K-1"

identity-new_run_id : new_run_id (λ s. s) (codes "app") (codes "demo") (codes "K-1") ≡ identity_of
unfolding new_run_id
identity-new_run_id = refl

twelfth : new_attempt_run_id identity_of 12 ≡ codes "app/demo/K-1~attempt~12"
unfolding new_attempt_run_id decimal digits
twelfth = refl

-- The identity of a first attempt is cut where the ticket's key holds the marker.
cut_key : logical_run_id (codes "app/demo/K~attempt~x") ≡ codes "app/demo/K"
unfolding logical_run_id before_last
cut_key = refl

logical_run_id-new_attempt_run_id_example :
    logical_run_id (new_attempt_run_id identity_of 12) ≡ identity_of
logical_run_id-new_attempt_run_id_example =
    logical_run_id-new_attempt_run_id identity_of 12 (inl (omega arith))

two_three : ◌≢◌ {A = ℕ} 2 3
two_three h = ground arith

new_attempt_run_id-differs_example :
    new_attempt_run_id identity_of 2 ≢ new_attempt_run_id identity_of 3
new_attempt_run_id-differs_example =
    new_attempt_run_id-differs identity_of 2 3 (omega arith) (omega arith) two_three
