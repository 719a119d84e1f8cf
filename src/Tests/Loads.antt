-- ===== src/Tests/Loads.antt =====
-- Stored workflows that a start-up loads.
use relay_flow.Prelude.{String, true, Option, none, some, [], ◌∷◌, ok, ◌≡◌, ◌↔◌, refl}
use relay_flow.Workflow.{Workflow}
use relay_flow.Workflow.Name.{codes}
use relay_flow.Workflow.Health.{is_routable}
use relay_flow.Store.Disk.{works, crashes}
use relay_flow.Store.Recovery.{Ends}
use relay_flow.Store.Load.{
  found, Loader, is_space, trim_left, trim_right, trim_space, byte_length, all_hex, load_recovered,
  names,
}
use relay_flow.Store.Load.Hex.{IsDigest}
use relay_flow.Store.Load.Trust.{IsTrusted, IsHealthy, load_recovered_iff}
use relay_flow.Service.{Ports, submit}
use relay_flow.Service.Restart.{Agrees, Restarts, submit-Restarts}
use relay_flow.Tests.Workflows.{demo}
use relay_flow.Tests.Stores.{old, at_rest}
use relay_flow.Tests.Services.{ports, server}

abbrev digest : String
digest = "e3b0c44298fc1c149afbf4c8996fb92427ae41e4649b934ca495991b7852b855"

abbrev loader : Loader
loader = record {
  parse = λ yaml. ok demo;
  sum = λ yaml. digest;
  reason_text = λ r. "reason";
  join = λ file. file;
}

digest-IsDigest : IsDigest (codes digest)
unfolding byte_length all_hex
digest-IsDigest = record { long = refl; digits = refl }

load_recovered_iff_example :
    (is_routable (some (load_recovered loader "demo" none (found "y") (found digest)).workflow)
      ≡ true)
    ↔ ((◌≡◌ {A = Option String} none none)
        × ((w : Workflow) × IsTrusted loader "demo" (found "y") (found digest) w
            × IsHealthy (load_recovered loader "demo" none (found "y") (found digest)) w))
load_recovered_iff_example =
    load_recovered_iff loader "demo" (λ raw. digest-IsDigest) none (found "y") (found digest)

abbrev summing : Ports
summing = record ports { sum = λ yaml. digest }

summing-Agrees : Agrees summing loader
summing-Agrees = record {
  parse = λ yaml. refl;
  sum = λ yaml. refl;
  digest = λ yaml. digest-IsDigest;
}

submit-Restarts_example :
    Ends
      (λ a x. Restarts summing loader server "new" old x)
      (λ e x. ⊥)
      (Restarts summing loader server "new" old)
      (submit summing server "new" at_rest
        (works ∷ works ∷ works ∷ works ∷ works ∷ works ∷ works ∷ crashes ∷ []))
submit-Restarts_example =
    submit-Restarts summing loader server "new" at_rest
      (works ∷ works ∷ works ∷ works ∷ works ∷ works ∷ works ∷ crashes ∷ []) summing-Agrees
      (refl, refl, tt) tt refl

-- A blank after the sum does no harm.
trims : trim_space (codes " ab\n") ≡ codes "ab"
unfolding trim_space trim_left trim_right is_space
trims = refl

sorts : names ("b" ∷ "a" ∷ "b" ∷ []) ≡ "a" ∷ "b" ∷ []
unfolding names
sorts = refl
