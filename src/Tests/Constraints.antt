-- ===== src/Tests/Constraints.antt =====
-- The theorems on the constraints of types/types.go, at concrete expressions.
use fabric8_oso_proxy.Base.{false, ◌≡◌, ◌↔◌}
use fabric8_oso_proxy.Base.Run.{ok}
use fabric8_oso_proxy.Base.Strings.{codes}
use fabric8_oso_proxy.Types.Constraints.{Constraint, new_constraint}
use fabric8_oso_proxy.Types.Constraints.Parsing.{IsWritten, new_constraint_iff}

abbrev not_us : Constraint
not_us = record { key = codes "tag"; must_match = false; regex = codes "us-*" }

new_constraint_iff_example :
    (new_constraint (codes "tag!=us-*") ≡ ok not_us) ↔ IsWritten (codes "tag!=us-*") not_us
new_constraint_iff_example = new_constraint_iff (codes "tag!=us-*") not_us
