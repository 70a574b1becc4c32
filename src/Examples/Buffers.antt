-- ===== src/Examples/Buffers.antt =====
-- Runs on buffers.
use webserer_core.Base.{◌≡◌, refl, codes, arith, hung, outcome_map}
use webserer_core.Buffer.{append_within, append, content, earase}
use webserer_core.Buffer.Growth.{append-earase}
use webserer_core.Buffer.Queue.{push, append_within-push}
use webserer_core.Examples.Data.{holding, holding-IsValid}

append_within-push_example :
    outcome_map content (append_within 5 (codes "cd") (holding (codes "ab")))
    ≡ push 5 (codes "cd") (codes "ab")
unfolding content
append_within-push_example =
    append_within-push 5 (codes "cd") (holding (codes "ab"))
      (holding-IsValid (codes "ab") (omega arith)) (omega arith)

append-earase_example : append (codes "a") (earase (holding (codes "xyz"))) ≡ hung
append-earase_example =
    append-earase (codes "a") (holding (codes "xyz")) refl refl (omega arith) (omega arith)
