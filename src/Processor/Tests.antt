-- ===== src/Processor/Tests.antt =====
-- Transactions of small calls, and the theorems of this component applied to them.
use cloud_storage_system.Base.{◌≡◌, List, [], ◌∷◌, map}
use cloud_storage_system.Base.Int.{ℤ, pos}
use cloud_storage_system.Base.Lists.{length}
use cloud_storage_system.Base.Text.{text}
use cloud_storage_system.Core.State.{empty}
use cloud_storage_system.Core.Runs.{run}
use cloud_storage_system.Core.Instance.{in_memory}
use cloud_storage_system.Protocol.Sample.{sample_codec, sample_codec-IsLossless}
use cloud_storage_system.Processor.{work}
use cloud_storage_system.Processor.Calls.{Call, create, deposit, spenders}
use cloud_storage_system.Processor.Refinement.{queued, timed, work-run}

abbrev calls : List (ℤ × Call)
calls =
    (pos 1, create (text "acc1"))
    ∷ (pos 2, deposit (text "acc1") (pos 40))
    ∷ (pos 3, spenders (pos 1))
    ∷ []

work-run_example :
    let after =
      work in_memory sample_codec
        (map (queued sample_codec (text "alice") (text "token")) calls)
        empty in
    (after.0 ≡ run (map timed calls) empty)
    × (length after.1 ≡ length calls)
    × (after.2 ≡ length calls)
work-run_example =
    work-run sample_codec (text "alice") (text "token") calls empty sample_codec-IsLossless
