-- ===== src/Tests/Tree.antt =====
-- The process tree of src/gui.c at concrete inputs.
use trace_glass.Base.{◌≡◌, refl, true, some, List, [], ◌∷◌}
use trace_glass.ProcessTree.{TreeItem, rebuild_process_tree}
use trace_glass.ProcessTree.Built.{IsTree, rebuild_process_tree-IsTree}
use trace_glass.Store.{ProcessRecord, new_record}
use trace_glass.Tests.Data.{word_key, shell_key, shell_start}
use trace_glass.Tests.Detection.{platform}

-- Two records, each the other's parent, and a third below one of them.
abbrev tangled : List ProcessRecord
unfolding new_record
tangled =
    new_record shell_start
    ∷ record (new_record shell_start) { key = word_key; parent = shell_key }
    ∷ record (new_record shell_start) { key = record { pid = 60; creation_time = 3000 } }
    ∷ []

rebuild_process_tree-IsTree_example :
    (nodes : List TreeItem) × (rebuild_process_tree platform.string_printf
        (λ items item. true)
        true
        tangled
      ≡ some nodes)
    × IsTree tangled nodes
rebuild_process_tree-IsTree_example =
    rebuild_process_tree-IsTree platform.string_printf (λ items item. true) tangled
      (λ items item. refl)
