-- ===== src/Proc/Signals/Tests.antt =====
-- The signal actions of crates/proc/src/lib.rs at a concrete input.
use whuse.Prelude.{◌≡◌, refl, some, ok, arith, ◌==◌, if◌then◌else◌}
use whuse.Prelude.BTreeMap.{get}
use whuse.Proc.{ProcessTable, SigAction}
use whuse.Proc.Signals
use whuse.Proc.Signals.{set_sigaction, sigaction}
use whuse.Proc.Table.Tests.{family, thread}

abbrev on_interrupt : SigAction
on_interrupt = record { handler = 0x1_0000; flags = 4; restorer = 0; mask = 0 }

set_sigaction-sigaction_example :
    (t' : ProcessTable) × (set_sigaction family 2 on_interrupt ≡ ok t')
    × (sigaction (record t' { current_tid = 2 }) 2
        ≡ (if 2 == 2 then ok on_interrupt else sigaction (record family { current_tid = 2 }) 2))
unfolding get
set_sigaction-sigaction_example =
    Signals.set_sigaction-sigaction family 2 2 on_interrupt (thread 3 2 (some 1) 1000) (omega arith)
      (omega arith) refl 2 (thread 2 2 (some 1) 1000) refl refl
