-- ===== src/Tests/Kinds.antt =====
-- The signals of the kinds of bus master on masters that have them.
use ipdbg.Prelude.{refl, [], arith}
use ipdbg.Os.{Os, IsQuiet}
use ipdbg.Command.{this}
use ipdbg.Link.Returns.{Returns}
use ipdbg.BusAccess.Core.{round_up}
use ipdbg.BusAccess.Masters.{set_hprot_hsize}
use ipdbg.BusAccess.Invariant.{IsValid}
use ipdbg.BusAccess.Hprot.{HprotPost, set_hprot_hsize-HprotSet}
use ipdbg.Tests.{script_os, script_os-IsQuiet}
use ipdbg.Tests.Bus.{opened, opened-IsValid}

abbrev os : Os
os = script_os []

abbrev quiet : IsQuiet os 1
quiet = script_os-IsQuiet []

axi-IsValid : IsValid (opened 6)
unfolding round_up
axi-IsValid = opened-IsValid 6 refl

apb-IsValid : IsValid (opened 3)
unfolding round_up
apb-IsValid = opened-IsValid 3 refl

dtm-IsValid : IsValid (opened 2)
unfolding round_up
dtm-IsValid = opened-IsValid 2 refl

avalon-IsValid : IsValid (opened 1)
unfolding round_up
avalon-IsValid = opened-IsValid 1 refl

ahb-IsValid : IsValid (opened 7)
unfolding round_up
ahb-IsValid = opened-IsValid 7 refl

set_hprot_hsize-HprotSet_example :
    Returns (HprotPost os 1 5 0 (opened 7)) (set_hprot_hsize os 1 this 5 0 (opened 7))
set_hprot_hsize-HprotSet_example =
    set_hprot_hsize-HprotSet os 1 quiet 5 0 (opened 7) ahb-IsValid (omega arith)
