-- ===== src/TenantManager/Gate/Tests.antt =====
-- The gate's theorems at concrete inputs.
use lib_commons.Base.{◌<◌, ◌≡◌, refl, List, [], ◌∷◌, some, arith, true}
use lib_commons.Base.Int.{pos}
use lib_commons.Base.Dict.{lookup}
use lib_commons.TenantManager.Gate.{
  Gate, run, wait, skip, new_gate, begin, begin_decide, is_recent, start_check, end,
}
use lib_commons.TenantManager.Gate.Runs.{
  Call, begins, ends, forgets, later_gate, after, begin_single, end_verdict,
}

abbrev fresh : Gate
fresh = record { interval = 30; last = []; inflight = []; next_channel = 0; closed = [] }

fresh_lem : new_gate (pos 30) ≡ fresh
unfolding new_gate
fresh_lem = refl

enabled : 0 < 30
enabled = omega arith

abbrev others : List Call
others = begins "u" 6 ∷ begins "t" 7 ∷ ends "u" true 8 ∷ forgets "u" ∷ []

owns : (begin fresh "t" 5).1 ≡ run
unfolding begin begin_decide is_recent start_check lookup new_gate
owns = refl

begin_single_example :
    begin (later_gate fresh "t" 5 others enabled owns refl) "t" 9
    ≡ (later_gate fresh "t" 5 others enabled owns refl, wait, some 0)
begin_single_example = begin_single fresh "t" 5 others enabled owns refl 9

end_verdict_example : (begin (end (after (begin fresh "t" 5).0 others) "t" true 10) "t" 25).1 ≡ skip
end_verdict_example = (end_verdict fresh "t" 5 others enabled owns refl true 10 25).1
