-- ===== src/Tests/Pages.antt =====
-- The pages of a small table of calls.
use nurix_takehome.Common.{◌↔◌, refl, none, List, [], ◌∷◌, arith, InList}
use nurix_takehome.Model.Status.{queued, dialing}
use nurix_takehome.Model.Rows.{Call}
use nurix_takehome.Persistence.Pages.{call_key}
use nurix_takehome.Persistence.Pages.Order.{Desc}
use nurix_takehome.Persistence.Pages.Walk.{walk, walk-Desc}
use nurix_takehome.Tests.Samples.{sample_call}

abbrev three_calls : List Call
three_calls =
    sample_call 1 7 "+1" dialing ∷ sample_call 2 7 "+2" queued ∷ sample_call 3 7 "+3" queued ∷ []

walk-Desc_example :
    Desc call_key (walk call_key 4 three_calls 2 none)
    × ((c : Call) → InList c (walk call_key 4 three_calls 2 none) ↔ InList c three_calls)
walk-Desc_example =
    walk-Desc call_key three_calls 1 4 ((refl, (refl, tt)), ((refl, tt), (tt, tt))) (omega arith)
