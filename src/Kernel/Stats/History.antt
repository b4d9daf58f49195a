-- ===== src/Kernel/Stats/History.antt =====
-- kernel/src/stats.rs: the registry stays valid over every history.
use xray_rs.Base.{◌||◌, List, [], ◌∷◌, ltb}
use xray_rs.Base.Eq.{bytes_eq}
use xray_rs.Base.Dict.{lookup}
use xray_rs.Kernel.Stats.{
  Stats, add_up, add_down, restore, Op, step, up_op, down_op, restore_op, take_op, counter_op,
  remove_op, report_op, history,
}
use xray_rs.Kernel.Stats.Steps.{take-IsQueued, remove_user-IsValid, counter-IsValid}
use xray_rs.Kernel.Stats.Active.{
  IsValid, touch-IsValid, count_up-IsCount, count_down-IsCount, restore-IsCount,
}
use xray_rs.Kernel.Stats.Loop.{take-same, report_traffic-IsValid}

step-IsValid : (op : Op) (s : Stats) → IsValid s → IsValid (step op s)
unfolding step add_up add_down restore
step-IsValid (up_op id n) s v = touch-IsValid id (ltb 0 n) _ s (count_up-IsCount n) v
step-IsValid (down_op id n) s v = touch-IsValid id (ltb 0 n) _ s (count_down-IsCount n) v
step-IsValid (restore_op id up down) s v =
    touch-IsValid id (ltb 0 up || ltb 0 down) _ s (restore-IsCount up down) v
step-IsValid (take_op id) s v = rw (take-same id s).0 (take-IsQueued s.active id s v)
step-IsValid (counter_op tag) s v = counter-IsValid tag s v
step-IsValid (remove_op tag) s v = remove_user-IsValid tag s v
step-IsValid (report_op node_tag disabled sent) s v =
    report_traffic-IsValid node_tag disabled sent s v

-- After every history of counting, giving back, taking, opening, removing and reporting, the registry
-- is valid: it knows each counter by its tag, a counter without a mark has no traffic, and a marked
-- counter that is registered waits for the next report.
pub history-IsValid : (ops : List Op) → IsValid (history ops)
unfolding history
history-IsValid [] = record {
  known = λ tag id h. unfold lookup in cc;
  marked = λ id c h. cc;
  queued = λ tag id c h. unfold lookup in cc;
}
history-IsValid (op ∷ ops) = step-IsValid op (history ops) (history-IsValid ops)
