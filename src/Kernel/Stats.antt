-- ===== src/Kernel/Stats.antt =====
-- kernel/src/stats.rs: the traffic counters of the users, and the report that user_info_monitor of
-- saas/src/controller.rs makes of them. A counter is shared, so the store holds
-- them by number, and a holder of an `Arc` keeps its number after the registry drops it. The numbers
-- are the code's `u64`; one operation runs at a time.
pub mod Active
pub mod Steps
pub mod Loop
pub mod Report
pub mod History
use xray_rs.Base.{
  ℕ, zero, suc, ◌+◌, ◌-◌, ◌%◌, ◌^◌, Bool, true, false, ◌||◌, ◌&&◌, Option, none, some, List, [],
  ◌∷◌, ◌++◌, ltb, ◌==◌, if◌then◌else◌, length, get_elem?, set, any, eq_bytes,
}
use xray_rs.Base.Eq.{bytes_eq}
use xray_rs.Base.Text.{bytes, strip_prefix, rsplit_once}
use xray_rs.Base.Int.{ℤ, parse_i32, i64_or_max}
use xray_rs.Base.Optional.{◌>>=◌}
use xray_rs.Base.Dict.{Dict, lookup, insert, remove}

-- `active` is there for a counter that the registry made.
pub record Counter : Type 0 where
  pub up : ℕ
  pub down : ℕ
  pub dirty : ℕ
  pub tag : List ℕ

pub record Stats : Type 0 where
  pub counters : List Counter
  pub users : Dict (List ℕ) ℕ
  pub active : List (List ℕ)

abbrev pub wrap : ℕ → ℕ
wrap n = n % 2 ^ 64

abbrev pub new_stats : Stats
new_stats = record { counters = []; users = []; active = [] }

-- `HashSet::insert` and `HashSet::remove`
unfoldable pub insert_tag : List ℕ → List (List ℕ) → List (List ℕ)
insert_tag tag set = if any (eq_bytes tag) set then set else tag ∷ set

unfoldable pub remove_tag : List ℕ → List (List ℕ) → List (List ℕ)
remove_tag tag [] = []
remove_tag tag (t ∷ set) =
    let rest = remove_tag tag set in if eq_bytes tag t then rest else t ∷ rest

-- `Counter::mark_active`, with the set of active tags.
unfoldable pub mark_active : Counter → List (List ℕ) → Counter × List (List ℕ)
mark_active c active =
    if c.dirty == 0 then (record c { dirty = 1 }, insert_tag c.tag active) else (c, active)

unfoldable pub mark_if : Bool → Counter → List (List ℕ) → Counter × List (List ℕ)
mark_if true c active = mark_active c active
mark_if false c active = (c, active)

abbrev pub put : ℕ → Counter × List (List ℕ) → Stats → Stats
put id (c, active) s = record s { counters = set s.counters id c; active = active }

-- The mark of a counter that has traffic, and then the change `f` of its numbers.
unfoldable pub touch : (id : ℕ) → (traffic : Bool) → (f : Counter → Counter) → Stats → Stats
touch id traffic f s = elim (get_elem? s.counters id) [
  | none ↦ s
  | some c ↦ let (d, active) = mark_if traffic c s.active in put id (f d, active) s
]

unfoldable pub count_up : ℕ → Counter → Counter
count_up n c = record c { up = wrap (c.up + n) }

unfoldable pub count_down : ℕ → Counter → Counter
count_down n c = record c { down = wrap (c.down + n) }

-- `Counter::add_up`, `Counter::add_down` and `Counter::restore`
unfoldable pub add_up : (id n : ℕ) → Stats → Stats
add_up id n s = touch id (ltb 0 n) (count_up n) s

unfoldable pub add_down : (id n : ℕ) → Stats → Stats
add_down id n s = touch id (ltb 0 n) (count_down n) s

unfoldable pub restore : (id up down : ℕ) → Stats → Stats
restore id up down s = touch id (ltb 0 up || ltb 0 down) (λ c. count_down down (count_up up c)) s

-- `Counter::take`
unfoldable pub take : (id : ℕ) → Stats → (ℕ × ℕ) × Stats
take id s = elim (get_elem? s.counters id) [
  | none ↦ ((0, 0), s)
  | some c ↦ ((c.up, c.down), put id (record c { up = 0; down = 0; dirty = 0 }, s.active) s)
]

abbrev fresh_counter : List ℕ → Counter
fresh_counter tag = record { up = 0; down = 0; dirty = 0; tag = tag }

-- `Stats::counter`: the number of the tag's counter.
unfoldable pub counter : List ℕ → Stats → ℕ × Stats
counter tag s = elim (lookup tag s.users) [
  | some id ↦ (id, s)
  | none ↦ (
    length s.counters,
    record s {
      counters = s.counters ++ (fresh_counter tag ∷ []);
      users = insert tag (length s.counters) s.users;
    },
  )
]

-- `Stats::get`
abbrev pub get : List ℕ → Stats → Option ℕ
get tag s = lookup tag s.users

-- `Stats::remove`
unfoldable pub remove_user : List ℕ → Stats → Stats
remove_user tag s = record s { users = remove tag s.users; active = remove_tag tag s.active }

unfoldable pub registered : Dict (List ℕ) ℕ → List (List ℕ) → List (List ℕ × ℕ)
registered users [] = []
registered users (tag ∷ tags) =
    let rest = registered users tags in
    elim (lookup tag users) [ none ↦ rest | some id ↦ (tag, id) ∷ rest ]

-- `Stats::active_counters`, in the order in which the set drains.
unfoldable pub active_counters : Stats → List (List ℕ × ℕ) × Stats
active_counters s = (registered s.users s.active, record s { active = [] })

-- `UserTraffic`, and what a report keeps of a counter: its number and what was taken.
pub record UserTraffic : Type 0 where
  pub uid : ℤ
  pub email : List ℕ
  pub upload : ℕ
  pub download : ℕ

abbrev pub Taken : Type 0
Taken = ℕ × ℕ × ℕ

-- `parse_user_tag`
unfoldable pub parse_user_tag : (node_tag tag : List ℕ) → Option (ℤ × List ℕ)
parse_user_tag node_tag tag = do
  rest ← strip_prefix (node_tag ++ bytes "|") tag
  p ← rsplit_once b'|' rest
  uid ← parse_i32 p.1
  some (uid, p.0)

abbrev pub push :
    Option (UserTraffic × Taken) → List UserTraffic × List Taken → List UserTraffic × List Taken
push none r = r
push (some (u, k)) (traffic, taken) = (u ∷ traffic, k ∷ taken)

module _ (node_tag : List ℕ) where
  -- One counter of the report: what it adds to it, if anything.
  unfoldable pub take_one : (tag : List ℕ) → (id : ℕ) → Stats → Option (UserTraffic × Taken) × Stats
  take_one tag id s =
      let ((up, down), t) = take id s in
      if up == 0 && down == 0 then (none, t) else elim (parse_user_tag node_tag tag) [
        | none ↦ (none, restore id up down t)
        | some (uid, email) ↦ (
          some (
            record { uid = uid; email = email; upload = i64_or_max up; download = i64_or_max down },
            (id, up, down),
          ),
          t,
        )
      ]

  -- The loop of `user_info_monitor` over the active counters.
  unfoldable pub take_all : List (List ℕ × ℕ) → Stats → (List UserTraffic × List Taken) × Stats
  take_all [] s = (([], []), s)
  take_all ((tag, id) ∷ tags) s =
      let (one, t) = take_one tag id s in let (r, u) = take_all tags t in (push one r, u)

  unfoldable pub collect : Stats → (List UserTraffic × List Taken) × Stats
  collect s = let (tags, t) = active_counters s in take_all tags t

unfoldable pub restore_all : List Taken → Stats → Stats
restore_all [] s = s
restore_all ((id, up, down) ∷ taken) s = restore_all taken (restore id up down s)

abbrev pub settle : (disabled sent : Bool) → List UserTraffic × List Taken → Stats → Stats
settle disabled sent ([], taken) s = s
settle disabled sent (u ∷ traffic, taken) s = if disabled || sent then s else restore_all taken s

-- The traffic of `user_info_monitor`: what the panel is sent, and the counters after it, by whether the
-- upload is disabled and whether the panel took it.
unfoldable pub report_traffic : (node_tag : List ℕ) → (disabled sent : Bool) → Stats → Stats
report_traffic node_tag disabled sent s =
    let (r, t) = collect node_tag s in settle disabled sent r t

-- The operations, as steps of a history.
pub data Op : Type 0 where
  up_op down_op : (id n : ℕ) → Op
  restore_op : (id up down : ℕ) → Op
  take_op : (id : ℕ) → Op
  counter_op remove_op : (tag : List ℕ) → Op
  report_op : (node_tag : List ℕ) → (disabled sent : Bool) → Op

unfoldable pub step : Op → Stats → Stats
step (up_op id n) s = add_up id n s
step (down_op id n) s = add_down id n s
step (restore_op id up down) s = restore id up down s
step (take_op id) s = (take id s).1
step (counter_op tag) s = (counter tag s).1
step (remove_op tag) s = remove_user tag s
step (report_op node_tag disabled sent) s = report_traffic node_tag disabled sent s

-- A history from the empty registry.
unfoldable pub history : List Op → Stats
history [] = new_stats
history (op ∷ ops) = step op (history ops)
