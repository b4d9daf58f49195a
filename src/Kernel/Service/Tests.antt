-- ===== src/Kernel/Service/Tests.antt =====
-- The services' definitions and theorems at a concrete channel.
use xray_rs.Base.{
  ℕ, ◌+◌, ◌≡◌, ◌⊎◌, refl, Bool, true, false, not, Option, none, some, List, [], ◌∷◌, ◌==◌, ==_iff,
  if◌then◌else◌, All, arith, Bool-cases,
}
use xray_rs.Base.Eq.{nat_eq, bytes_eq}
use xray_rs.Base.Dict.{lookup}
use xray_rs.Base.Result.{Result, ok}
use xray_rs.Kernel.Service.Watch.{Slot, ready, Polled, item, nothing, WatchChannel, IsLawful}
use xray_rs.Kernel.Service.{
  UpdatePolicy, abort, drain, Poll, done, SwappableService, SwapHandle, poll_ready, call,
  new_handle, update, Node, KeyedTree, Reconcile, new_tree, reconcile,
}
use xray_rs.Kernel.Service.Swap.{IsSwapped, update_lem, poll_ready_latest}
use xray_rs.Kernel.Service.Keyed.{wanted, IsValid, new_tree-IsValid}
use xray_rs.Kernel.Service.Refines.{configured}
use xray_rs.Kernel.Service.Stale.{reconcile_lem, reconcile_keeps}

-- A channel with the number of its sends, and whether it has a receiver.
record TestSender : Type 0 where
  slot : Slot ℕ
  sends : ℕ
  received : Bool

abbrev test_behind : TestSender → Option ℕ → Bool
test_behind tx none = true
test_behind tx (some seen) = not (seen == tx.sends)

abbrev test_poll : Bool → TestSender → Option ℕ → Polled ℕ × Option ℕ
test_poll true tx st = (item tx.slot, some tx.sends)
test_poll false tx st = (nothing, st)

abbrev test_send : Slot ℕ → TestSender → Bool × TestSender
test_send v tx =
    if tx.received then (true, record tx { slot = v; sends = tx.sends + 1 }) else (false, tx)

abbrev test_watch : WatchChannel ℕ
test_watch = record {
  Sender = TestSender;
  Receiver = Unit {0};
  Stream = Option ℕ;
  channel = λ v. (record { slot = v; sends = 0; received = true }, tt);
  send = test_send;
  subscribe = λ _. none;
  poll_next = λ tx st. test_poll (test_behind tx st) tx st;
  latest = λ tx. tx.slot;
  has_receiver = λ tx. tx.received;
  is_behind = test_behind;
}

test_watch-IsLawful : IsLawful test_watch
test_watch-IsLawful = record {
  latest-channel = λ v. refl;
  has_receiver-channel = λ v. refl;
  send_fails = λ v tx h. rw h refl;
  send_works = λ v tx h. rw h refl;
  latest-send = λ v tx h. rw h refl;
  has_receiver-send = λ v tx. ground arith;
  poll_behind = λ tx st h. rw h (refl, ground arith);
  poll_seen = λ tx st v h. rw h (λ e. absurd (cc e));
}

abbrev test_build : List ℕ → ℕ → ℕ
test_build key c = c + 7

abbrev a : List ℕ
a = 1 ∷ []

abbrev b : List ℕ
b = 1 ∷ 1 ∷ []

abbrev c : List ℕ
c = []

abbrev first_configs : List (List ℕ × ℕ)
first_configs = (a, 1) ∷ (b, 2) ∷ []

abbrev next_configs : List (List ℕ × ℕ)
next_configs = (a, 1) ∷ (c, 3) ∷ (b, 20) ∷ []

abbrev empty_tree : KeyedTree ℕ test_watch
empty_tree = new_tree ℕ test_watch abort

abbrev first_tree : KeyedTree ℕ test_watch
first_tree = (reconcile test_watch test_build first_configs empty_tree).0

-- What is added, swapped, kept and dropped, and which token a swap cancels.
reconcile_tests :
    ((reconcile test_watch test_build next_configs first_tree).1
      ≡ record { added = c ∷ []; updated = b ∷ []; removed = []; unchanged = a ∷ [] })
    × ((reconcile test_watch test_build ((c, 3) ∷ []) first_tree).1
        ≡ record { added = c ∷ []; updated = []; removed = a ∷ b ∷ []; unchanged = [] })
    × (lookup b (reconcile test_watch test_build next_configs first_tree).0.nodes
        ≡ some (record {
          config = 20;
          handle = record {
            tx = record { slot = ready 27; sends = 2; received = true };
            policy = abort;
            token = 1;
            cancelled = 0 ∷ [];
          };
        }))
unfolding reconcile xray_rs.Kernel.Service.drop_keys xray_rs.Kernel.Service.stale_keys
    xray_rs.Kernel.Service.reconcile_entries xray_rs.Kernel.Service.reconcile_entry lookup
    xray_rs.Kernel.Service.add_node xray_rs.Base.Dict.insert xray_rs.Base.eq_bytes
    xray_rs.Kernel.Service.reconcile_node xray_rs.Kernel.Service.reconfigure
    xray_rs.Kernel.Service.new_node update new_handle xray_rs.Kernel.Service.publish
reconcile_tests = (refl, refl, refl)

first_tree-IsValid : IsValid test_watch test_watch-IsLawful test_build first_tree
first_tree-IsValid =
    (reconcile_lem test_watch test_watch-IsLawful test_build first_configs empty_tree
      (new_tree-IsValid test_watch test_watch-IsLawful test_build abort)).0

reconcile_lem_example :
    IsValid test_watch test_watch-IsLawful test_build
      (reconcile test_watch test_build next_configs first_tree).0
    × ((j : List ℕ)
        → configured test_watch test_watch-IsLawful test_build j
            (reconcile test_watch test_build next_configs first_tree).0
          ≡ wanted j next_configs)
reconcile_lem_example =
    reconcile_lem test_watch test_watch-IsLawful test_build next_configs first_tree
      first_tree-IsValid

abbrev a_node : Node ℕ test_watch
a_node = record {
  config = 1;
  handle = record {
    tx = record { slot = ready 8; sends = 0; received = true };
    policy = abort;
    token = 0;
    cancelled = [];
  };
}

reconcile_keeps_example :
    lookup a (reconcile test_watch test_build next_configs first_tree).0.nodes ≡ some a_node
unfolding lookup reconcile xray_rs.Kernel.Service.drop_keys xray_rs.Kernel.Service.stale_keys
    xray_rs.Kernel.Service.reconcile_entries xray_rs.Kernel.Service.reconcile_entry
    xray_rs.Kernel.Service.add_node xray_rs.Base.Dict.insert xray_rs.Base.eq_bytes
    xray_rs.Kernel.Service.new_node new_handle wanted
reconcile_keeps_example =
    reconcile_keeps test_watch test_watch-IsLawful test_build next_configs first_tree
      first_tree-IsValid a a_node refl refl
      ((λ _. refl), ((λ e. absurd (cc e)), ((λ e. absurd (cc e)), tt)))

abbrev test_handle : SwapHandle test_watch
test_handle = (new_handle test_watch 5 abort).0

update_lem_example :
    ((test_handle.tx.received ≡ true)
      × ((update test_watch 6 test_handle).0 ≡ true)
      × IsSwapped test_watch test_watch-IsLawful 6 test_handle (update test_watch 6 test_handle).1)
    ⊎ ((test_handle.tx.received ≡ false) × (update test_watch 6 test_handle ≡ (false, test_handle)))
update_lem_example = update_lem test_watch test_watch-IsLawful 6 test_handle

abbrev test_service : SwappableService test_watch
test_service = (new_handle test_watch 5 abort).1

abbrev test_polls : ℕ → Poll ℕ
test_polls s = done

abbrev test_calls : ℕ → ℕ → Result ℕ ℕ
test_calls s q = ok (s + q)

poll_ready_latest_example :
    ((poll_ready test_watch test_polls (update test_watch 6 test_handle).1.tx test_service).0
      ≡ done)
    × (call test_watch test_calls 0 3
          (poll_ready test_watch test_polls (update test_watch 6 test_handle).1.tx test_service).1
        ≡ ok 9)
unfolding new_handle xray_rs.Kernel.Service.from_receiver update xray_rs.Kernel.Service.publish
poll_ready_latest_example =
    poll_ready_latest test_watch test_watch-IsLawful test_polls test_calls 0 3
      (update test_watch 6 test_handle).1.tx test_service refl
