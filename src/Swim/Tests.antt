-- ===== src/Swim/Tests.antt =====
-- A node of internal/swim/swim.go that knows two others.
use geryon.Base.{none, ℕ, ◌≡◌, refl, List, [], ◌∷◌, some, true, string_discrete, ne_of_test, arith}
use geryon.Base.Map.{lookup}
use geryon.Swim.{
  Protocol, Member, Calls, alive, suspect, dead, find, message, sync, died, new_protocol,
}
use geryon.Swim.Probes.{probe, time_out, check_suspects}
use geryon.Swim.Step.{Action, receives, checks, run}
use geryon.Swim.Keeping.{IsValid, Keeps}
use geryon.Swim.Incarnations.{run-Keeps}
use geryon.Swim.Deaths.{find-check_suspects, Fate, acked, probed-dies}
use geryon.Swim.Silence.{IsDown, run-IsDown}

abbrev calls : Calls
calls = record {
  target_of = λ s. some s;
  address_of = λ s. some s;
  is_valid_address = λ s. true;
  hmac = λ secret kind names inc payload infos. secret;
}

abbrev member_b : Member
member_b = record {
  id = "b";
  address = "b:1";
  state = alive;
  incarnation = 3;
  last_seen = 0;
  last_probe = 0;
}

abbrev member_c : Member
member_c = record member_b { id = "c"; address = "c:1"; state = suspect; last_probe = 10 }

abbrev node_a : Protocol
node_a = record (new_protocol "a" "a:1") { members = ("b", member_b) ∷ ("c", member_c) ∷ [] }

node_a-IsValid : IsValid node_a.members
unfolding lookup string_discrete
node_a-IsValid = record { is_map = (refl, (refl, tt)); keyed = λ id m h. ground arith }

-- A message from "b" of an older incarnation, a rumour that "c" is dead, and a check.
abbrev steps : List (ℕ × Action)
steps =
    (1, receives (record (message sync "b") { payload = "b:2"; incarnation = 2 }) "b:9")
    ∷ (2, receives (record (message died "b") { target = "c"; incarnation = 3 }) "b:9")
    ∷ (3, checks)
    ∷ []

run-Keeps_example : Keeps node_a.members (run calls node_a steps).members
run-Keeps_example = run-Keeps calls steps node_a node_a-IsValid

find-check_suspects_example :
    (find "c" node_a ≡ none → find "c" (check_suspects calls 6000000000 node_a) ≡ none)
    × ((m : Member)
        → find "c" node_a ≡ some m
        → Fate node_a.suspect_timeout 6000000000 m
            (find "c" (check_suspects calls 6000000000 node_a)))
find-check_suspects_example = find-check_suspects calls 6000000000 "c" node_a node_a-IsValid

probed-dies_example :
    (n : Member) × (find "b" (
        check_suspects calls 5000000022
          (time_out calls "b" 0 (acked "b" (21 ∷ 22 ∷ []) (probe calls 20 member_b node_a))))
      ≡ some n)
    × (n.state ≡ dead)
unfolding lookup string_discrete new_protocol
probed-dies_example =
    probed-dies calls 20 5000000022 0 (21 ∷ 22 ∷ []) member_b node_a node_a-IsValid refl refl
      (omega arith)

run-IsDown_example : IsDown "c" (run calls node_a steps).members
unfolding lookup string_discrete
run-IsDown_example =
    run-IsDown calls "c" steps node_a node_a-IsValid
      (ne_of_test "b" "c" refl, (ne_of_test "b" "c" refl, (tt, tt)))
      (record { member = member_c; found = refl; down = refl })
