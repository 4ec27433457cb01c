-- ===== src/Raft/Machine/Tests.antt =====
-- Commands of internal/raft/fsm.go about two users.
use geryon.Base.{◌≡◌, List, [], ◌∷◌, none, some}
use geryon.Raft.Machine.{
  FsmUser, Command, user_create, user_update, user_delete, new_machine, apply_all,
}
use geryon.Raft.Machine.Users.{user, decide_all, user-apply_all}

abbrev ada : FsmUser
ada = record {
  username = "ada";
  password_hash = "x";
  max_connections = 3;
  default_pool = "main";
  allowed_pools = "main" ∷ [];
}

abbrev commands : List Command
commands =
    user_create (some ada)
    ∷ user_update (some (record ada { max_connections = 9 }))
    ∷ user_delete (some "bob")
    ∷ user_delete none
    ∷ []

user-apply_all_example :
    user "ada" (apply_all commands new_machine) ≡ decide_all "ada" commands (user "ada" new_machine)
user-apply_all_example = user-apply_all "ada" commands new_machine
