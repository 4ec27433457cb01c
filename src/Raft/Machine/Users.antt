-- ===== src/Raft/Machine/Users.antt =====
-- What the state machine of internal/raft/fsm.go knows after commands: the last word counts.
use geryon.Base.{
  ◌+◌, ◌≡◌, refl, ◌∙◌, ap, Bool, true, false, Option, none, some, List, [], ◌∷◌, String, u64,
  string_discrete, ite, arith,
}
use geryon.Base.Map.{lookup, lookup-put, lookup-delete}
use geryon.Raft.Machine.{
  FsmUser, PoolConfigUpdate, Command, no_op, unknown, pool_config_update, user_create, user_update,
  user_delete, cache_invalidate, cache_invalidate_pattern, backend_detach, backend_attach, Machine,
  apply_pool_config_update, apply_user_update, apply_user_delete, apply_cache_invalidate,
  apply_cache_invalidate_pattern, set_backend, dispatch, apply, apply_all,
}

-- What a command makes of the user of a name.
abbrev pub decide : String → Command → Option FsmUser → Option FsmUser
decide name (user_create (some u)) before = ite (string_discrete u.username name) (some u) before
decide name (user_update (some u)) before = ite (string_discrete u.username name) (some u) before
decide name (user_delete (some n)) before = ite (string_discrete n name) none before
decide name c before = before

abbrev pub decide_all : String → List Command → Option FsmUser → Option FsmUser
decide_all name [] before = before
decide_all name (c ∷ cs) before = decide_all name cs (decide name c before)

abbrev pub user : String → Machine → Option FsmUser
user name m = lookup string_discrete name m.users

users-pools :
    (u : Option PoolConfigUpdate) (m : Machine) → (apply_pool_config_update u m).0.users ≡ m.users
unfolding apply_pool_config_update
users-pools none m = refl
users-pools (some u) m = ground arith

users-backend :
    (d : Bool) (s : String) (n : Option String) (m : Machine)
    → (set_backend d s n m).0.users ≡ m.users
unfolding set_backend
users-backend d s none m = refl
users-backend d s (some n) m = ground arith

user-dispatch :
    (name : String) (c : Command) (m : Machine)
    → user name (dispatch c m).0 ≡ decide name c (user name m)
unfolding dispatch apply_user_update apply_user_delete apply_cache_invalidate
    apply_cache_invalidate_pattern
user-dispatch name no_op m = refl
user-dispatch name unknown m = refl
user-dispatch name (pool_config_update u) m = ap (lookup string_discrete name) (users-pools u m)
user-dispatch name (user_create none) m = refl
user-dispatch name (user_create (some u)) m = lookup-put string_discrete u.username name u m.users
user-dispatch name (user_update none) m = refl
user-dispatch name (user_update (some u)) m = lookup-put string_discrete u.username name u m.users
user-dispatch name (user_delete none) m = refl
user-dispatch name (user_delete (some n)) m =
    lookup-delete string_discrete n name m.users ∙ ground arith
user-dispatch name (cache_invalidate none) m = refl
user-dispatch name (cache_invalidate (some t)) m = refl
user-dispatch name (cache_invalidate_pattern none) m = refl
user-dispatch name (cache_invalidate_pattern (some t)) m = refl
user-dispatch name (backend_detach n) m =
    ap (lookup string_discrete name) (users-backend true "detached" n m)
user-dispatch name (backend_attach n) m =
    ap (lookup string_discrete name) (users-backend false "active" n m)

-- After any commands, the user of a name is what the last command that can be read and creates,
-- changes or deletes that user says, and the one from before if there is none.
pub user-apply_all :
    (name : String) (cs : List Command) (m : Machine)
    → user name (apply_all cs m) ≡ decide_all name cs (user name m)
unfolding apply_all apply
user-apply_all name [] m = refl
user-apply_all name (c ∷ cs) m =
    user-apply_all name cs (apply c m).0
    ∙ ap (decide_all name cs) (user-dispatch name c (record m { version = u64 (m.version + 1) }))
