-- ===== src/Authz/Policy.antt =====
-- The policy, the name of an action, and the decision. The policy file is read and parsed by `load_policy`
-- (file system and `toml`): its outcome is an argument, as is the value of `FERRITE_PRINCIPAL`.
use ferrite_mcp.Prelude.{
  ℕ, Bool, true, false, not, ◌&&◌, ◌||◌, Option, none, some, List, [], ◌∷◌, ◌++◌, ltb,
  if◌then◌else◌, Text, codes, text_eq, starts_with, byte_len,
}
use ferrite_mcp.Dict.{Dict, get}

pub record RuntimeLimits : Type 0 where
  pub max_session_mutable_bytes : Option ℕ
  pub max_session_immutable_bytes : Option ℕ
  pub max_total_alloc_bytes : Option ℕ
  pub max_concurrent_jobs : Option ℕ

pub record RolePolicy : Type 0 where
  pub allow : List Text
  pub deny : List Text
  pub limits : RuntimeLimits

pub record AuthzPolicy : Type 0 where
  pub default_role : Text
  pub principals : Dict Text
  pub roles : Dict RolePolicy

pub record Decision : Type 0 where
  pub allowed : Bool
  pub principal : Text
  pub role : Text
  pub action : Text
  pub reason : Text

-- the outcome of `load_policy`: `Err`, `Ok(None)`, `Ok(Some(policy))`
pub data Loaded : Type 0 where
  policy_error : (message : Text) → Loaded
  no_policy : Loaded
  policy : AuthzPolicy → Loaded

-- The strings of the arguments that `action_for` looks at, each where it is there and is a string.
pub record ActionArgs : Type 0 where
  pub action : Option Text
  pub op : Option Text
  pub input_op : Option Text

unfoldable pub action_for : Text → ActionArgs → Text
action_for tool args = elim args.action [
  | some a ↦ tool ++ codes "." ++ a
  | none ↦ elim args.op [
    | some o ↦ tool ++ codes "." ++ o
    | none ↦ elim args.input_op [ some o ↦ tool ++ codes "." ++ o | none ↦ tool ]
  ]
]

unfoldable pub cons_some : ℕ → Option Text → Option Text
cons_some c none = none
cons_some c (some p) = some (c ∷ p)

-- `strip_suffix(".*")`
unfoldable pub strip_dot_star : Text → Option Text
unfolding cons_some
strip_dot_star [] = none
strip_dot_star (c ∷ cs) =
    let rest = cons_some c (strip_dot_star cs) in
    if text_eq (c ∷ cs) (codes ".*") then some [] else rest

unfoldable pub matches_action : Text → Text → Bool
unfolding strip_dot_star
matches_action pattern action =
    if text_eq pattern (codes "*") then true else elim (strip_dot_star pattern) [
      | some prefix ↦ starts_with prefix action && ltb (byte_len prefix) (byte_len action)
      | none ↦ text_eq pattern action
    ]

unfoldable pub any_match : List Text → Text → Bool
any_match [] action = false
any_match (p ∷ ps) action = matches_action p action || any_match ps action

unfoldable pub is_empty : List Text → Bool
is_empty [] = true
is_empty (p ∷ ps) = false

-- the role of a principal, from its entry or by default
unfoldable pub role_of : AuthzPolicy → Text → Text
unfolding get
role_of p who = elim (get p.principals who) [ some r ↦ r | none ↦ p.default_role ]

unfoldable pub decide : RolePolicy → (principal role action : Text) → Decision
unfolding any_match is_empty
decide rp principal role action =
    if any_match rp.deny action
    then record {
      allowed = false;
      principal = principal;
      role = role;
      action = action;
      reason = codes "explicit_deny";
    }
    else if not (is_empty rp.allow) && not (any_match rp.allow action)
    then record {
      allowed = false;
      principal = principal;
      role = role;
      action = action;
      reason = codes "not_allowed";
    }
    else record {
      allowed = true;
      principal = principal;
      role = role;
      action = action;
      reason = codes "allowed";
    }

unfoldable pub authorize : Loaded → (principal tool : Text) → ActionArgs → Decision
unfolding decide role_of action_for get
authorize no_policy who tool args = record {
  allowed = true;
  principal = who;
  role = codes "open";
  action = action_for tool args;
  reason = codes "authz_disabled";
}
authorize (policy_error e) who tool args = record {
  allowed = false;
  principal = who;
  role = codes "unknown";
  action = action_for tool args;
  reason = codes "policy_error: " ++ e;
}
authorize (policy p) who tool args = elim (get p.roles (role_of p who)) [
  | none ↦ record {
    allowed = false;
    principal = who;
    role = role_of p who;
    action = action_for tool args;
    reason = codes "unknown_role";
  }
  | some rp ↦ decide rp who (role_of p who) (action_for tool args)
]

-- `runtime_limits_for_principal`
unfoldable pub runtime_limits_for_principal : Loaded → Text → Option RuntimeLimits
unfolding role_of get
runtime_limits_for_principal no_policy who = none
runtime_limits_for_principal (policy_error e) who = none
runtime_limits_for_principal (policy p) who = elim (get p.roles (role_of p who)) [
  | none ↦ none
  | some rp ↦ some rp.limits
]
