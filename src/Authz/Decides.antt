-- ===== src/Authz/Decides.antt =====
-- What the decision is: a call is allowed exactly where the role permits its action.
use ferrite_mcp.Prelude.{
  ap, sym, subst, ◌∙◌, refl, inl, inr, ◌≡◌, ◌⊎◌, ◌↔◌, Bool, true, false, not, ◌&&◌, ◌||◌, none,
  some, List, [], ◌∷◌, arith, Text, Bool-cases, Option-cases,
}
use ferrite_mcp.Dict.{get}
use ferrite_mcp.Authz.Policy.{
  RolePolicy, AuthzPolicy, Loaded, policy_error, no_policy, policy, ActionArgs, action_for,
  matches_action, any_match, is_empty, role_of, decide, authorize,
}
use ferrite_mcp.Authz.Patterns.{Matches, matches_action-Matches}

abbrev pub MatchesAny : List Text → Text → Type 0
MatchesAny [] action = ⊥
MatchesAny (p ∷ ps) action = Matches p action ⊎ MatchesAny ps action

any_step :
    (p : Text) (ps : List Text) (action : Text)
    → (any_match ps action ≡ true) ↔ MatchesAny ps action
    → ((matches_action p action || any_match ps action) ≡ true) ↔ MatchesAny (p ∷ ps) action
any_step p ps action rest = (there, back)
  where
    there : (matches_action p action || any_match ps action) ≡ true → MatchesAny (p ∷ ps) action
    there h = elim (Bool-cases (matches_action p action)) [
      | inl first ↦ inl ((matches_action-Matches p action).0 first)
      | inr no_first ↦ inr (rest.0 (grind arith))
    ]

    back : MatchesAny (p ∷ ps) action → (matches_action p action || any_match ps action) ≡ true
    back (inl m) = grind (arith, (matches_action-Matches p action).1 m)
    back (inr m) = grind (arith, rest.1 m)

any_match_lem :
    (ps : List Text) (action : Text) → (any_match ps action ≡ true) ↔ MatchesAny ps action
unfolding any_match
any_match_lem [] action = ((λ h. cc), (λ m. absurd m))
any_match_lem (p ∷ ps) action = any_step p ps action (any_match_lem ps action)

-- A role permits an action that no denied pattern denotes and that an allowed one denotes, where the role
-- lists any.
pub record Permits (rp : RolePolicy) (action : Text) : Type 0 where
  pub not_denied : ¬ MatchesAny rp.deny action
  pub listed : (rp.allow ≡ []) ⊎ MatchesAny rp.allow action

pub data Allowed : Loaded → Text → Text → Type 0 where
  disabled : {who action : Text} → Allowed no_policy who action
  by_role :
      {p : AuthzPolicy} {who action : Text} (rp : RolePolicy)
      → get p.roles (role_of p who) ≡ some rp
      → Permits rp action
      → Allowed (policy p) who action

is_empty_lem : (ps : List Text) → (is_empty ps ≡ true) ↔ (ps ≡ [])
unfolding is_empty
is_empty_lem [] = ((λ _. refl), (λ _. refl))
is_empty_lem (p ∷ ps) = ((λ h. cc), (λ e. cc))

decide-allowed :
    (rp : RolePolicy) (who role action : Text)
    → (decide rp who role action).allowed
      ≡ (not (any_match rp.deny action) && (is_empty rp.allow || any_match rp.allow action))
unfolding decide
decide-allowed rp who role action = ground arith

decide-Permits :
    (rp : RolePolicy) (who role action : Text)
    → ((decide rp who role action).allowed ≡ true) ↔ Permits rp action
decide-Permits rp who role action = (there, back)
  where
    denies : Bool
    denies = any_match rp.deny action

    lists : Bool
    lists = is_empty rp.allow || any_match rp.allow action

    there : (decide rp who role action).allowed ≡ true → Permits rp action
    there h = record {
      not_denied = λ m. true_false (
          sym ((any_match_lem rp.deny action).1 m)
          ∙ not_both denies lists (sym (decide-allowed rp who role action) ∙ h));
      listed = elim (Bool-cases (is_empty rp.allow)) [
        | inl empty ↦ inl ((is_empty_lem rp.allow).0 empty)
        | inr some_listed ↦ inr (
            (any_match_lem rp.allow action).0 (
              second denies (is_empty rp.allow) (any_match rp.allow action) some_listed
                (sym (decide-allowed rp who role action) ∙ h)))
      ];
    }
      where
        not_both : (a b : Bool) → (not a && b) ≡ true → a ≡ false
        not_both a b e = ground arith

        second : (a b c : Bool) → b ≡ false → (not a && (b || c)) ≡ true → c ≡ true
        second a b c e f = ground arith

        true_false : true ≡ false → ⊥
        true_false e = cc

    back : Permits rp action → (decide rp who role action).allowed ≡ true
    back m = decide-allowed rp who role action ∙ both denies lists not_denying (allows m.listed)
      where
        both : (a b : Bool) → a ≡ false → b ≡ true → (not a && b) ≡ true
        both a b e f = ground arith

        not_denying : denies ≡ false
        not_denying = elim (Bool-cases denies) [
          | inr open_to ↦ open_to
          | inl yes_denied ↦ absurd (m.not_denied ((any_match_lem rp.deny action).0 yes_denied))
        ]

        allows : (rp.allow ≡ []) ⊎ MatchesAny rp.allow action → lists ≡ true
        allows (inl e) = grind (arith, (is_empty_lem rp.allow).1 e)
        allows (inr a) = grind (arith, (any_match_lem rp.allow action).1 a)

authorize-unknown_role :
    (p : AuthzPolicy) (who tool : Text) (args : ActionArgs)
    → get p.roles (role_of p who) ≡ none
    → (authorize (policy p) who tool args).allowed ≡ false
unfolding authorize
authorize-unknown_role p who tool args e = rw (e, authorize) refl

authorize-role :
    (p : AuthzPolicy) (who tool : Text) (args : ActionArgs) (rp : RolePolicy)
    → get p.roles (role_of p who) ≡ some rp
    → authorize (policy p) who tool args ≡ decide rp who (role_of p who) (action_for tool args)
unfolding authorize
authorize-role p who tool args rp e = rw (e, authorize) refl

Allowed-policy :
    {l : Loaded} {who action : Text}
    → Allowed l who action
    → (p : AuthzPolicy) → l ≡ policy p
    → (rp : RolePolicy) × (get p.roles (role_of p who) ≡ some rp) × Permits rp action
Allowed-policy disabled p e = cc
Allowed-policy {who = who} {action = action} (by_role {p = o} rp found ok) p e =
    subst (λ q. (r : RolePolicy) × (get q.roles (role_of q who) ≡ some r) × Permits r action)
      (policy_inj e) (rp, found, ok)
  where
    policy_inj : policy o ≡ policy p → o ≡ p
    policy_inj h = cc

Allowed-error :
    {l : Loaded} {who action : Text} → Allowed l who action → (m : Text) → l ≡ policy_error m → ⊥
Allowed-error disabled m e = cc
Allowed-error (by_role rp found ok) m e = cc

-- A call is allowed exactly where no policy is configured, or the principal's role is in the policy and
-- permits the action: no denied pattern denotes it, and an allowed one does where the role lists any.
pub authorize-Allowed :
    (l : Loaded) (who tool : Text) (args : ActionArgs)
    → ((authorize l who tool args).allowed ≡ true) ↔ Allowed l who (action_for tool args)
authorize-Allowed no_policy who tool args = ((λ _. disabled), (λ _. unfold authorize in refl))
authorize-Allowed (policy_error e) who tool args = (refused, (λ m. absurd (Allowed-error m e refl)))
  where
    refused :
        (authorize (policy_error e) who tool args).allowed ≡ true
        → Allowed (policy_error e) who (action_for tool args)
    refused h = absurd (false_true (unfold authorize in h))
      where
        false_true : false ≡ true → ⊥
        false_true k = cc
authorize-Allowed (policy p) who tool args = (there, back)
  where
    action : Text
    action = action_for tool args

    there : (authorize (policy p) who tool args).allowed ≡ true → Allowed (policy p) who action
    there h = elim (Option-cases (get p.roles (role_of p who))) [
      | inl unknown ↦ absurd (false_true (sym (authorize-unknown_role p who tool args unknown) ∙ h))
      | inr (rp, found) ↦ by_role rp found (
          (decide-Permits rp who (role_of p who) action).0
            (ap (λ d. d.allowed) (sym (authorize-role p who tool args rp found)) ∙ h))
    ]
      where
        false_true : false ≡ true → ⊥
        false_true k = cc

    back : Allowed (policy p) who action → (authorize (policy p) who tool args).allowed ≡ true
    back m =
        let (rp, found, ok) = Allowed-policy m p refl in
        ap (λ d. d.allowed) (authorize-role p who tool args rp found)
        ∙ (decide-Permits rp who (role_of p who) action).1 ok
