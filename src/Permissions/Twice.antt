-- ===== src/Permissions/Twice.antt =====
-- A rewritten command is not rewritten again.
use ferrite_mcp.Prelude.{
  ℕ, ◌≡◌, refl, sym, ap, subst, ◌∙◌, Bool, true, false, not, Option, none, some, List, [], ◌∷◌,
  ◌++◌, if◌then◌else◌, arith, Text, codes, text_eq, text_eq_iff, elem, Bool-cases, inl, inr,
  append-nil,
}
use ferrite_mcp.Permissions.Words.{join, tokenize}
use ferrite_mcp.Permissions.Rewrite.{rewrite_by}
use ferrite_mcp.Permissions.Rules.{
  any_of, Rule, apt_rule, pip_rule, rustup_rule, ufw_rule, dpkg_rule, no_rule, tool_rule,
  interactive_verbs,
}
use ferrite_mcp.Permissions.Tokens.{is_word, all_words, tokenize-join, tokenize_words, flags}

any_of-append :
    (fs xs : List Text) (y : Text) (ys : List Text)
    → elem y fs ≡ true
    → any_of fs (xs ++ y ∷ ys) ≡ true
unfolding any_of
any_of-append fs [] y ys h = ground arith
any_of-append fs (x ∷ xs) y ys h = ground (arith, any_of-append fs xs y ys)

module _ (is_whitespace : ℕ → Bool) where
  all_words-append :
      (ws vs : List Text)
      → all_words is_whitespace ws ≡ true
      → all_words is_whitespace vs ≡ true
      → all_words is_whitespace (ws ++ vs) ≡ true
  all_words-append [] vs h k = k
  all_words-append (w ∷ ws) vs h k = ground (arith, all_words-append ws vs)

  -- a rule does not change what it has made, which is made of words
  abbrev Settled : Rule → Option (List Text) → Type 0
  Settled rule none = Unit {0}
  Settled rule (some out) = (rule out ≡ none) × (all_words is_whitespace out ≡ true)

  unless_blocked :
      (rule : Rule) (b : Bool) (r : Option (List Text))
      → (b ≡ false → Settled rule r)
      → Settled rule (if b then none else r)
  unless_blocked rule true r h = tt
  unless_blocked rule false r h = h refl

  when_some :
      (rule : Rule) (b : Bool) (r : Option (List Text))
      → (b ≡ true → Settled rule r)
      → Settled rule (if b then r else none)
  when_some rule true r h = h refl
  when_some rule false r h = tt

  unless_same : (b : Bool) {r : Option (List Text)} → r ≡ none → (if b then none else r) ≡ none
  unless_same true h = refl
  unless_same false h = h

  elem_word :
      (fs : List Text) (f : Text)
      → all_words is_whitespace fs ≡ true
      → elem f fs ≡ true
      → is_word is_whitespace f ≡ true
  unfolding elem
  elem_word [] f h known = absurd (ground arith)
  elem_word (g ∷ fs) f h known = elim (Bool-cases (text_eq f g)) [
    | inl same ↦
        subst (λ t. is_word is_whitespace t ≡ true) (sym ((text_eq_iff f g).0 same)) (ground arith)
    | inr differ ↦ elem_word fs f (ground arith) (ground arith)
  ]

  -- a rule that looks for the flag that it puts in
  stops :
      (fs xs : List Text) (y : Text) (ys : List Text) (r : Option (List Text))
      → elem y fs ≡ true
      → (if any_of fs (xs ++ y ∷ ys) then none else r) ≡ none
  stops fs xs y ys r h = rw (any_of-append fs xs y ys h) refl

  module _ (plain : all_words is_whitespace (flags is_whitespace) ≡ true) where
    -- words with a flag among them
    with_flag :
        (xs ys : List Text) (f : Text)
        → elem f (flags is_whitespace) ≡ true
        → all_words is_whitespace (xs ++ ys) ≡ true
        → all_words is_whitespace (xs ++ f ∷ ys) ≡ true
    with_flag [] ys f known h = ground (arith, elem_word (flags is_whitespace) f plain known)
    with_flag (x ∷ xs) ys f known h = ground (arith, with_flag xs ys f known)

    at_end :
        (xs : List Text) (f : Text)
        → elem f (flags is_whitespace) ≡ true
        → all_words is_whitespace xs ≡ true
        → all_words is_whitespace (xs ++ f ∷ []) ≡ true
    at_end xs f known h = with_flag xs [] f known (ap (all_words is_whitespace) (append-nil xs) ∙ h)

    quiet_stops :
        (hush : Bool) (bin verb : Text) (rest : List Text)
        → apt_rule (bin ∷ verb ∷ ((if hush then [] else codes "-q" ∷ []) ++ codes "-y" ∷ rest))
          ≡ none
    unfolding apt_rule elem text_eq
    quiet_stops true bin verb rest =
        unless_same (not (elem verb interactive_verbs))
          (stops (codes "-y" ∷ codes "--yes" ∷ []) (bin ∷ verb ∷ []) (codes "-y") rest _ refl)
    quiet_stops false bin verb rest = unless_same (not (elem verb interactive_verbs)) (
        stops (codes "-y" ∷ codes "--yes" ∷ []) (bin ∷ verb ∷ codes "-q" ∷ []) (codes "-y") rest _
          refl)

    quiet_words :
        (hush : Bool) (bin verb : Text) (rest : List Text)
        → all_words is_whitespace (bin ∷ verb ∷ rest) ≡ true
        → all_words is_whitespace
            (bin ∷ verb ∷ ((if hush then [] else codes "-q" ∷ []) ++ codes "-y" ∷ rest))
          ≡ true
    unfolding elem text_eq
    quiet_words true bin verb rest h = with_flag (bin ∷ verb ∷ []) rest (codes "-y") refl h
    quiet_words false bin verb rest h =
        with_flag (bin ∷ verb ∷ []) (codes "-y" ∷ rest) (codes "-q") refl
          (with_flag (bin ∷ verb ∷ []) rest (codes "-y") refl h)

    pip_rule-Settled :
        (ws : List Text) → all_words is_whitespace ws ≡ true → Settled pip_rule (pip_rule ws)
    unfolding pip_rule text_eq elem
    pip_rule-Settled [] h = tt
    pip_rule-Settled (bin ∷ []) h = tt
    pip_rule-Settled (bin ∷ verb ∷ rest) h =
        let off = codes "--no-input" ∷ codes "-q" ∷ codes "--quiet" ∷ [] in
        unless_blocked pip_rule (not (text_eq verb (codes "install"))) _ (λ installs.
          unless_blocked pip_rule (any_of off (bin ∷ verb ∷ rest)) _ (λ lacks. (
            unless_same (not (text_eq verb (codes "install")))
                (stops off (bin ∷ verb ∷ []) (codes "--no-input") rest _ refl),
            with_flag (bin ∷ verb ∷ []) rest (codes "--no-input") refl h,
          )))

    apt_rule-Settled :
        (ws : List Text) → all_words is_whitespace ws ≡ true → Settled apt_rule (apt_rule ws)
    unfolding apt_rule text_eq elem
    apt_rule-Settled [] h = tt
    apt_rule-Settled (bin ∷ []) h = tt
    apt_rule-Settled (bin ∷ verb ∷ rest) h =
        let off = codes "-y" ∷ codes "--yes" ∷ [] in
        let hush = any_of (codes "-q" ∷ codes "--quiet" ∷ []) (bin ∷ verb ∷ rest) in
        unless_blocked apt_rule (not (elem verb interactive_verbs)) _ (λ installs.
          unless_blocked apt_rule (any_of off (bin ∷ verb ∷ rest)) _
            (λ lacks. (quiet_stops hush bin verb rest, quiet_words hush bin verb rest h)))

    rustup_rule-Settled :
        (ws : List Text) → all_words is_whitespace ws ≡ true → Settled rustup_rule (rustup_rule ws)
    unfolding rustup_rule text_eq elem
    rustup_rule-Settled [] h = tt
    rustup_rule-Settled (bin ∷ []) h = tt
    rustup_rule-Settled (bin ∷ verb ∷ rest) h =
        let off = codes "-y" ∷ codes "--no-update-default-toolchain" ∷ [] in
        unless_blocked rustup_rule (any_of off (bin ∷ verb ∷ rest)) _ (λ lacks.
          when_some rustup_rule
            (elem verb (codes "update" ∷ codes "install" ∷ codes "toolchain" ∷ [])) _
            (λ wanted. (
              stops off (bin ∷ verb ∷ rest) (codes "-y") [] _ refl,
              at_end (bin ∷ verb ∷ rest) (codes "-y") refl h,
            )))

    ufw_rule-Settled :
        (ws : List Text) → all_words is_whitespace ws ≡ true → Settled ufw_rule (ufw_rule ws)
    unfolding ufw_rule text_eq elem
    ufw_rule-Settled [] h = tt
    ufw_rule-Settled (bin ∷ []) h = tt
    ufw_rule-Settled (bin ∷ verb ∷ rest) h =
        unless_blocked ufw_rule (any_of (codes "--force" ∷ []) (bin ∷ verb ∷ rest)) _ (λ lacks.
          when_some ufw_rule
            (elem verb (codes "enable" ∷ codes "disable" ∷ codes "reset" ∷ codes "delete" ∷ [])) _
            (λ wanted. (
              stops (codes "--force" ∷ []) (bin ∷ verb ∷ rest) (codes "--force") [] _ refl,
              at_end (bin ∷ verb ∷ rest) (codes "--force") refl h,
            )))

    dpkg_rule-Settled :
        (ws : List Text) → all_words is_whitespace ws ≡ true → Settled dpkg_rule (dpkg_rule ws)
    unfolding dpkg_rule text_eq elem
    dpkg_rule-Settled [] h = tt
    dpkg_rule-Settled (bin ∷ []) h = tt
    dpkg_rule-Settled (bin ∷ verb ∷ rest) h =
        let off = codes "--force-confdef" ∷ codes "--force-confold" ∷ [] in
        unless_blocked dpkg_rule (any_of off (bin ∷ verb ∷ rest)) _ (λ lacks.
          when_some dpkg_rule (text_eq verb (codes "-i")) _ (λ wanted. (
            stops off (bin ∷ verb ∷ []) (codes "--force-confdef") (codes "--force-confold" ∷ rest) _
                refl,
            with_flag (bin ∷ verb ∷ []) (codes "--force-confold" ∷ rest) (codes "--force-confdef")
                refl (with_flag (bin ∷ verb ∷ []) rest (codes "--force-confold") refl h),
          )))

    abbrev Settles : Rule → Type 0
    Settles rule = (ws : List Text) → all_words is_whitespace ws ≡ true → Settled rule (rule ws)

    either :
        (b : Bool) (p q : Rule × List (Text × Text))
        → Settles p.0
        → Settles q.0
        → Settles (if b then p else q).0
    either true p q hp hq = hp
    either false p q hp hq = hq

    no_rule-Settled : Settles no_rule
    no_rule-Settled ws h = tt

    tool_rule-Settled : (tool : Text) → Settles (tool_rule tool).0
    unfolding tool_rule
    tool_rule-Settled tool =
        either (elem tool (codes "apt" ∷ codes "apt-get" ∷ [])) _ _ apt_rule-Settled (
          either (elem tool (codes "pip" ∷ codes "pip3" ∷ [])) _ _ pip_rule-Settled (
            either (text_eq tool (codes "npm")) _ _ no_rule-Settled (
              either (text_eq tool (codes "yarn")) _ _ no_rule-Settled (
                either (text_eq tool (codes "cargo")) _ _ no_rule-Settled (
                  either (text_eq tool (codes "git")) _ _ no_rule-Settled (
                    either (text_eq tool (codes "rustup")) _ _ rustup_rule-Settled (
                      either (text_eq tool (codes "ufw")) _ _ ufw_rule-Settled (
                        either (text_eq tool (codes "dpkg")) _ _ dpkg_rule-Settled (
                          either (elem tool (codes "curl" ∷ codes "wget" ∷ [])) _ _ no_rule-Settled
                            no_rule-Settled)))))))))

    -- For every tool, where the space is whitespace and no char of the flags is, rewriting a command by the
    -- tool's rule a second time leaves it as the first time has made it.
    pub rewrite_by_twice :
        (tool cmd : Text)
        → is_whitespace b' ' ≡ true
        → rewrite_by is_whitespace
            (tool_rule tool).0
            (rewrite_by is_whitespace (tool_rule tool).0 cmd)
          ≡ rewrite_by is_whitespace (tool_rule tool).0 cmd
    unfolding rewrite_by
    rewrite_by_twice tool cmd space =
        go ((tool_rule tool).0 (tokenize is_whitespace cmd)) refl
          (tool_rule-Settled tool (tokenize is_whitespace cmd) (tokenize_words is_whitespace cmd))
      where
        chosen : Text → Option (List Text) → Text
        chosen t r = elim r [ none ↦ t | some ws ↦ join ws ]

        go :
            (r : Option (List Text))
            → (tool_rule tool).0 (tokenize is_whitespace cmd) ≡ r
            → Settled (tool_rule tool).0 r
            → chosen (chosen cmd r) ((tool_rule tool).0 (tokenize is_whitespace (chosen cmd r)))
              ≡ chosen cmd r
        go none same settled = ap (chosen cmd) same
        go (some out) same (stays, words) =
            ap (λ ws. chosen (join out) ((tool_rule tool).0 ws))
              (tokenize-join is_whitespace out words space)
            ∙ ap (chosen (join out)) stays
