-- ===== src/Policy/Grants/Authorising.antt =====
-- packages/policy/src/grants.ts: which grant `findGrant` returns, said of the fields of the grants.
use qwen_harness.Prelude.{
  ◌&&◌, is_none, ◌↔◌, ℕ, ◌<◌, Bool, true, false, not, List, [], ◌∷◌, ◌++◌, ◌≡◌, refl, ap, ◌⊎◌, inl,
  inr, arith, Text, text_eq→eq, text_eq_refl, Option, none, some, Bool-cases, Option-cases, All,
  if◌then◌else◌,
}
use qwen_harness.Policy.Action.{NormalizedAction}
use qwen_harness.Policy.Matcher.{ActionMatcher, matches_action}
use qwen_harness.Policy.Grants.{
  Grant, GrantScope, GrantRejection, reached, is_once, is_rule, has_digest, matcher_matches,
  is_grant_live, grant_matches, grant_refusal, find_grant_from, find_grant,
}

-- A time that is not set, or has not come.
abbrev pub IsAhead : ℕ → Option ℕ → Type 0
IsAhead now none = Unit
IsAhead now (some time) = now < time

abbrev pub IsUnspent : GrantScope → Option ℕ → Type 0
IsUnspent GrantScope.once (some used) = ⊥
IsUnspent _ _ = Unit

module _ (action : NormalizedAction) (digest home_dir : Text) (exact_only : Bool) (now : ℕ) where
  -- A rule is bound by its matcher, and never where only exact grants count; any other grant by the
  -- digest of the action.
  abbrev pub IsBound : GrantScope → Option ActionMatcher → Option Text → Type 0
  IsBound GrantScope.rule none bound = ⊥
  IsBound GrantScope.rule (some m) bound =
      (exact_only ≡ false) × (matches_action m action home_dir digest ≡ true)
  IsBound _ match bound = bound ≡ some digest

  -- A grant that authorises the action now: bound to it, neither revoked nor expired, and not a `once`
  -- grant that was used.
  abbrev pub IsAuthorising : Grant → Type 0
  IsAuthorising g =
      IsBound g.scope g.match g.action_digest
      × IsAhead now g.revoked_at
      × IsAhead now g.expires_at
      × IsUnspent g.scope g.used_at

  IsAhead-iff : (time : Option ℕ) → (reached time now ≡ false) ↔ IsAhead now time
  IsAhead-iff none = (λ h. tt, λ h. refl)
  IsAhead-iff (some time) = (λ h. ground (arith, h), λ h. ground (arith, h))

  IsUnspent-iff :
      (scope : GrantScope) (used : Option ℕ)
      → (is_once scope && not (is_none used) ≡ false) ↔ IsUnspent scope used
  IsUnspent-iff GrantScope.once none = (λ h. tt, λ h. refl)
  IsUnspent-iff GrantScope.once (some used) = (λ h. ground (arith, h), λ h. elim h [ ])
  IsUnspent-iff GrantScope.session used = (λ h. tt, λ h. refl)
  IsUnspent-iff GrantScope.rule used = (λ h. tt, λ h. refl)

  abbrev is_bound : GrantScope → Option ActionMatcher → Option Text → Bool
  is_bound scope match bound =
      (if is_rule scope
        then matcher_matches action digest home_dir exact_only now match
        else has_digest bound digest)
      && not (exact_only && is_rule scope)

  digest_iff : (bound : Option Text) → (has_digest bound digest ≡ true) ↔ (bound ≡ some digest)
  digest_iff none = (λ h. ground (arith, h), λ h. ground (arith, h))
  digest_iff (some d) =
      (λ h. ap some (text_eq→eq d digest h), λ h. ground (arith, h, text_eq_refl digest))

  IsBound-iff :
      (scope : GrantScope) (match : Option ActionMatcher) (bound : Option Text)
      → (is_bound scope match bound ≡ true) ↔ IsBound scope match bound
  IsBound-iff GrantScope.rule none bound = (λ h. ground (arith, h), λ h. elim h [ ])
  IsBound-iff GrantScope.rule (some m) bound = (λ h. ground (arith, h), λ h. ground (arith, h))
  IsBound-iff GrantScope.once match bound =
      (λ h. ground (arith, h, (digest_iff bound).0), λ h. ground (arith, h, (digest_iff bound).1))
  IsBound-iff GrantScope.session match bound =
      (λ h. ground (arith, h, (digest_iff bound).0), λ h. ground (arith, h, (digest_iff bound).1))

  -- The two tests of the loop say this of a grant.
  IsAuthorising-iff :
      (g : Grant)
      → ((grant_matches action digest home_dir exact_only now g ≡ true)
          × (grant_refusal action digest home_dir exact_only now g ≡ none))
        ↔ IsAuthorising g
  unfolding grant_matches grant_refusal is_grant_live
  IsAuthorising-iff g = (
    λ (a, b). (
      (IsBound-iff g.scope g.match g.action_digest).0 (ground (arith, a, b)),
      (IsAhead-iff g.revoked_at).0 (ground (arith, b)),
      (IsAhead-iff g.expires_at).0 (ground (arith, b)),
      (IsUnspent-iff g.scope g.used_at).0 (ground (arith, b)),
    ),
    λ (b, r, e, u).
        let bound = (IsBound-iff g.scope g.match g.action_digest).1 b in
        let revoked = (IsAhead-iff g.revoked_at).1 r in
        let expired = (IsAhead-iff g.expires_at).1 e in
        let unspent = (IsUnspent-iff g.scope g.used_at).1 u in
        (ground (arith, bound), ground (arith, bound, revoked, expired, unspent)),
  )

  -- The first of the grants that authorises the action, or that none does.
  abbrev pub IsFirst : List Grant → Option Grant → Type 0
  IsFirst grants found =
      ((g : Grant) × (before after : List Grant) × (grants ≡ before ++ g ∷ after)
        × All (λ x. ¬ IsAuthorising x) before
        × IsAuthorising g
        × (found ≡ some g))
      ⊎ (All (λ x. ¬ IsAuthorising x) grants × (found ≡ none))

  IsFirst-cons :
      (x : Grant) (grants : List Grant) (found : Option Grant)
      → (¬ IsAuthorising x)
      → IsFirst grants found
      → IsFirst (x ∷ grants) found
  IsFirst-cons x grants found n (inl (g, before, after, e, all_before, fits, f)) =
      inl (g, x ∷ before, after, ap (λ gs. x ∷ gs) e, (n, all_before), fits, f)
  IsFirst-cons x grants found n (inr (all, f)) = inr ((n, all), f)

  find_grant_from-IsFirst :
      (grants : List Grant) (rejected : List (Grant × GrantRejection))
      → IsFirst grants (find_grant_from action digest home_dir exact_only now rejected grants).grant
  unfolding find_grant_from
  find_grant_from-IsFirst [] rejected = inr (tt, refl)
  find_grant_from-IsFirst (x ∷ grants) rejected =
      elim (Bool-cases (grant_matches action digest home_dir exact_only now x)) [
        | inr miss ↦ rw miss (
            IsFirst-cons x grants _
              (λ a. let (hit, fine) = (IsAuthorising-iff x).1 a in ground (arith, hit, miss))
              (find_grant_from-IsFirst grants rejected))
        | inl hit ↦ elim (Option-cases (grant_refusal action digest home_dir exact_only now x)) [
          | inl fine ↦
              rw (hit, fine)
                (inl (x, [], grants, refl, tt, (IsAuthorising-iff x).0 (hit, fine), refl))
          | inr (why, refused) ↦
              rw (hit, refused)
                (IsFirst-cons x grants _
                  (λ a. let (h, fine) = (IsAuthorising-iff x).1 a in ground (arith, fine, refused))
                  (find_grant_from-IsFirst grants (rejected ++ (x, why) ∷ [])))
        ]
      ]

  -- A lookup returns the first of the grants that authorises the action now, and none if none does. A rule
  -- authorises it by a matcher that the action meets, and not where only exact grants count; any other
  -- grant by the digest of the action. Neither may be revoked or expired, nor a grant for one use be used.
  pub find_grant-IsFirst :
      (grants : List Grant)
      → IsFirst grants (find_grant action digest home_dir exact_only now grants).grant
  unfolding find_grant
  find_grant-IsFirst grants = find_grant_from-IsFirst grants []
