-- ===== src/Policy/Grants/Lookup.antt =====
-- packages/policy/src/grants.ts: `findGrant` alone and after `consumeGrant` and `revokeGrant`.
use qwen_harness.Prelude.{
  ℕ, ◌≤◌, Bool, true, false, ◌&&◌, List, [], ◌∷◌, ◌++◌, ◌≡◌, ◌↔◌, sym, arith, Text, text_eq, none,
  some, Bool-cases, Option-cases, inl, inr, if◌then◌else◌, Some, is_none, map,
}
use mathlib.Core.List.{Memᴰ}
use qwen_harness.Policy.Action.{NormalizedAction}
use qwen_harness.Policy.Grants.{
  Grant, GrantRejection, is_once, is_rule, is_grant_live, has_digest, grant_matches, grant_refusal,
  find_grant_from, find_grant, consume_grant, revoke_grant,
}

module _ (action : NormalizedAction) (digest home_dir : Text) (exact_only : Bool) (now : ℕ) where
  -- A grant that may authorise the action here and now.
  abbrev pub IsUsable : Grant → Type 0
  IsUsable g =
      (grant_matches action digest home_dir exact_only now g ≡ true)
      × (grant_refusal action digest home_dir exact_only now g ≡ none)

  find_grant_from-IsUsable :
      (grants : List Grant) (rejected : List (Grant × GrantRejection)) (g : Grant)
      → (find_grant_from action digest home_dir exact_only now rejected grants).grant ≡ some g
      → Memᴰ g grants × IsUsable g
  unfolding find_grant_from
  find_grant_from-IsUsable [] rejected g h = cc
  find_grant_from-IsUsable (x ∷ grants) rejected g h =
      elim (Bool-cases (grant_matches action digest home_dir exact_only now x)) [
        | inr miss ↦
            let (m, u) = find_grant_from-IsUsable grants rejected g (rw miss at h) in
            (Memᴰ.tail m, u)
        | inl hit ↦ elim (Option-cases (grant_refusal action digest home_dir exact_only now x)) [
          | inl fine ↦ let e : x ≡ g = ground arith in (Memᴰ.head (sym e), rw (← e) (hit, fine))
          | inr (why, refused) ↦
              let later = rejected ++ (x, why) ∷ [] in
              let h' : (find_grant_from action digest home_dir exact_only now later grants).grant
                  ≡ some g =
                ground arith in
              let (m, u) = find_grant_from-IsUsable grants later g h' in (Memᴰ.tail m, u)
        ]
      ]

  find_grant_from_complete :
      (grants : List Grant) (rejected : List (Grant × GrantRejection)) (g : Grant)
      → Memᴰ g grants
      → IsUsable g
      → is_none (find_grant_from action digest home_dir exact_only now rejected grants).grant
        ≡ false
  unfolding find_grant_from
  find_grant_from_complete [] rejected g m u = elim m [ ]
  find_grant_from_complete (x ∷ grants) rejected g (Memᴰ.head e) u = ground arith
  find_grant_from_complete (x ∷ grants) rejected g (Memᴰ.tail m) u =
      elim (Bool-cases (grant_matches action digest home_dir exact_only now x)) [
        | inr miss ↦ rw miss (find_grant_from_complete grants rejected g m u)
        | inl hit ↦ elim (Option-cases (grant_refusal action digest home_dir exact_only now x)) [
          | inl fine ↦ rw (hit, fine)
          | inr (why, refused) ↦
              rw (hit, refused) (find_grant_from_complete grants (rejected ++ (x, why) ∷ []) g m u)
        ]
      ]

  -- The grant that a lookup returns is one of the grants, matches the action, is live, and is bound
  -- to the digest where only exact grants count.
  pub find_grant-IsUsable :
      (grants : List Grant) (g : Grant)
      → (find_grant action digest home_dir exact_only now grants).grant ≡ some g
      → Memᴰ g grants × IsUsable g
  unfolding find_grant
  find_grant-IsUsable grants g h = find_grant_from-IsUsable grants [] g h

  -- A lookup returns a grant exactly when some grant is usable.
  pub find_grant_iff :
      (grants : List Grant)
      → (is_none (find_grant action digest home_dir exact_only now grants).grant ≡ false)
        ↔ Some IsUsable grants
  unfolding find_grant
  find_grant_iff grants = (
    (λ h.
        elim (Option-cases
          (find_grant_from action digest home_dir exact_only now [] grants).grant) [
            | inl missing ↦ absurd (ground arith)
            | inr (g, found) ↦ let (m, u) = find_grant_from-IsUsable grants [] g found in (g, m, u)
          ]),
    λ (g, m, u). find_grant_from_complete grants [] g m u,
  )

  live_of_usable : (g : Grant) → IsUsable g → is_grant_live g now ≡ none
  unfolding grant_refusal
  live_of_usable g u = ground arith

  pub exact_of_usable :
      (g : Grant)
      → exact_only ≡ true
      → IsUsable g
      → (is_rule g.scope ≡ false)
        × (has_digest g.action_digest digest ≡ true)
        × (is_grant_live g now ≡ none)
  unfolding grant_refusal grant_matches
  exact_of_usable g e u = ground arith

mem-map :
    (f : Grant → Grant) (g : Grant) (grants : List Grant)
    → Memᴰ g (map f grants)
    → (x : Grant) × (g ≡ f x)
mem-map f g [] m = elim m [ ]
mem-map f g (x ∷ grants) (Memᴰ.head e) = (x, e)
mem-map f g (x ∷ grants) (Memᴰ.tail m) = mem-map f g grants m

consume_one : Text → ℕ → Grant → Grant
consume_one id spent g =
    if text_eq g.id id && is_once g.scope then record g { used_at = some spent } else g

consumed-not_live :
    (id : Text) (spent now : ℕ) (g : Grant)
    → is_grant_live (consume_one id spent g) now ≡ none
    → text_eq (consume_one id spent g).id id && is_once (consume_one id spent g).scope ≡ false
unfolding consume_one is_grant_live
consumed-not_live id spent now g h = ground arith

revoke_one : Text → ℕ → Grant → Grant
revoke_one id time g = if text_eq g.id id then record g { revoked_at = some time } else g

revoked-not_live :
    (id : Text) (time now : ℕ) (g : Grant)
    → time ≤ now
    → is_grant_live (revoke_one id time g) now ≡ none
    → text_eq (revoke_one id time g).id id ≡ false
unfolding revoke_one is_grant_live
revoked-not_live id time now g le h = ground arith

module _ (action : NormalizedAction) (digest home_dir : Text) (exact_only : Bool) (now : ℕ) where
  -- After a `once` grant was consumed, no lookup returns a `once` grant of its id again, at any time
  -- and for any action.
  pub find_grant-consume_grant :
      (grants : List Grant) (id : Text) (spent : ℕ) (g : Grant)
      → (find_grant action digest home_dir exact_only now (consume_grant grants id spent)).grant
        ≡ some g
      → text_eq g.id id && is_once g.scope ≡ false
  unfolding consume_grant consume_one
  find_grant-consume_grant grants id spent g h =
      let (m, u) = find_grant-IsUsable action digest home_dir exact_only now _ g h in
      let (x, e) = mem-map (consume_one id spent) g grants m in
      rw e (
        consumed-not_live id spent now x
          (rw e at (live_of_usable action digest home_dir exact_only now g u)))

  -- Once a grant was revoked at a time that has come, no lookup returns a grant of its id.
  find_grant-revoke_grant :
      (grants : List Grant) (id : Text) (time : ℕ) (g : Grant)
      → time ≤ now
      → (find_grant action digest home_dir exact_only now (revoke_grant grants id time)).grant
        ≡ some g
      → text_eq g.id id ≡ false
  unfolding revoke_grant revoke_one
  find_grant-revoke_grant grants id time g le h =
      let (m, u) = find_grant-IsUsable action digest home_dir exact_only now _ g h in
      let (x, e) = mem-map (revoke_one id time) g grants m in
      rw e (
        revoked-not_live id time now x le
          (rw e at (live_of_usable action digest home_dir exact_only now g u)))
