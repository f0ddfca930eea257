-- ===== src/Policy/First.antt =====
-- Evaluator.Match: the first listed policy that denies.
use telekom_k8s_breakglass.Prelude.{
  Bool, true, false, ◌&&◌, List, [], ◌∷◌, Str, ◌≡◌, ◌↔◌, ◌⊎◌, inl, inr, refl, sym, ap, subst, ◌∙◌,
  not_In-nil, In-cons, here, there, arith, In, any, any-witness, any-of_In, Bool-cases, ok, err,
  if◌then◌else◌, false≢true,
}
use telekom_k8s_breakglass.Api.Policy.{DenyRule, DenyPolicy}
use telekom_k8s_breakglass.Policy.{
  Action, Verdict, scope_matches, rule_matches, match_policies, match,
}
use telekom_k8s_breakglass.Policy.Rules.{InScope, Blocks, scope_matches_iff, rule_matches_iff}

-- The policy applies to the action, and one of its rules blocks it.
pub record Denies (glob : Str → Str → Bool) (p : DenyPolicy) (act : Action) : Type 0 where
  pub scope : InScope p.applies_to act
  pub rule : (r : DenyRule) × In r p.rules × Blocks glob r act

-- `n` is the name of the first policy of the list that denies the action.
pub data FirstDenial (glob : Str → Str → Bool) (act : Action) (n : Str)
    : List DenyPolicy → Type 0 where
  this :
      {p : DenyPolicy} {ps : List DenyPolicy}
      → Denies glob p act
      → p.name ≡ n
      → FirstDenial glob act n (p ∷ ps)
  later :
      {p : DenyPolicy} {ps : List DenyPolicy}
      → ¬ Denies glob p act
      → FirstDenial glob act n ps
      → FirstDenial glob act n (p ∷ ps)

module _ (glob : Str → Str → Bool) (act : Action) where
  abbrev policy_test : DenyPolicy → Bool
  policy_test p = scope_matches p.applies_to act && any (λ r. rule_matches glob r act) p.rules

  Denies-of_test : (p : DenyPolicy) → policy_test p ≡ true → Denies glob p act
  Denies-of_test p h =
      let (r, m, e) = any-witness (λ r. rule_matches glob r act) p.rules (ground arith) in
      record {
        scope = (scope_matches_iff p.applies_to act).0 (ground arith);
        rule = (r, m, (rule_matches_iff glob r act).0 e);
      }

  test-of_Denies : (p : DenyPolicy) → Denies glob p act → policy_test p ≡ true
  test-of_Denies p d =
      let (r, m, b) = d.rule in
      ground (
        arith,
        (scope_matches_iff p.applies_to act).1 d.scope,
        any-of_In (λ r. rule_matches glob r act) p.rules m ((rule_matches_iff glob r act).1 b),
      )

  not_Denies : (p : DenyPolicy) → policy_test p ≡ false → ¬ Denies glob p act
  not_Denies p h d = false≢true (sym h ∙ test-of_Denies p d)

  match_policies-cons :
      (p : DenyPolicy) (ps : List DenyPolicy)
      → match_policies glob (p ∷ ps) act ≡ (
          if policy_test p
          then record { denied = true; policy = p.name }
          else match_policies glob ps act)
  unfolding match_policies
  match_policies-cons p ps = ground arith

  abbrev pub NoneDenies : List DenyPolicy → Type 0
  NoneDenies ps = (p : DenyPolicy) → In p ps → ¬ Denies glob p act

  abbrev pub denial : Str → Verdict
  denial n = record { denied = true; policy = n }

  abbrev pub allowance : Verdict
  allowance = record { denied = false; policy = [] }

  verdict-of_FirstDenial :
      {n : Str} (ps : List DenyPolicy)
      → FirstDenial glob act n ps
      → match_policies glob ps act ≡ denial n
  verdict-of_FirstDenial (p ∷ ps) (this d e) = rw (match_policies-cons p ps, test-of_Denies p d, e)
  verdict-of_FirstDenial (p ∷ ps) (later d f) = elim (Bool-cases (policy_test p)) [
    | inl h ↦ absurd (d (Denies-of_test p h))
    | inr h ↦ rw (match_policies-cons p ps, h) (verdict-of_FirstDenial ps f)
  ]
  verdict-of_FirstDenial [] f = elim f [ ]

  pub verdict-of_NoneDenies :
      (ps : List DenyPolicy) → NoneDenies ps → match_policies glob ps act ≡ allowance
  unfolding match_policies
  verdict-of_NoneDenies [] h = refl
  verdict-of_NoneDenies (p ∷ ps) h = elim (Bool-cases (policy_test p)) [
    | inl e ↦ absurd (h p (here refl) (Denies-of_test p e))
    | inr e ↦ rw (match_policies-cons p ps, e) (verdict-of_NoneDenies ps (λ q m. h q (there m)))
  ]

  pub verdict-cases :
      (ps : List DenyPolicy)
      → ((n : Str) × (match_policies glob ps act ≡ denial n) × FirstDenial glob act n ps)
        ⊎ ((match_policies glob ps act ≡ allowance) × NoneDenies ps)
  unfolding match_policies
  verdict-cases [] = inr (refl, λ p m. not_In-nil m)
  verdict-cases (p ∷ ps) = elim (Bool-cases (policy_test p)) [
    | inl h ↦ inl (p.name, rw (match_policies-cons p ps, h), this (Denies-of_test p h) refl)
    | inr h ↦ elim (verdict-cases ps) [
      | inl (n, e, f) ↦ inl (n, rw (match_policies-cons p ps, h) e, later (not_Denies p h) f)
      | inr (e, a) ↦ inr (
        rw (match_policies-cons p ps, h) e,
        λ q m. elim (In-cons m) [ inl same ↦ rw same at (not_Denies p h) | inr n ↦ a q n ],
      )
    ]
  ]

  -- When the list call returns the policies `ps`, `Match` denies with the name `n` exactly when `n`
  -- names the first policy of `ps` that denies the action, and it reports no denial exactly when no
  -- policy of `ps` denies it. When the call fails, `Match` fails with that error.
  pub match_first :
      (ps : List DenyPolicy) (n e : Str)
      → ((match glob (ok ps) act ≡ ok (denial n)) ↔ FirstDenial glob act n ps)
        × ((match glob (ok ps) act ≡ ok allowance) ↔ NoneDenies ps)
        × (match glob (err e) act ≡ err e)
  unfolding match
  match_first ps n e = (
    (
      λ h. elim (verdict-cases ps) [
        | inl (m, q, f) ↦ subst (λ k. FirstDenial glob act k ps) (cc) f
        | inr (q, a) ↦ absurd (cc)
      ],
      λ f. ap ok (verdict-of_FirstDenial ps f),
    ),
    (
      λ h. elim (verdict-cases ps) [ inl (m, q, f) ↦ absurd (cc) | inr (q, a) ↦ a ],
      λ a. ap ok (verdict-of_NoneDenies ps a),
    ),
    refl,
  )
