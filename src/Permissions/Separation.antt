-- ===== src/Permissions/Separation.antt =====
-- Which of the built-in roles of packages/domain/src/permissions.ts hold both sides of a mint.
use trustee_bank.Prelude.{
  String, ◌≡◌, refl, sym, ap, ◌∙◌, ◌⊎◌, inl, inr, Bool, true, List, [], ◌∷◌, map, All, Bool-cases,
  if◌then◌else◌,
}
use trustee_bank.Store.Query.{includes}
use trustee_bank.Permissions.{
  Permission, mint_request, mint_approve, slug, RoleDefinition, builtin_roles,
  role_set_has_permission, trustee_super_admin, trustee_operations_maker,
  trustee_operations_checker,
}

abbrev pub OneOf : RoleDefinition → List RoleDefinition → Type 0
OneOf r [] = ⊥
OneOf r (s ∷ ss) = (r ≡ s) ⊎ OneOf r ss

-- Whether a role holds a permission.
abbrev pub holds : Permission → RoleDefinition → Bool
holds p r = includes (map slug r.permissions) (slug p)

-- The roles of a list that hold a permission.
unfoldable holders : Permission → List RoleDefinition → List RoleDefinition
holders p [] = []
holders p (r ∷ rs) = let rest = holders p rs in if holds p r then r ∷ rest else rest

holders-OneOf :
    (p : Permission) (r : RoleDefinition) (roles : List RoleDefinition)
    → OneOf r roles
    → holds p r ≡ true
    → OneOf r (holders p roles)
unfolding holders
holders-OneOf p r [] never h = absurd never
holders-OneOf p r (s ∷ ss) (inl e) h =
    let held : holds p s ≡ true = sym (ap (holds p) e) ∙ h in rw held (inl e)
holders-OneOf p r (s ∷ ss) (inr later) h = elim (Bool-cases (holds p s)) [
  | inl here ↦ rw here (inr (holders-OneOf p r ss later h))
  | inr other ↦ rw other (holders-OneOf p r ss later h)
]

requesters :
    holders mint_request builtin_roles ≡ trustee_super_admin ∷ trustee_operations_maker ∷ []
unfolding holders slug
requesters = refl

approvers :
    holders mint_approve builtin_roles ≡ trustee_super_admin ∷ trustee_operations_checker ∷ []
unfolding holders slug
approvers = refl

-- The permissions of each role of a list.
abbrev pub held_by : List RoleDefinition → List (List String)
held_by roles = map (λ (r : RoleDefinition). map slug r.permissions) roles

-- Every role of the list is a built-in one.
abbrev pub AllBuiltin : List RoleDefinition → Type 0
AllBuiltin roles = All (λ r. OneOf r builtin_roles) roles

some_holder :
    (p : Permission) (roles : List RoleDefinition)
    → AllBuiltin roles
    → role_set_has_permission (held_by roles) p ≡ true
    → (r : RoleDefinition) × OneOf r roles × OneOf r (holders p builtin_roles)
unfolding role_set_has_permission
some_holder p [] h k = cc
some_holder p (r ∷ rs) (own, rest) k = elim (Bool-cases (holds p r)) [
  | inl here ↦ (r, inl refl, holders-OneOf p r builtin_roles own here)
  | inr other ↦
      let (s, later, holder) = some_holder p rs rest (rw other at k) in (s, inr later, holder)
]

-- The one of two roles that a holder is.
OneOf-two :
    (r : RoleDefinition) (roles : List RoleDefinition) {a b : RoleDefinition}
    {found : List RoleDefinition}
    → found ≡ a ∷ b ∷ []
    → OneOf r roles
    → OneOf r found
    → OneOf a roles ⊎ OneOf b roles
OneOf-two r roles e member holder = elim (rw e at holder) [
  | inl first ↦ inl (rw first at member)
  | inr (inl second) ↦ inr (rw second at member)
  | inr (inr none) ↦ absurd none
]

-- Built-in roles that together allow both to request and to approve a mint have the super
-- administrator among them, or both the operations maker and the operations checker.
pub mint_needs_both :
    (roles : List RoleDefinition)
    → AllBuiltin roles
    → role_set_has_permission (held_by roles) mint_request ≡ true
    → role_set_has_permission (held_by roles) mint_approve ≡ true
    → OneOf trustee_super_admin roles
      ⊎ (OneOf trustee_operations_maker roles × OneOf trustee_operations_checker roles)
mint_needs_both roles h requests approves =
    let (r, r_in, r_holds) = some_holder mint_request roles h requests in
    let (s, s_in, s_holds) = some_holder mint_approve roles h approves in
    elim (OneOf-two r roles requesters r_in r_holds) [
      | inl admin ↦ inl admin
      | inr maker ↦ elim (OneOf-two s roles approvers s_in s_holds) [
        | inl admin ↦ inl admin
        | inr checker ↦ inr (maker, checker)
      ]
    ]
