-- ===== src/Production/Access/Grants.antt =====
-- Whom RBACABAC authorizes (production/control_plane.py).
use niceone_obsidian.Prelude.{
  String, ◌≡◌, ◌≢◌, ◌↔◌, ◌⊎◌, inl, inr, refl, Bool, true, false, ◌||◌, Option, none, some, List, [],
  ◌∷◌, ◌++◌, arith, All, ◌&&◌, str_eq, str_eq_iff, string_eq, Bool-cases, Option-cases,
  if◌then◌else◌,
}
use niceone_obsidian.Prelude.Dict.{Dict, get}
use niceone_obsidian.Prelude.Exec.{Result, ok}
use niceone_obsidian.Kernel.Errors.{Exception}
use niceone_obsidian.Kernel.Policy.{member}
use Prim.Native.String.{◌++◌ as text_append}
use niceone_obsidian.Production.Access.{
  Subject, AuthorizationPolicy, permissions_of, granted, check_attributes, lacks_role, authorize,
  is_value, refuse,
}

-- A permission that a release manager has by the role.
abbrev pub IsRelease : String → Type 0
IsRelease p = (p ≡ "deployment.activate") ⊎ (p ≡ "deployment.rollback")

-- The role is not asked for, or is held.
abbrev pub HasRole : List String → Option String → Type 0
HasRole roles none = Unit
HasRole roles (some role) = (role ≡ "") ⊎ (member role roles ≡ true)

-- The attribute is held with the value.
abbrev pub HasAttribute : Dict String String → String × String → Type 0
HasAttribute held (key, expected) = get held key ≡ some expected

-- What a policy asks of a subject.
pub record Granted (s : Subject) (p : AuthorizationPolicy) : Type 0 where
  pub tenant : s.tenant_id ≢ ""
  pub permission :
      (member p.permission s.permissions ≡ true)
      ⊎ (IsRelease p.permission × (member "release-manager" s.roles ≡ true))
  pub role : HasRole s.roles p.required_role
  pub attributes : All (HasAttribute s.attributes) p.required_attributes

member-append :
    (x : String) (xs ys : List String) → member x (xs ++ ys) ≡ (member x xs || member x ys)
member-append x [] ys = refl
member-append x (z ∷ xs) ys = ground (arith, member-append x xs ys)

abbrev is_release : String → Bool
is_release p = str_eq p "deployment.activate" || str_eq p "deployment.rollback"

-- The roles grant the release permissions, to a release manager.
member-permissions_of :
    (p : String) (roles : List String)
    → member p (permissions_of roles) ≡ (is_release p && member "release-manager" roles)
unfolding permissions_of
member-permissions_of p [] = ground arith
member-permissions_of p (role ∷ roles) = elim (Bool-cases (str_eq role "release-manager")) [
  | inl e ↦ ground (
    arith,
    e,
    str_eq_iff role "release-manager",
    str_eq_iff "release-manager" role,
    member-permissions_of p roles,
  )
  | inr n ↦ ground (
    arith,
    n,
    str_eq_iff role "release-manager",
    str_eq_iff "release-manager" role,
    member-permissions_of p roles,
  )
]

granted_iff :
    (s : Subject) (p : String)
    → (member p (granted s) ≡ true) ↔ (
        (member p s.permissions ≡ true) ⊎ (IsRelease p × (member "release-manager" s.roles ≡ true)))
granted_iff s p = (
  λ h. ground (
    arith,
    h,
    member-append p s.permissions (permissions_of s.roles),
    member-permissions_of p s.roles,
    str_eq_iff p "deployment.activate",
    str_eq_iff p "deployment.rollback",
  ),
  λ h. ground (
    arith,
    h,
    member-append p s.permissions (permissions_of s.roles),
    member-permissions_of p s.roles,
    str_eq_iff p "deployment.activate",
    str_eq_iff p "deployment.rollback",
  ),
)

role_iff :
    (roles : List String) (r : Option String) → (lacks_role roles r ≡ false) ↔ HasRole roles r
role_iff roles none = (λ h. tt, λ h. refl)
role_iff roles (some role) =
    (λ h. ground (arith, h, str_eq_iff role ""), λ h. ground (arith, h, str_eq_iff role ""))

attribute_iff :
    (held : Dict String String) (k e : String) (rest : Result Exception (Unit {0}))
    → ((if is_value e (get held k)
          then rest
          else refuse (text_append "required attribute is missing: " k))
        ≡ ok tt)
      ↔ ((get held k ≡ some e) × (rest ≡ ok tt))
attribute_iff held k e rest = elim (Option-cases (get held k)) [
  | inl n ↦ (λ h. ground (arith, n, h), λ h. ground (arith, n, h))
  | inr (v, n) ↦
      (λ h. ground (arith, n, h, str_eq_iff v e), λ h. ground (arith, n, h, str_eq_iff v e))
]

attributes_iff :
    (held required : Dict String String)
    → (check_attributes held required ≡ ok tt) ↔ All (HasAttribute held) required
unfolding check_attributes
attributes_iff held [] = (λ h. tt, λ h. refl)
attributes_iff held ((k, e) ∷ rest) =
    let (to, from) = attributes_iff held rest in
    let (split, join) = attribute_iff held k e (check_attributes held rest) in
    (λ h. (let (a, b) = split h in (a, to b)), λ (a, b). join (a, from b))

-- `authorize` lets a subject pass exactly when it has a tenant, holds the permission itself or is a
-- release manager asking for a release permission, holds the role if one is required, and has each
-- required attribute with the required value.
pub authorize_iff_Granted :
    (s : Subject) (p : AuthorizationPolicy) → (authorize s p ≡ ok tt) ↔ Granted s p
unfolding authorize
authorize_iff_Granted s p =
    let (has, grants) = granted_iff s p.permission in
    let (role_to, role_from) = role_iff s.roles p.required_role in
    let (to, from) = attributes_iff s.attributes p.required_attributes in
    (
      λ h. record {
        tenant = ground (arith, h, str_eq_iff s.tenant_id "");
        permission = has (ground (arith, h));
        role = role_to (ground (arith, h));
        attributes = to (ground (arith, h));
      },
      λ g. ground (
        arith,
        str_eq_iff s.tenant_id "",
        g.tenant,
        grants g.permission,
        role_from g.role,
        from g.attributes,
      ),
    )
