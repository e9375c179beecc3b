-- ===== src/Production/Access.antt =====
-- production/control_plane.py: Subject, AuthorizationPolicy and RBACABAC. A frozen set of names is a list:
-- nothing reads its order.
pub mod Grants
use niceone_obsidian.Prelude.{
  String, Bool, false, not, ◌&&◌, Option, none, some, List, [], ◌∷◌, ◌++◌, str_eq, string_eq,
  if◌then◌else◌,
}
use niceone_obsidian.Prelude.Dict.{Dict, get}
use niceone_obsidian.Prelude.Exec.{Result, ok, err}
use niceone_obsidian.Kernel.Errors.{Exception, exception, other}
use niceone_obsidian.Kernel.Policy.{member}
use Prim.Native.String.{◌++◌ as text_append}

pub record Subject : Type 0 where
  pub subject_id : String
  pub tenant_id : String
  pub roles : List String
  pub attributes : Dict String String
  pub permissions : List String

pub record AuthorizationPolicy : Type 0 where
  pub permission : String
  pub required_role : Option String
  pub required_attributes : Dict String String

-- RBACABAC.ROLE_PERMISSIONS
unfoldable pub role_permissions : String → List String
role_permissions role =
    if str_eq role "release-manager" then "deployment.activate" ∷ "deployment.rollback" ∷ [] else []

unfoldable pub permissions_of : List String → List String
unfolding role_permissions
permissions_of [] = []
permissions_of (role ∷ roles) = role_permissions role ++ permissions_of roles

-- The local variable `granted` of `authorize`.
abbrev pub granted : Subject → List String
granted s = s.permissions ++ permissions_of s.roles

abbrev pub refuse : String → Result Exception (Unit {0})
refuse why = err (exception (other "AuthorizationError") why)

-- `subject.attributes.get(key) == expected`
abbrev pub is_value : String → Option String → Bool
is_value expected none = false
is_value expected (some v) = str_eq v expected

-- The loop over the required attributes.
unfoldable pub check_attributes :
    Dict String String → Dict String String → Result Exception (Unit {0})
unfolding get
check_attributes held [] = ok tt
check_attributes held ((key, expected) ∷ rest) =
    let more = check_attributes held rest in
    if is_value expected (get held key)
    then more
    else refuse (text_append "required attribute is missing: " key)

-- `policy.required_role and policy.required_role not in subject.roles`
abbrev pub lacks_role : List String → Option String → Bool
lacks_role roles none = false
lacks_role roles (some role) = not (str_eq role "") && not (member role roles)

-- RBACABAC.authorize
unfoldable pub authorize : Subject → AuthorizationPolicy → Result Exception (Unit {0})
unfolding check_attributes permissions_of
authorize s p =
    if str_eq s.tenant_id ""
    then refuse "tenant identity is required"
    else if not (member p.permission (granted s))
    then refuse (text_append "permission is missing: " p.permission)
    else if lacks_role s.roles p.required_role
    then refuse "required role is missing"
    else check_attributes s.attributes p.required_attributes
