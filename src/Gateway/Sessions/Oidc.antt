-- ===== src/Gateway/Sessions/Oidc.antt =====
-- The sign-in by OpenID Connect, after the claims were verified: userFromOIDCClaims, oidcRoleForClaims,
-- firstClaimString, claimStrings, groupsIntersect and cleanReturnTo of auth.go. The claims are JSON values.
use phlox_gw.Common.{
  Bool, true, false, not, ◌||◌, Option, none, some, List, [], ◌∷◌, any, if◌then◌else◌,
}
use phlox_gw.Common.Int.{pos}
use phlox_gw.Common.Text.{Text, codes, text_eq, is_empty, has_prefix}
use phlox_gw.Common.Text.Lower.{to_lower}
use phlox_gw.Common.Text.Trim.{trim_space}
use phlox_gw.Common.Text.Split.{trim_items}
use phlox_gw.Store.Types.{Time, User, Db, Result, StoreError, ok, err, not_found, conflict, failed}
use phlox_gw.Store.Users.{get_user_by_username, get_user_by_id, create_user, update_federated_user}
use phlox_gw.Gateway.Json.{Json, Items, Members}
use phlox_gw.Gateway.Fields.{lookup}

-- The settings that a sign-in reads.
pub record OidcConfig : Type 0 where
  pub username_claim : Text
  pub department_claim : Text
  pub groups_claim : Text
  pub admin_groups : List Text
  pub auto_provision : Bool

-- The texts of an array; other items are passed over.
abbrev pub texts_of : Items → List Text
texts_of Items.nil = []
texts_of (Items.cons (Json.string s) items) = s ∷ texts_of items
texts_of (Items.cons _ items) = texts_of items

abbrev pub value_strings : Json → List Text
value_strings (Json.string s) = trim_space s ∷ []
value_strings (Json.array items) = trim_items (texts_of items)
value_strings _ = []

-- claimStrings; a claim that is missing is nil.
unfoldable pub claim_strings : Option Json → List Text
unfolding trim_space trim_items
claim_strings none = []
claim_strings (some value) = value_strings value

abbrev first_text : List Text → Text
first_text [] = []
first_text (s ∷ rest) = if is_empty s then first_text rest else s

-- firstClaimString
unfoldable pub first_claim_string : Members → List Text → Text
unfolding claim_strings trim_space lookup
first_claim_string values [] = []
first_claim_string values (name ∷ names) =
    let rest = first_claim_string values names in
    let found = first_text (claim_strings (lookup (trim_space name) values)) in
    if is_empty (trim_space name) then rest else if is_empty found then rest else found

-- groupsIntersect
unfoldable pub groups_intersect : List Text → List Text → Bool
unfolding to_lower trim_space text_eq
groups_intersect claim_groups admin_groups =
    any
      (λ group.
        any (λ claimed. text_eq (to_lower claimed) (to_lower (trim_space group))) claim_groups)
      admin_groups

-- cleanReturnTo
unfoldable pub clean_return_to : Text → Text
unfolding trim_space has_prefix
clean_return_to value =
    let trimmed = trim_space value in
    if is_empty trimmed || not (has_prefix trimmed (codes "/")) || has_prefix trimmed (codes "//")
    then codes "/"
    else trimmed

-- The errors of a sign-in: no name, no account, an account that was disabled, and those of the store.
pub data SignIn : Type 0 where
  signed_in : Db → User → SignIn
  name_required provisioning_disabled user_disabled : SignIn
  store_failed : Db → StoreError → SignIn

abbrev reloaded : Db → Result User → SignIn
reloaded db (ok user) = signed_in db user
reloaded db (err e) = store_failed db e

module _ (cfg : OidcConfig) where
  -- oidcRoleForClaims
  unfoldable pub oidc_role_for_claims : Text → Members → Text
  unfolding groups_intersect claim_strings lookup
  oidc_role_for_claims existing_role values =
      if groups_intersect (claim_strings (lookup cfg.groups_claim values)) cfg.admin_groups
      then codes "admin"
      else if is_empty existing_role
      then codes "user"
      else existing_role

  -- The user that is created, whose times the store writes.
  unfoldable pub provisioned : Text → Time → Text → Text → Text → Text → Members → User
  unfolding oidc_role_for_claims
  provisioned id now username email display_name department values = record {
    id = id;
    username = username;
    email = email;
    display_name = display_name;
    department = department;
    role = oidc_role_for_claims [] values;
    password_hash = [];
    auth_provider = codes "oidc";
    is_active = true;
    must_change_password = false;
    session_version = pos 0;
    created_at = now;
    updated_at = now;
    last_login_at = none;
  }

  abbrev after_write : Text → Db → Result Db → SignIn
  after_write id db (err e) = store_failed db e
  after_write id db (ok db') = reloaded db' (get_user_by_id db' id)

  -- The user with the name, or none.
  abbrev with_existing :
      Text → Time → Db → Text → Text → Text → Text → Members → Result User → SignIn
  with_existing id now db username email display_name department values (err not_found) =
      if cfg.auto_provision
      then after_write id db
          (create_user db now (provisioned id now username email display_name department values))
      else provisioning_disabled
  with_existing id now db username email display_name department values (err conflict) =
      store_failed db conflict
  with_existing id now db username email display_name department values (err failed) =
      store_failed db failed
  with_existing id now db username email display_name department values (ok existing) =
      if not existing.is_active
      then user_disabled
      else after_write existing.id db (
          update_federated_user db now (record existing {
            email = email;
            display_name = display_name;
            department = department;
            role = oidc_role_for_claims existing.role values;
            auth_provider =
                if is_empty existing.auth_provider || text_eq existing.auth_provider (codes "oidc")
                then codes "oidc"
                else existing.auth_provider;
          }))

  -- userFromOIDCClaims, with the random id of a new user.
  unfoldable pub user_from_oidc_claims : Text → Time → Db → Text → Members → SignIn
  unfolding first_claim_string get_user_by_username get_user_by_id create_user update_federated_user
      provisioned oidc_role_for_claims text_eq
  user_from_oidc_claims id now db subject values =
      let claimed =
        first_claim_string values
          (cfg.username_claim ∷ codes "preferred_username" ∷ codes "upn" ∷ codes "email" ∷ []) in
      let username = if is_empty claimed then subject else claimed in
      let name = first_claim_string values (codes "name" ∷ codes "given_name" ∷ []) in
      if is_empty username
      then name_required
      else with_existing id now db username
          (first_claim_string values
            (codes "email" ∷ codes "preferred_username" ∷ codes "upn" ∷ []))
          (if is_empty name then username else name)
          (first_claim_string values (cfg.department_claim ∷ [])) values
          (get_user_by_username db username)
