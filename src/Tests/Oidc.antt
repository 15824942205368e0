-- ===== src/Tests/Oidc.antt =====
-- Runs of the sign-in by OpenID Connect.
use phlox_gw.Common.{false, [], ◌∷◌, ◌≡◌, refl}
use phlox_gw.Common.Text.{codes}
use phlox_gw.Store.Types.{User}
use phlox_gw.Store.Table.{update_where}
use phlox_gw.Gateway.Json.{Json, Items, Members}
use phlox_gw.Gateway.Sessions.Oidc.{OidcConfig, SignIn, user_from_oidc_claims, clean_return_to}
use phlox_gw.Tests.{noon, ann, db}

abbrev config : OidcConfig
config = record {
  username_claim = codes "nick";
  department_claim = codes "unit";
  groups_claim = codes "groups";
  admin_groups = codes "Admins " ∷ [];
  auto_provision = false;
}

abbrev ann_values : Members
ann_values = Members.member (codes "nick") (Json.string (codes " ann ")) (
    Members.member (codes "groups")
      (Json.array (Items.cons (Json.string (codes "admins")) Items.nil)) Members.end)

abbrev ann_signed_in : User
ann_signed_in = record ann { display_name = codes "ann"; department = []; role = codes "admin" }

-- A member of a group of administrators becomes one; the account stays a local one.
ann_runs :
    user_from_oidc_claims config (codes "u9") noon db (codes "s1") ann_values
    ≡ SignIn.signed_in (record db { users = ann_signed_in ∷ [] }) ann_signed_in
unfolding user_from_oidc_claims update_where
ann_runs = refl

-- Without the creation of accounts, a name that is not known is refused.
bob_runs :
    user_from_oidc_claims config (codes "u9") noon db (codes "bob") Members.end
    ≡ SignIn.provisioning_disabled
unfolding user_from_oidc_claims
bob_runs = refl

return_runs : clean_return_to (codes " //elsewhere") ≡ codes "/"
unfolding clean_return_to
return_runs = refl
