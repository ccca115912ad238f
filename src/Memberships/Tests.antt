-- ===== src/Memberships/Tests.antt =====
-- Requests to a small Tenant.
use wctm.Prelude.{Key, ◌≡◌, refl, ◌≤◌, none, List, [], ◌∷◌, arith, ◌==◌, err, not, ◌&&◌}
use wctm.Database.Methods.{Client}
use wctm.Database.Rows.{filter_where, count_where}
use wctm.Database.Memory.{memory}
use wctm.Memberships.State.{
  Role, owner, admin, member, Membership, User, Context, Directory, management_forbidden,
}
use wctm.Memberships.Service.{
  list_memberships, add_membership, update_membership_role, remove_membership,
}
use wctm.Memberships.Owners.{Request, owners, serve, serve_all, serve_all_keeps_owner}
use wctm.Memberships.Isolation.{serve_isolated, admin_spares_owners, member_refused, live_owner}

abbrev membership : Key → Key → Key → Role → Membership
membership id tenant user role = record {
  id = id;
  tenant_id = tenant;
  user_id = user;
  role = role;
  deleted_at = none;
}

abbrev directory : Directory
directory = record {
  users = record { id = 1 } ∷ record { id = 2 } ∷ record { id = 3 } ∷ [];
  tenants = record { id = 10; deleted_at = none } ∷ record { id = 20; deleted_at = none } ∷ [];
  memberships =
      membership 100 10 1 owner ∷ membership 101 10 2 admin ∷ membership 200 20 3 owner ∷ [];
  audit_log = [];
}

abbrev user_table : Client User
user_table = memory (λ a b. a.id == b.id)

abbrev table : Client Membership
table = memory (λ a b. a.tenant_id == b.tenant_id && a.user_id == b.user_id)

abbrev actor : Key → Role → Context
actor user role = record { tenant_id = 10; user_id = user; membership_role = role }

-- An owner promotes a member and leaves; the promoted one may not leave then.
abbrev requests : List (Context × Request)
requests =
    (actor 1 owner, Request.update_role 101 owner)
    ∷ (actor 1 owner, Request.remove 100 5)
    ∷ (actor 2 owner, Request.remove 101 6)
    ∷ (actor 2 owner, Request.add 102 3 member)
    ∷ []

serve_all_keeps_owner_example : 1 ≤ owners 10 (serve_all user_table table requests directory)
unfolding count_where
serve_all_keeps_owner_example =
    serve_all_keeps_owner user_table table 10 requests directory (omega arith)

serve_isolated_example :
    filter_where
      (λ m. not (m.tenant_id == 10))
      (serve user_table table (actor 1 owner, Request.remove 200 5) directory).memberships
    ≡ filter_where (λ m. not (m.tenant_id == 10)) directory.memberships
serve_isolated_example =
    serve_isolated user_table table (actor 1 owner) (Request.remove 200 5) directory

admin_spares_owners_example :
    filter_where live_owner
      (serve user_table table (actor 2 admin, Request.update_role 100 member) directory).memberships
    ≡ filter_where live_owner directory.memberships
admin_spares_owners_example =
    admin_spares_owners user_table table (actor 2 admin) (Request.update_role 100 member) directory
      refl

member_refused_example :
    (list_memberships table (actor 3 member) directory ≡ (err management_forbidden, directory))
    × (add_membership user_table table (actor 3 member) 102 3 admin directory
        ≡ (err management_forbidden, directory))
    × (update_membership_role table (actor 3 member) 102 admin directory
        ≡ (err management_forbidden, directory))
    × (remove_membership table (actor 3 member) 102 7 directory
        ≡ (err management_forbidden, directory))
member_refused_example =
    member_refused user_table table (actor 3 member) directory 102 3 admin 7 refl
