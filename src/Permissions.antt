-- ===== src/Permissions.antt =====
-- packages/domain/src/permissions.ts: the permissions, the built-in roles and what a set of roles allows.
pub mod Separation
use trustee_bank.Prelude.{String, Bool, List, [], ◌∷◌, map, any}
use trustee_bank.Store.Query.{includes}

pub data Permission : Type 0 where
  account_register account_activate account_close program_manage : Permission
  registry_manage deposit_view deposit_match deposit_clear : Permission
  funding_create reserve_view mint_request mint_approve : Permission
  mint_revoke redemption_approve payout_approve paykh_profile_verify : Permission
  paykh_settlement_approve compliance_review compliance_hold por_generate : Permission
  attestation_approve admin_users admin_roles admin_policies : Permission
  admin_feature_flags admin_emergency audit_view executive_view : Permission

-- The slugs that the object gives its keys.
unfoldable pub slug : Permission → String
slug account_register = "account.register"
slug account_activate = "account.activate"
slug account_close = "account.close"
slug program_manage = "program.manage"
slug registry_manage = "registry.manage"
slug deposit_view = "deposit.view"
slug deposit_match = "deposit.match"
slug deposit_clear = "deposit.clear"
slug funding_create = "funding.create"
slug reserve_view = "reserve.view"
slug mint_request = "mint.request"
slug mint_approve = "mint.approve"
slug mint_revoke = "mint.revoke"
slug redemption_approve = "redemption.approve"
slug payout_approve = "payout.approve"
slug paykh_profile_verify = "paykh.profile.verify"
slug paykh_settlement_approve = "paykh.settlement.approve"
slug compliance_review = "compliance.review"
slug compliance_hold = "compliance.hold"
slug por_generate = "por.generate"
slug attestation_approve = "attestation.approve"
slug admin_users = "admin.users"
slug admin_roles = "admin.roles"
slug admin_policies = "admin.policies"
slug admin_feature_flags = "admin.feature-flags"
slug admin_emergency = "admin.emergency"
slug audit_view = "audit.view"
slug executive_view = "executive.view"

abbrev pub all_permissions : List Permission
all_permissions =
    account_register ∷ account_activate ∷ account_close ∷ program_manage ∷ registry_manage
    ∷ deposit_view ∷ deposit_match ∷ deposit_clear ∷ funding_create ∷ reserve_view ∷ mint_request
    ∷ mint_approve ∷ mint_revoke ∷ redemption_approve ∷ payout_approve ∷ paykh_profile_verify
    ∷ paykh_settlement_approve ∷ compliance_review ∷ compliance_hold ∷ por_generate
    ∷ attestation_approve ∷ admin_users ∷ admin_roles ∷ admin_policies ∷ admin_feature_flags
    ∷ admin_emergency ∷ audit_view ∷ executive_view ∷ []

pub record RoleDefinition : Type 0 where
  pub slug : String
  pub name : String
  pub institution : String
  pub permissions : List Permission

abbrev pub trustee_super_admin : RoleDefinition
trustee_super_admin = record {
  slug = "trustee_super_admin";
  name = "Trustee Bank Super Administrator";
  institution = "TRUSTEE_BANK";
  permissions = all_permissions;
}

abbrev pub trustee_operations_maker : RoleDefinition
trustee_operations_maker = record {
  slug = "trustee_operations_maker";
  name = "Trustee Operations Maker";
  institution = "TRUSTEE_BANK";
  permissions = deposit_view ∷ deposit_match ∷ funding_create ∷ reserve_view ∷ mint_request ∷ [];
}

abbrev pub trustee_operations_checker : RoleDefinition
trustee_operations_checker = record {
  slug = "trustee_operations_checker";
  name = "Trustee Operations Checker";
  institution = "TRUSTEE_BANK";
  permissions = deposit_view ∷ deposit_clear ∷ reserve_view ∷ mint_approve ∷ mint_revoke ∷ [];
}

abbrev pub treasury_maker : RoleDefinition
treasury_maker = record {
  slug = "treasury_maker";
  name = "Treasury Maker";
  institution = "TRUSTEE_BANK";
  permissions = reserve_view ∷ por_generate ∷ [];
}

abbrev pub treasury_checker : RoleDefinition
treasury_checker = record {
  slug = "treasury_checker";
  name = "Treasury Checker";
  institution = "TRUSTEE_BANK";
  permissions = reserve_view ∷ payout_approve ∷ redemption_approve ∷ [];
}

abbrev pub compliance_analyst : RoleDefinition
compliance_analyst = record {
  slug = "compliance_analyst";
  name = "Compliance Analyst";
  institution = "TRUSTEE_BANK";
  permissions = compliance_review ∷ [];
}

abbrev pub compliance_approver : RoleDefinition
compliance_approver = record {
  slug = "compliance_approver";
  name = "Compliance Approver";
  institution = "TRUSTEE_BANK";
  permissions = compliance_review ∷ compliance_hold ∷ [];
}

abbrev pub internal_auditor : RoleDefinition
internal_auditor = record {
  slug = "internal_auditor";
  name = "Internal Auditor";
  institution = "TRUSTEE_BANK";
  permissions = audit_view ∷ reserve_view ∷ executive_view ∷ [];
}

abbrev pub security_admin : RoleDefinition
security_admin = record {
  slug = "security_admin";
  name = "Security Administrator";
  institution = "TRUSTEE_BANK";
  permissions = admin_users ∷ admin_roles ∷ admin_emergency ∷ [];
}

abbrev pub readonly_executive : RoleDefinition
readonly_executive = record {
  slug = "readonly_executive";
  name = "Read-only Executive";
  institution = "TRUSTEE_BANK";
  permissions = executive_view ∷ reserve_view ∷ [];
}

abbrev pub builtin_roles : List RoleDefinition
builtin_roles =
    trustee_super_admin ∷ trustee_operations_maker ∷ trustee_operations_checker ∷ treasury_maker
    ∷ treasury_checker ∷ compliance_analyst ∷ compliance_approver ∷ internal_auditor
    ∷ security_admin ∷ readonly_executive ∷ []

-- `roleDefs.some((r) => r.permissions.includes(permission))`
unfoldable pub role_set_has_permission : List (List String) → Permission → Bool
unfolding slug
role_set_has_permission role_defs permission =
    any (λ held. includes held (slug permission)) role_defs
