-- ===== src/Rbac/Specs/Grants.antt =====
-- What the rules of the Role allow.
use plugin_barman_cloud.Base.{
  Bool, true, false, ◌&&◌, ◌||◌, List, [], ◌∷◌, String, ◌==◌, string_eq, contains,
}
use plugin_barman_cloud.Api.{ObjectStore}
use plugin_barman_cloud.Rbac.Specs.{PolicyRule, api_group, object_store_names, secret_names}

-- The documented meaning of a `rbacv1.PolicyRule`: "*" stands for all verbs, groups or resources, and
-- a rule without resource names is for every name.
abbrev pub covers : List String → String → Bool
covers values value = contains values "*" || contains values value

abbrev pub names_cover : List String → String → Bool
unfolding contains
names_cover [] name = true
names_cover (n ∷ names) name = contains (n ∷ names) name

abbrev pub rule_allows : PolicyRule → String → String → String → String → Bool
rule_allows rule verb group resource name =
    covers rule.verbs verb
    && (covers rule.api_groups group
        && (covers rule.resources resource && names_cover rule.resource_names name))

abbrev pub rules_allow : List PolicyRule → String → String → String → String → Bool
rules_allow [] verb group resource name = false
rules_allow (rule ∷ rules) verb group resource name =
    rule_allows rule verb group resource name || rules_allow rules verb group resource name

-- To read an object.
abbrev pub is_read : String → Bool
is_read verb = "get" == verb || ("watch" == verb || "list" == verb)

-- To read these ObjectStores, to update their status, or to read the Secrets that they name.
abbrev pub is_granted : List ObjectStore → String → String → String → String → Bool
is_granted stores verb group resource name =
    (is_read verb
      && (api_group == group
          && ("objectstores" == resource && names_cover (object_store_names stores) name)))
    || (("update" == verb
          && (api_group == group
              && ("objectstores/status" == resource
                  && names_cover (object_store_names stores) name)))
        || (is_read verb
            && ("" == group && ("secrets" == resource && names_cover (secret_names stores) name))))
