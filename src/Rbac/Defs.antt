-- ===== src/Rbac/Defs.antt =====
-- The names and the contents of the RBAC objects
-- (controllers/backupconfiguration_controller_helpers.go).
use formol.Prelude.{String, List, [], ◌∷◌, ◌++◌}
use formol.Api.Meta.{named}
use formol.Api.Objects.{Role, RoleBinding, PolicyRule, Subject}

abbrev pub bs_creator_role_name : String
bs_creator_role_name = "formol:bs-creator-role"

abbrev pub bs_creator_rolebinding_name : String
bs_creator_rolebinding_name = "formol:bs-creator-rolebinding"

abbrev pub sidecar_role_name : String
sidecar_role_name = "formol:sidecar-role"

abbrev pub sidecar_rolebinding_name : String
sidecar_rolebinding_name = "formol:sidecar-rolebinding"

abbrev pub sidecar_clusterrole_name : String
sidecar_clusterrole_name = "formol:sidecar-clusterrole"

abbrev pub sidecar_clusterrolebinding_name : String
sidecar_clusterrolebinding_name = "formol:sidecar-clusterrolebinding"

abbrev pub reading : List String
reading = "get" ∷ "list" ∷ "watch" ∷ []

abbrev pub all_verbs : List String
all_verbs = reading ++ "create" ∷ "update" ∷ "patch" ∷ "delete" ∷ []

abbrev pub rule : List String → List String → List String → PolicyRule
rule verbs groups resources = record { verbs = verbs; api_groups = groups; resources = resources }

abbrev pub formol_group : List String
formol_group = "formol.desmojim.fr" ∷ []

abbrev pub bs_creator_role : String → Role
bs_creator_role namespace = record {
  metadata = named namespace bs_creator_role_name;
  rules = rule all_verbs formol_group ("backupsessions" ∷ []) ∷ [];
}

abbrev pub sidecar_role : String → Role
sidecar_role namespace = record {
  metadata = named namespace sidecar_role_name;
  rules =
      rule (reading ++ "update" ∷ []) ("apps" ∷ []) ("deployments" ∷ [])
      ∷ rule reading formol_group (
          "restoresessions" ∷ "backupsessions" ∷ "backupconfigurations" ∷ "functions" ∷ "repoes"
          ∷ [])
      ∷ rule all_verbs ("" ∷ []) ("persistentvolumeclaims" ∷ [])
      ∷ rule reading ("" ∷ []) ("secrets" ∷ "configmaps" ∷ [])
      ∷ rule all_verbs ("batch" ∷ []) ("jobs" ∷ [])
      ∷ rule all_verbs formol_group ("backupsessions/status" ∷ [])
      ∷ rule all_verbs formol_group ("restoresessions/status" ∷ [])
      ∷ [];
}

abbrev pub sidecar_clusterrole : Role
sidecar_clusterrole = record {
  metadata = named "" sidecar_clusterrole_name;
  rules =
      rule reading ("" ∷ "snapshot.storage.k8s.io" ∷ [])
        ("volumesnapshotclasses" ∷ "persistentvolumes" ∷ [])
      ∷ rule all_verbs ("snapshot.storage.k8s.io" ∷ []) ("volumesnapshots" ∷ [])
      ∷ [];
}

abbrev pub account : String → String → Subject
account name namespace = record { kind = "ServiceAccount"; name = name; namespace = namespace }

-- The binding of a service account to a role of the namespace.
abbrev pub account_binding : String → String → String → String → RoleBinding
account_binding namespace name sa role = record {
  metadata = named namespace name;
  subjects = account sa "" ∷ [];
  role_ref = record { api_group = "rbac.authorization.k8s.io"; kind = "Role"; name = role };
}

abbrev pub cluster_binding : String → String → RoleBinding
cluster_binding namespace sa = record {
  metadata = named "" sidecar_clusterrolebinding_name;
  subjects = account sa namespace ∷ [];
  role_ref = record {
    api_group = "rbac.authorization.k8s.io";
    kind = "ClusterRole";
    name = sidecar_clusterrole_name;
  };
}
