-- ===== src/Sidecar/Mounts.antt =====
-- `GetVolumeMounts` of api/v1alpha1/common.go: under which mounts the paths to back up lie.
use formol.Prelude.{
  ℕ, suc, ltb, ◌&&◌, Bool, true, false, String, List, [], ◌∷◌, ◌==◌, ◌<>◌, get_elem?, Option, none,
  some, if◌then◌else◌,
}
use formol.Api.Config.{TargetContainer}
use formol.Api.Pod.{VolumeMount, Container}

-- The functions of path/filepath, strings and fmt: `Clean`, `Split` at the separator, `Rel` with its
-- error dropped, `Join`, and the decimal digits of an index.
pub record PathOps : Type 0 where
  pub clean : String → String
  pub split : String → List String
  pub rel : String → String → String
  pub join : String → String → String
  pub decimal : ℕ → String

-- The variables of the loops.
pub record Choice : Type 0 where
  pub longest : ℕ
  pub mount : VolumeMount
  pub sidecar_path : String

abbrev pub no_choice : Choice
no_choice = record {
  longest = 0;
  mount = record { name = ""; read_only = true; mount_path = ""; sub_path = "" };
  sidecar_path = "";
}

-- `strings.Join(sidecarPaths, ":")`
unfoldable pub path_list : List String → String
path_list [] = ""
path_list (p ∷ []) = p
path_list (p ∷ q ∷ rest) = p <> (":" <> path_list (q ∷ rest))

-- `j < len(splitPath) && pathItem == splitPath[j]`
abbrev pub same_item : Option String → String → Bool
same_item none item = false
same_item (some s) item = item == s

module _ (P : PathOps) where
  -- The mount as the sidecar has it, for the path at index `i`.
  abbrev pub choose : ℕ → String → VolumeMount → ℕ → Choice → Choice
  choose i path vm j c =
      let mount_path = "/backup" <> P.decimal i in
      record {
        longest = j;
        mount = record {
          name = vm.name;
          read_only = c.mount.read_only;
          mount_path = mount_path;
          sub_path = vm.sub_path;
        };
        sidecar_path = P.join mount_path (P.rel vm.mount_path path);
      }

  -- The loop over the items of a mount path, from index `j`.
  unfoldable pub scan_items :
      ℕ → String → List String → VolumeMount → ℕ → List String → Choice → Choice
  scan_items i path split_path vm j [] c = c
  scan_items i path split_path vm j (item ∷ rest) c = scan_items i path split_path vm (suc j) rest (
      if same_item (get_elem? split_path j) item && ltb c.longest j
      then choose i path vm j c
      else c)

  unfoldable pub scan_mounts : ℕ → String → List String → List VolumeMount → Choice → Choice
  unfolding scan_items
  scan_mounts i path split_path [] c = c
  scan_mounts i path split_path (vm ∷ rest) c =
      scan_mounts i path split_path rest
        (scan_items i path split_path vm 0 (P.split vm.mount_path) c)

  unfoldable pub mounts_from : ℕ → List VolumeMount → List String → List String × List VolumeMount
  unfolding scan_mounts
  mounts_from i vms [] = ([], [])
  mounts_from i vms (p ∷ rest) =
      let path = P.clean p in
      let c = scan_mounts i path (P.split path) vms no_choice in
      let (paths, mounts) = mounts_from (suc i) vms rest in
      (c.sidecar_path ∷ paths, c.mount ∷ mounts)

  unfoldable pub get_volume_mounts : Container → TargetContainer → List String × List VolumeMount
  unfolding mounts_from
  get_volume_mounts c tc = mounts_from 0 c.volume_mounts tc.paths
