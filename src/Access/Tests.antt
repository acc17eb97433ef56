-- ===== src/Access/Tests.antt =====
-- A small portal, and the theorems about the filters at it.
use masterportal_admin.Base.{
  String, ◌≡◌, refl, none, List, [], ◌∷◌, ok, any, not, map, keep, ◌≢◌, keep_result, map_result,
}
use masterportal_admin.Base.Dict
use masterportal_admin.Base.Dict.{Dict}
use masterportal_admin.Json.{Value, str, arr, obj, nil, cons, end, field}
use masterportal_admin.Json.Object.{get, get_or, set, iterate}
use masterportal_admin.Access.{roles_satisfy}
use masterportal_admin.Access.Tree.{ids_of, id_ok, is_folder, prune, filter_layer_config}
use masterportal_admin.Access.Tree.Leaves.{leaves_of}
use masterportal_admin.Access.Tree.Leaves.Keeps.{is_blocked, leaves_of-filter_layer_config}
use masterportal_admin.Access.Menu.{filter_portal_config}
use masterportal_admin.Access.Menu.Policy.{may_use}
use masterportal_admin.Access.Menu.Keeps.{menu_sections, entry, menu_sections-filter_portal_config}

abbrev layer : String → Value
layer id = obj (field "id" (str id) end)

abbrev folder : Value → Value
folder elements = obj (field "type" (str "folder") (field "elements" elements end))

abbrev tree : Value
tree = obj (
    field "subjectlayer"
      (obj (
        field "elements"
          (arr (
            cons (folder (arr (cons (layer "1.7") (cons (layer "2") nil))))
              (cons (folder (arr (cons (layer "1") nil))) (cons (layer "inline") nil))))
          end))
      end)

abbrev pruned : Value
pruned = obj (
    field "subjectlayer"
      (obj (
        field "elements"
          (arr (cons (folder (arr (cons (layer "2") nil))) (cons (layer "inline") nil))) end))
      end)

-- The suffixed id and the folder that is left empty go; the id outside the catalog stays.
pruned-tree : filter_layer_config tree ("1" ∷ "2" ∷ []) ("2" ∷ []) ≡ ok pruned
unfolding filter_layer_config prune is_folder ids_of id_ok get set
pruned-tree = refl

leaves_of-filter_layer_config_example :
    leaves_of pruned
    ≡ keep
        (λ l. not (any (is_blocked ("1" ∷ "2" ∷ []) ("2" ∷ [])) (ids_of l.entries)))
        (leaves_of tree)
leaves_of-filter_layer_config_example =
    leaves_of-filter_layer_config tree pruned ("1" ∷ "2" ∷ []) ("2" ∷ []) pruned-tree

abbrev menu_of : Value → Value
menu_of section = obj (field "mainMenu" (obj (field "sections" (arr (cons section nil)) end)) end)

abbrev tool : String → Value
tool name = obj (field "type" (str name) end)

abbrev full_menu : Value
full_menu = menu_of (arr (cons (tool "print") (cons (tool "draw") nil)))

abbrev short_menu : Value
short_menu = menu_of (arr (cons (tool "draw") nil))

abbrev print_only : Dict (List String)
print_only = ("print", "staff" ∷ []) ∷ []

filtered_menu : filter_portal_config full_menu print_only none ≡ ok short_menu
unfolding filter_portal_config get_or get set iterate keep_result map_result Dict.get_or
    roles_satisfy
filtered_menu = refl

menu_sections-filter_portal_config_example :
    (menu_sections "mainMenu" short_menu
      ≡ map (keep (may_use print_only none)) (menu_sections "mainMenu" full_menu))
    × (menu_sections "secondaryMenu" short_menu
        ≡ map (keep (may_use print_only none)) (menu_sections "secondaryMenu" full_menu))
    × ((k : String) → k ≢ "mainMenu" → k ≢ "secondaryMenu" → entry k short_menu ≡ entry k full_menu)
menu_sections-filter_portal_config_example =
    menu_sections-filter_portal_config full_menu short_menu print_only none (λ e. cc) filtered_menu
