-- ===== src/PortalConfig/Tests.antt =====
-- The settings form at a small configuration.
use masterportal_admin.Base.{
  String, true, false, List, [], ◌∷◌, ok, err, value_error, type_error, ◌≡◌, refl, map_result,
  keep_result,
}
use masterportal_admin.Json.{Value, Items, null, bool, str, arr, obj, nil, cons, Fields, end, field}
use masterportal_admin.Json.Object.{get, iterate, or_else, is_true, get_or, set, remove}
use masterportal_admin.Access.Menu.Keeps.{entry}
use masterportal_admin.PortalConfig.{controls, modules}
use masterportal_admin.PortalConfig.Modules.{
  set_module, change_menu, change_sections, section_without, menu_module_types, sections_types,
  section_types,
}
use masterportal_admin.PortalConfig.Modules.Sections.{changed_types}
use masterportal_admin.PortalConfig.Modules.Effect.{menu_types, menu_types-set_module}
use masterportal_admin.PortalConfig.Form.{
  apply_settings, extract_settings, apply_title, put_texts, title_of, texts_of, map_of, switches_of,
}
use masterportal_admin.PortalConfig.Form.Frame.{entry-apply_settings}
use masterportal_admin.PortalConfig.Form.Roundtrip.{
  form_text, shown_after, form_text-apply_settings,
}

abbrev entries : List String → Items
entries [] = nil
entries (t ∷ ts) = cons (obj (field "type" (str t) end)) (entries ts)

abbrev config : List String → Fields → Value
config types title = obj (
    field "mainMenu"
      (obj
        (field "sections" (arr (cons (arr (entries types)) nil)) (field "title" (obj title) end)))
      (field "portalFooter" (obj end) end))

abbrev city : Value
city = config ("legend" ∷ "folder" ∷ "draw" ∷ []) (field "text" (str "City") end)

draw_removed :
    set_module city (str "mainMenu") (str "draw") false
    ≡ ok (config ("legend" ∷ "folder" ∷ []) (field "text" (str "City") end))
unfolding set_module modules change_menu get change_sections iterate or_else is_true map_result
    section_without keep_result get_or set
draw_removed = refl

-- A module that is not in the catalog is refused.
unknown_module : set_module city (str "mainMenu") (str "folder") true ≡ err value_error
unfolding set_module modules
unknown_module = refl

menu_types-set_module_example :
    (types : List Value) × (menu_types "mainMenu" city ≡ ok types)
    × (menu_types "mainMenu" (config ("legend" ∷ "folder" ∷ []) (field "text" (str "City") end))
        ≡ ok (changed_types false "draw" types))
    × (entry "portalFooter" (config ("legend" ∷ "folder" ∷ []) (field "text" (str "City") end))
        ≡ entry "portalFooter" city)
menu_types-set_module_example =
    menu_types-set_module city (config ("legend" ∷ "folder" ∷ []) (field "text" (str "City") end))
      "mainMenu" "draw" false "portalFooter" draw_removed refl

-- The patch of a title: its text is new, its logo is taken away.
abbrev title_patch : Fields
title_patch = field "text" (str "Town") (field "logo" (str "") end)

abbrev patch : Fields
patch = field "title" (obj title_patch) end

abbrev town : Value
town = obj (
    field "mainMenu"
      (obj (
        field "sections" (arr (cons (arr (entries ("legend" ∷ []))) nil))
          (field "title" (obj (field "text" (str "Town") end)) end)))
      (field "portalFooter" (obj end) end))

abbrev old_town : Value
old_town = config ("legend" ∷ []) (field "text" (str "City") (field "logo" (str "a.svg") end))

town_titled : apply_settings old_town patch ≡ ok town
unfolding apply_settings get apply_title put_texts is_true set remove
town_titled = refl

entry-apply_settings_example : entry "portalFooter" town ≡ entry "portalFooter" old_town
unfolding get
entry-apply_settings_example =
    entry-apply_settings old_town town patch town_titled "portalFooter" refl

abbrev switches_off : List String → Fields
switches_off [] = end
switches_off (c ∷ cs) = field c (bool false) (switches_off cs)

-- The form of a configuration without a map, whose main menu has the legend.
abbrev form : Value → Value → Value
form text logo = obj (
    field "title"
      (obj (
        field "text" text
          (field "logo" logo (field "link" (str "") (field "toolTip" (str "") end)))))
      (field "footerUrls" (arr nil) (
        field "map"
          (obj (
            field "startingMapMode" (str "2D") (
              field "startCenter" (arr nil) (
                field "startZoomLevel" null (
                  field "extent" (arr nil)
                    (field "epsg" (str "") (field "backgroundImage" (str "") end)))))))
          (field "controls" (obj (switches_off controls)) (
            field "modules"
              (obj (
                field "mainMenu" (arr (cons (str "legend") nil))
                  (field "secondaryMenu" (arr nil) end)))
              end)))))

read_before : extract_settings old_town ≡ ok (form (str "City") (str "a.svg"))
unfolding extract_settings controls title_of get_or get texts_of or_else is_true map_of switches_of
    menu_module_types iterate sections_types section_types
read_before = refl

read_after : extract_settings town ≡ ok (form (str "Town") (str ""))
unfolding extract_settings controls title_of get_or get texts_of or_else is_true map_of switches_of
    menu_module_types iterate sections_types section_types
read_after = refl

-- The text is as the patch gives it.
form_text-apply_settings_example :
    form_text "text" (form (str "Town") (str ""))
    ≡ shown_after (get "text" title_patch) (form_text "text" (form (str "City") (str "a.svg")))
unfolding get
form_text-apply_settings_example =
    form_text-apply_settings old_town town (form (str "City") (str "a.svg"))
      (form (str "Town") (str "")) patch title_patch "text" town_titled refl read_before read_after
      refl

-- A title that is null reads as an empty one, and the patch of it raises an error.
abbrev null_title : Value
null_title = obj (field "mainMenu" (obj (field "title" null end)) end)

patch_null : apply_settings null_title patch ≡ err type_error
unfolding apply_settings get apply_title put_texts is_true
patch_null = refl
